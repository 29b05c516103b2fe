-- ===== src/Dispatcher/Build/Tests.antt =====
-- A gateway with one application, whose check of tokens and limiter are those of the packages auth and ratelimit.
use servicegateway.Prelude.{String, true, List, [], ◌∷◌, ◌++◌, Option, some}
use servicegateway.Prelude.Int.{pos}
use servicegateway.Effects.{pure}
use servicegateway.Http.{Request, Route}
use servicegateway.Http.Tests.{request}
use servicegateway.Proxy.Rewriter.{Mapping}
use servicegateway.Proxy.Rewriter.Tests.{urls, any_path}
use servicegateway.Proxy.Rewriter.Tests.{json as rewriter_json}
use servicegateway.Proxy.Upstream.{redirect, Client}
use servicegateway.Proxy.Upstream.Tests.{app, cfg}
use servicegateway.Ratelimit.{Redis, Throttler, failed}
use servicegateway.Auth.Types.{ok}
use servicegateway.Auth.Handler.Tests.{Expiries}
use servicegateway.Auth.Rest.Tests.{gateway, rest_env}
use servicegateway.Auth.Login.{denied, invalid_credentials}
use servicegateway.Auth.Login.Routes.{Service}
use servicegateway.Dispatcher.Behaviours.{rest_decorator, rate_limiter}
use servicegateway.Dispatcher.Routes.{Dispatcher, routes_of, register}
use servicegateway.Dispatcher.Build.{Gateway, BuildEnv, dispatcher_for}

abbrev client : Client Expiries
client = record {
  valid_request = λ m u. true;
  do_request = λ r w. (redirect 302 [], w);
  host_of = λ a. "10.0.0.1";
  basic_auth = λ u p. "dTpw";
}

abbrev service : Service Expiries
service = record {
  authenticate = λ u p b. pure (denied invalid_credentials);
  add_token = λ r. pure (ok ("T", pos 9));
  unmarshal_request = λ s. some ("u", "p");
  unmarshal_map = λ s. some [];
  marshal_map = λ o. some "O";
  marshal_response = λ t e. some t;
  format_time = λ e. "E";
}

-- A Redis that is away.
abbrev redis : Redis Expiries
redis = record { write_seconds = λ d. "60"; transaction = λ commands w. (failed, w) }

abbrev resolve : String → Option String
resolve a = some a

-- A server is the routes that it has.
abbrev build_env : BuildEnv Expiries (List (Route Expiries))
unfolding rest_decorator
build_env = record {
  client = client;
  urls = urls;
  json = rewriter_json;
  patterns = record {
    compile = λ s. some any_path;
    replace_parameters = λ s. s;
    find_parameters = λ s. [];
  };
  detect = λ b. "text/plain";
  check_auth_handler = λ c. true;
  rest_auth =
      λ auth listeners. rest_decorator (record rest_env { listeners = listeners }) service auth;
  cache = record { decorate_safe = λ h. h; decorate_unsafe = λ h. h };
  parse_duration = λ s. some (pos 60000000000);
  limiter = rate_limiter redis resolve;
  router = some;
  admin_logger = true;
  admin_server = [];
}

abbrev throttler : Throttler
throttler = record { burst_size = pos 100; window = pos 60000000000 }

abbrev dispatcher : Dispatcher Expiries
unfolding rest_decorator
dispatcher =
    dispatcher_for build_env cfg (rest_decorator rest_env service gateway.authentication) throttler

abbrev mapped : List Mapping
mapped = record { regex = any_path; target_pattern = "/a/:path"; replacements = [] } ∷ []

abbrev all_routes : List (Route Expiries)
unfolding rest_decorator
all_routes = register dispatcher mapped "one" app gateway (routes_of dispatcher app).0 ++ []

abbrev opened : Gateway Expiries (List (Route Expiries))
unfolding rest_decorator
opened = record { routes = all_routes; server = all_routes; admin = [] }

abbrev first_of : List (Route Expiries) → Route Expiries
first_of [] = record { method = ""; path = ""; handler = λ req params. pure [] }
first_of (route ∷ routes) = route

-- The route for `GET` of the application.
abbrev get_route : Route Expiries
unfolding rest_decorator
get_route = first_of all_routes

abbrev get_request : Request
get_request = request "GET" "/a" []
