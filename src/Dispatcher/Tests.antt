-- ===== src/Dispatcher/Tests.antt =====
-- An application that asks for everything, and its routes.
use servicegateway.Prelude.{String, ◌≡◌, refl, true, false, List, [], ◌∷◌, ◌++◌, some}
use servicegateway.Prelude.Int.{pos}
use servicegateway.Prelude.Lists.{All}
use servicegateway.Effects.{returned, pure, ◌>>=◌}
use servicegateway.Http.{Handler, Route, Event, add, write_header, write}
use servicegateway.Http.Recorder.{recorded, sent}
use servicegateway.Http.Tests.{request}
use servicegateway.Config.{Configuration, RateLimiting, Startup, default_startup}
use servicegateway.Proxy.Rewriter.{Mapping, new_host_rewriter}
use servicegateway.Proxy.Rewriter.Tests.{urls, any_path}
use servicegateway.Proxy.Rewriter.Tests.{json as rewriter_json}
use servicegateway.Proxy.Upstream.Tests.{app, cfg, client}
use servicegateway.Dispatcher.Behaviours.{
  CacheMiddleware, AuthDecorator, RateLimitingMiddleware, build_behaviours,
}
use servicegateway.Dispatcher.Consul.{ConfigJson, Loaded, load}
use servicegateway.Dispatcher.Consul.Keys.{load-rate_limiting}
use servicegateway.Dispatcher.Options.{build_options_handler}
use servicegateway.Dispatcher.Options.Status.{build_options_handler-status}
use servicegateway.Dispatcher.Routes.{Dispatcher, routes_of, register, register_application}
use servicegateway.Dispatcher.Build.{BuildEnv, HttpLogger, Gateway}
use servicegateway.Dispatcher.Routes.Guards.{IsChained, register_application-IsChained}

abbrev limits : RateLimiting
limits = record { burst = pos 100; window = "1m" }

abbrev more : RateLimiting
more = record { burst = pos 500; window = "1m" }

abbrev json : ConfigJson
json = record { unmarshal_rate_limiting = λ s r. some more; unmarshal_application = λ s. some app }

abbrev startup : Startup
startup = record default_startup { consul_base_key = "gateway" }

abbrev before : Loaded
before = record { rate_limiting = limits; applications = [] }

abbrev after : Loaded
after = record { rate_limiting = limits; applications = ("one", app) ∷ [] }

load-rate_limiting_example : after.rate_limiting ≡ before.rate_limiting
unfolding load
load-rate_limiting_example =
    load-rate_limiting json startup
      (("gateway/rate_limiting", "{}") ∷ ("gateway/applications/one", "{}") ∷ []) before after refl

abbrev detect : String → String
detect b = "text/plain"

abbrev refusal : List Event
refusal = write_header 403 ∷ write "no" ∷ []

abbrev refuses : Handler Unit
refuses req params = pure refusal

build_options_handler-status_example :
    (sends : List Event) × (build_options_handler detect true refuses
        (request "OPTIONS" "/a" [])
        []
        tt
      ≡ (returned sends, tt))
    × ((sent sends).code ≡ 200)
unfolding recorded
build_options_handler-status_example =
    build_options_handler-status detect true refuses (request "OPTIONS" "/a" []) [] refusal tt tt
      refl

abbrev gateway : Configuration
gateway = record {
  applications = ("one", app) ∷ [];
  rate_limiting = limits;
  authentication = record {
    mode = "rest";
    provider_config = record {
      url = "";
      parameters = [];
      pre_authentication_hook = "";
      allow_authentication = false;
      authentication_uri = "";
      service = "login";
    };
    verification_key = "k";
    verification_key_url = "";
    key_cache_ttl = "";
    enable_cors = false;
  };
  consul = record { host = "localhost"; port = pos 8500; data_center = "" };
  proxy = cfg;
  redis = record { address = ":6379"; password = ""; database = pos 0 };
  logging = [];
}

-- Middlewares that only mark a response.
abbrev marks : String → Handler Unit → Handler Unit
marks name h req params = h req params >>= λ events. pure (add "X-Passed" name ∷ events)

abbrev cache : CacheMiddleware Unit
cache = record { decorate_safe = marks "cache"; decorate_unsafe = marks "flush" }

abbrev tokens : AuthDecorator Unit
tokens = record {
  decorate = λ h name a c. marks "auth" h;
  routes = record { method = "POST"; path = "/authenticate"; handler = λ r p. pure [] } ∷ [];
}

abbrev limiter : RateLimitingMiddleware Unit
limiter = record { limit = marks "limit" }

abbrev dispatcher : Dispatcher Unit
dispatcher = record {
  client = client;
  urls = urls;
  json = rewriter_json;
  patterns = record {
    compile = λ s. some any_path;
    replace_parameters = λ s. s;
    find_parameters = λ s. [];
  };
  detect = detect;
  proxy = cfg;
  behaviors = build_behaviours cache tokens limiter;
}

abbrev mapped : List Mapping
mapped = record { regex = any_path; target_pattern = "/a/:path"; replacements = [] } ∷ []

register_application-IsChained_example :
    All
      (IsChained dispatcher cache tokens limiter "one" app gateway refl)
      (register dispatcher mapped "one" app gateway (routes_of dispatcher app).0)
unfolding register_application routes_of new_host_rewriter
register_application-IsChained_example =
    register_application-IsChained dispatcher cache tokens limiter "one" app gateway refl
      (register dispatcher mapped "one" app gateway (routes_of dispatcher app).0) refl

-- A server is the routes that it has; one logger listens.
abbrev build_env : BuildEnv Unit (List (Route Unit))
build_env = record {
  client = client;
  urls = urls;
  json = rewriter_json;
  patterns = dispatcher.patterns;
  detect = detect;
  check_auth_handler = λ cfg. true;
  rest_auth = λ cfg listeners. tokens;
  cache = cache;
  parse_duration = λ s. some (pos 60000000000);
  limiter = λ t. limiter;
  router = some;
  admin_logger = true;
  admin_server = [];
}

abbrev loggers : List (HttpLogger Unit (List (Route Unit)))
loggers = record { listener = some (λ req jwt w. w); wrap = some } ∷ []

abbrev pairs : List (String × String)
pairs = ("gateway/applications/two", "{}") ∷ []

abbrev application_routes : String → List (Route Unit)
application_routes name = register dispatcher mapped name app gateway (routes_of dispatcher app).0

abbrev all_routes : List (Route Unit)
all_routes = (application_routes "two" ++ (application_routes "one" ++ [])) ++ (tokens.routes ++ [])

abbrev opened : Gateway Unit (List (Route Unit))
opened = record { routes = all_routes; server = all_routes; admin = [] }
