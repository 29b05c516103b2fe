-- ===== src/Auth/Rest/Tests.antt =====
-- An application, a provider of tokens, and responses that carry JWTs.
use servicegateway.Prelude.{String, ◌≡◌, refl, ◌⊎◌, false, List, [], ◌∷◌, some}
use servicegateway.Prelude.Int.{ℤ, pos}
use servicegateway.Effects.{returned, pure}
use servicegateway.Http.{Request, Handler, Event, add, write_header, write, lookup}
use servicegateway.Http.Header.{get}
use servicegateway.Http.Recorder.{recorded, sent}
use servicegateway.Http.Tests.{request}
use servicegateway.Config.{Configuration}
use servicegateway.Proxy.Upstream.Tests.{app, cfg}
use servicegateway.Proxy.Json.{num}
use servicegateway.Auth.Types.{JwtResponse, Result, ok, err, plain}
use servicegateway.Auth.Handler.{accepted, is_authenticated}
use servicegateway.Auth.Handler.Expiry.{IsLive}
use servicegateway.Auth.Handler.Tests.{
  Expiries, view, token, handler_env, Signed, clock, handler_env-IsSoundEnv, none-IsSound,
}
use servicegateway.Auth.Rest.{RestEnv, writer_of, is_provider, is_allowed}
use servicegateway.Auth.Rest.Access.{
  decorated, PassedOn, Refused, forwarded, access_control, delivered,
}
use servicegateway.Auth.Rest.Rewrite.{Rewriting}

abbrev pub gateway : Configuration
gateway = record {
  applications = ("one", app) ∷ [];
  rate_limiting = record { burst = pos 100; window = "1m" };
  authentication = record {
    mode = "rest";
    provider_config = record {
      url = "";
      parameters = [];
      pre_authentication_hook = "";
      allow_authentication = false;
      authentication_uri = "";
      service = "login";
    };
    verification_key = "k";
    verification_key_url = "";
    key_cache_ttl = "";
    enable_cors = false;
  };
  consul = record { host = "localhost"; port = pos 8500; data_center = "" };
  proxy = cfg;
  redis = record { address = ":6379"; password = ""; database = pos 0 };
  logging = [];
}

-- The store makes up the token "T", or fails.
abbrev rewriting : Result (String × ℤ) → Rewriting Expiries
rewriting r = record {
  add_token = λ jwt. pure r;
  unmarshal_map = λ s. some (("size", num "3") ∷ []);
  marshal_map = λ m. some "{}";
  parse_cookies = λ h. [];
  print_cookie = λ c. c.name;
  detect = λ b. "text/plain";
}

abbrev pub rest_env : RestEnv Expiries
rest_env = record {
  is_authenticated = is_authenticated (handler_env (pos 10));
  listeners = [];
  rewriting = rewriting (ok ("T", pos 10));
}

abbrev trusting_env : RestEnv Expiries
trusting_env = record {
  is_authenticated = λ req. pure (accepted token);
  listeners = [];
  rewriting = rewriting (err (plain "redis"));
}

abbrev login_answer : List Event
login_answer =
    add "X-Gateway-HeaderToken" "X-Jwt" ∷ add "X-Jwt" "J" ∷ write_header 201 ∷ write "x" ∷ []

abbrev backend : Handler Expiries
backend req params = pure login_answer

abbrev get_request : Request
get_request = request "GET" "/a" []

access_control_example :
    ((t : JwtResponse) × (e : ℤ) × Signed t.jwt e
      × IsLive e 5
      × PassedOn rest_env backend "one" app gateway get_request [] [] t)
    ⊎ Refused rest_env backend "one" app gateway get_request [] []
unfolding is_provider lookup
access_control_example =
    access_control rest_env backend "one" app gateway get_request [] [] (handler_env (pos 10)) view
      Signed clock handler_env-IsSoundEnv refl none-IsSound refl refl

delivered_example :
    (get "X-Token" (forwarded trusting_env backend "one" app gateway get_request [] [] token).header
      ≡ "J")
    × (sends : List Event) × (decorated trusting_env backend "one" app gateway get_request [] []
        ≡ (returned sends, []))
    × ((sent sends).code ≡ 201)
    × ((sent sends).body ≡ "x")
unfolding is_provider lookup writer_of recorded is_allowed
delivered_example =
    delivered trusting_env backend "one" app gateway get_request [] [] token login_answer [] [] refl
      refl refl refl refl
