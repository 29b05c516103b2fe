-- ===== src/Auth/Login/Tests.antt =====
-- A provider that grants every log-in, and one that asks for another factor.
use servicegateway.Prelude.{String, ◌<>◌, ◌≡◌, refl, Bool, true, false, List, [], ◌∷◌, none, some}
use servicegateway.Prelude.Int.{ℤ, pos}
use servicegateway.Effects.{returned, pure}
use servicegateway.Http.{lookup}
use servicegateway.Http.Recorder.{sent}
use servicegateway.Http.Tests.{request}
use servicegateway.Config.{GlobalAuth, ProviderAuthConfig}
use servicegateway.Proxy.Json.{str}
use servicegateway.Proxy.Upstream.{Response}
use servicegateway.Auth.Types.{JwtResponse, ok}
use servicegateway.Auth.Login.{
  Object, denied, incomplete, Otto, LoginRequest, LoginEnv, login_request, read_response,
  authenticate,
}
use servicegateway.Auth.Login.Provider.{AskedFor, credentials}
use servicegateway.Auth.Login.Plain.{authenticate-send}
use servicegateway.Auth.Login.Routes.{Service, post_handler}
use servicegateway.Auth.Login.Outcomes.{post_handler-AskedFor}

-- What was sent, the last first.
abbrev World : Type 0
World = List LoginRequest

abbrev otto : Otto World
otto = record {
  Value = Bool;
  run_script = λ w. (false, w);
  exports = λ w. true;
  is_function = λ v. v;
  call_function = λ f u p o w. (some true, w);
  to_boolean = λ v. v;
  is_object = λ v. v;
  get_field = λ k v w. (none, w);
  export_map = λ v. none;
  string_of = λ v. none;
  strings_of = λ v. none;
}

abbrev answer : Response
answer = record { code = 200; header = []; body = "J" }

abbrev login_env : LoginEnv World
login_env = record {
  hook = false;
  otto = otto;
  copy_parameters = some;
  marshal_map = λ o. some "B";
  decode_map = λ s. none;
  valid_url = λ s. true;
  send = λ r w. (some answer, r ∷ w);
}

abbrev provider : ProviderAuthConfig
provider = record {
  url = "http://idp";
  parameters = [];
  pre_authentication_hook = "";
  allow_authentication = true;
  authentication_uri = "";
  service = "";
}

abbrev cfg : GlobalAuth
cfg = record {
  mode = "";
  provider_config = provider;
  verification_key = "";
  verification_key_url = "";
  key_cache_ttl = "";
  enable_cors = true;
}

abbrev service : Service World
unfolding authenticate
service = record {
  authenticate = λ u p b. authenticate login_env u p b provider;
  add_token = λ r. pure (ok ("T", pos 9));
  unmarshal_request = λ s. some ("u", "p");
  unmarshal_map = λ s. some [];
  marshal_map = λ o. some "O";
  marshal_response = λ t e. some (t <> e);
  format_time = λ e. "E";
}

abbrev strict : Service World
strict = record {
  authenticate = λ u p b. pure (denied (incomplete []));
  add_token = λ r. pure (ok ("T", pos 9));
  unmarshal_request = λ s. some ("u", "p");
  unmarshal_map = λ s. some [];
  marshal_map = λ o. some "O";
  marshal_response = λ t e. some t;
  format_time = λ e. "E";
}

authenticate-send_example :
    (authenticate login_env "u" "p" [] provider [] ≡ (
      returned (read_response login_env "u" "p" [] [] answer),
      login_request login_env "u" "p" [] "http://idp/authenticate" "B" ∷ [],
    ))
    × (lookup "password" (credentials login_env "u" "p" [] []) ≡ some (str "p"))
authenticate-send_example =
    authenticate-send login_env "u" "p" [] provider [] "B" "password" answer []
      (login_request login_env "u" "p" [] "http://idp/authenticate" "B" ∷ []) refl refl refl refl
      refl

abbrev asked : World
asked = login_request login_env "u" "p" [] "http://idp/authenticate" "B" ∷ []

post_handler-AskedFor_example :
    (username : String) × (password : String) × (body : Object) × (r : JwtResponse) × (w₁ : World)
    × (token : String) × (exp : ℤ) × (service.unmarshal_request "" ≡ some (username, password))
    × (service.unmarshal_map "" ≡ some body)
    × AskedFor login_env username password body provider r [] w₁
    × (service.add_token r w₁ ≡ (returned (ok (token, exp)), asked))
    × (service.marshal_response token (service.format_time exp) ≡ some "TE")
unfolding sent post_handler authenticate
post_handler-AskedFor_example =
    post_handler-AskedFor service cfg login_env (request "POST" "/authenticate" []) [] _ [] asked
      (λ u p b. refl) refl refl
