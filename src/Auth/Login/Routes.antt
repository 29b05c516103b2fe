-- ===== src/Auth/Login/Routes.antt =====
-- `RegisterRoutes` of auth/rest.go: the routes for the log-in.
use servicegateway.Prelude.{String, List, [], ◌∷◌, ◌++◌, Option, none, some, ◌==◌, if◌then◌else◌}
use servicegateway.Prelude.Int.{ℤ}
use servicegateway.Effects.{Exec, pure, ◌>>=◌}
use servicegateway.Http.{Handler, Route, Event, set, write_header, write}
use servicegateway.Config.{GlobalAuth}
use servicegateway.Auth.Types.{JwtResponse, Result, ok, err}
use servicegateway.Auth.Rest.{error_events}
use servicegateway.Auth.Login.{
  Object, invalid_credentials, incomplete, bad_content_type, failure, Login, granted, denied,
}

-- What the routes call: `Authenticate`, `AddToken`, encoding/json on the two types of the body and on
-- the answer (a token and a time), and `time.Unix(exp, 0).Format(time.RFC3339)`.
pub record Service (W : Type 0) : Type 0 where
  pub authenticate : String → String → Object → Exec W Login
  pub add_token : JwtResponse → Exec W (Result (String × ℤ))
  pub unmarshal_request : String → Option (String × String)
  pub unmarshal_map : String → Option Object
  pub marshal_map : Object → Option String
  pub marshal_response : String → String → Option String
  pub format_time : ℤ → String

-- `setCORSHeaders`
abbrev pub set_cors_headers : List Event
set_cors_headers =
    set "Access-Control-Allow-Methods" "POST, OPTIONS"
    ∷ set "Access-Control-Allow-Headers" "X-Requested-With, Authorization, Content-Type"
    ∷ set "Access-Control-Allow-Origin" "*"
    ∷ set "Access-Control-Allow-Credentials" "true"
    ∷ []

abbrev pub json_type : Event
json_type = set "Content-Type" "application/json;charset=utf8"

module _ {W : Type 0} (service : Service W) (cfg : GlobalAuth) where
  -- `handleIncompleteAuthentication`, and what its error leads to.
  abbrev pub incomplete_events : Option String → List Event
  incomplete_events none = json_type ∷ write_header 202 ∷ error_events 500
  incomplete_events (some text) = json_type ∷ write_header 202 ∷ write text ∷ []

  abbrev pub response_events : Option String → List Event
  response_events none = error_events 500
  response_events (some text) = json_type ∷ write text ∷ []

  abbrev pub after_add : Result (String × ℤ) → List Event
  after_add (err e) = error_events 500
  after_add (ok (token, exp)) =
      response_events (service.marshal_response token (service.format_time exp))

  -- What follows `Authenticate`.
  unfoldable pub after_login : Login → Exec W (List Event)
  after_login (granted response) = service.add_token response >>= λ r. pure (after_add r)
  after_login (denied invalid_credentials) =
      pure (json_type ∷ write_header 403 ∷ write "{\"msg\":\"invalid credentials\"}" ∷ [])
  after_login (denied (incomplete more)) = pure (incomplete_events (service.marshal_map more))
  after_login (denied (bad_content_type text)) = pure (error_events 500)
  after_login (denied (failure text)) = pure (error_events 500)

  abbrev pub with_body : Option (String × String) → Option Object → Exec W (List Event)
  unfolding after_login
  with_body none body = pure (error_events 500)
  with_body (some (username, password)) none = pure (error_events 500)
  with_body (some (username, password)) (some body) =
      service.authenticate username password body >>= after_login

  abbrev pub cors_events : List Event
  cors_events = if cfg.enable_cors then set_cors_headers else []

  -- The handler for `POST`.
  unfoldable pub post_handler : Handler W
  unfolding after_login
  post_handler req params =
      with_body (service.unmarshal_request req.body) (service.unmarshal_map req.body) >>= λ events.
      pure (cors_events ++ events)

  -- The handler for `OPTIONS`.
  abbrev pub options_handler : Handler W
  options_handler req params = pure (set_cors_headers ++ write_header 200 ∷ [])

  -- `AuthenticationUri`, or its default.
  abbrev pub uri : String
  uri =
      if cfg.provider_config.authentication_uri == ""
      then "/authenticate"
      else cfg.provider_config.authentication_uri

  -- `RegisterRoutes`
  abbrev pub register_routes : List (Route W)
  unfolding post_handler
  register_routes =
      let post : List (Route W) =
        record { method = "POST"; path = uri; handler = post_handler } ∷ [] in
      let options : List (Route W) =
        record { method = "OPTIONS"; path = uri; handler = options_handler } ∷ [] in
      if cfg.provider_config.allow_authentication
      then if cfg.enable_cors then options ++ post else post
      else []
