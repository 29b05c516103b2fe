-- ===== src/Auth/Login.antt =====
-- `Authenticate` of auth/handler.go: the log-in at the provider of tokens. The JavaScript engine of
-- the pre-authentication hook, encoding/json and the HTTP client are parameters.
pub mod Provider
pub mod Plain
pub mod Routes
pub mod Replies
pub mod Outcomes
pub mod Denials
pub mod Hook
mod Tests
use servicegateway.Prelude.{
  String, ◌<>◌, Bool, true, false, not, List, [], ◌∷◌, Option, none, some, ◌==◌, eqb, leb,
  if◌then◌else◌,
}
use servicegateway.Text.{has_prefix}
use servicegateway.Effects.{Exec, pure, call, ◌>>=◌}
use servicegateway.Http.Header.{HeaderMap, get, set}
use servicegateway.Config.{ProviderAuthConfig}
use servicegateway.Proxy.Json.{Json, str}
use servicegateway.Proxy.Upstream.{Response}
use servicegateway.Auth.Types.{JwtResponse}

-- A `map[string]interface{}`.
abbrev pub Object : Type 0
Object = List (String × Json)

-- The errors that callers of `Authenticate` tell apart: `InvalidCredentialsError`, an
-- `*AuthenticationIncompleteError` with its properties, an `InvalidResponseBodyContentTypeError`, and
-- all others, by their text.
pub data LoginError : Type 0 where
  invalid_credentials : LoginError
  incomplete : Object → LoginError
  bad_content_type : String → LoginError
  failure : String → LoginError

-- The results of `Authenticate`.
pub data Login : Type 0 where
  granted : JwtResponse → Login
  denied : LoginError → Login

-- otto: the run of the hook's script (`true` for an error), what it leaves as `exports`, and values.
-- `export_map` is the exported object, its fields exported too; `strings_of` is the value of an array
-- that is exported as `[]string`.
pub record Otto (W : Type 0) : Type 1 where
  pub Value : Type 0
  pub run_script : W → Bool × W
  pub exports : W → Value
  pub is_function : Value → Bool
  pub call_function : Value → String → String → Object → W → Option Value × W
  pub to_boolean : Value → Bool
  pub is_object : Value → Bool
  pub get_field : String → Value → W → Option Value × W
  pub export_map : Value → Option Object
  pub string_of : Value → Option String
  pub strings_of : Value → Option (List String)

-- The request to the provider.
pub record LoginRequest : Type 0 where
  pub url : String
  pub header : HeaderMap
  pub body : String

-- What `Authenticate` calls. `hook` says that a hook is configured.
pub record LoginEnv (W : Type 0) : Type 1 where
  pub hook : Bool
  pub otto : Otto W
  pub copy_parameters : Object → Option Object
  pub marshal_map : Object → Option String
  pub decode_map : String → Option Object
  pub valid_url : String → Bool
  pub send : LoginRequest → W → Option Response × W

-- What is known before the request is sent.
pub record Prepared : Type 0 where
  pub request : Object
  pub url : String
  pub allowed_applications : List String

pub data Hooked : Type 0 where
  prepared : Prepared → Hooked
  stopped : LoginError → Hooked

-- `m[k] = v`
unfoldable pub put_value : String → Json → Object → Object
put_value key v [] = (key, v) ∷ []
put_value key v ((k, old) ∷ m) =
    let rest = put_value key v m in if k == key then (k, v) ∷ m else (k, old) ∷ rest

abbrev pub or_else {ℓ} : {A : Type ℓ} → Option A → A → A
or_else none d = d
or_else (some a) d = a

abbrev pub stop : {W : Type 0} → String → Exec W Hooked
stop text = pure (stopped (failure text))

module _ {W : Type 0} (env : LoginEnv W) (username password : String) (properties : Object) where
  -- The last field of the hook's result; an array of anything but texts is passed over.
  abbrev pub with_applications : Object → String → Option env.otto.Value → Exec W Hooked
  with_applications request url none = stop "allowedApplications"
  with_applications request url (some v) = pure (
      prepared (record {
        request = request;
        url = url;
        allowed_applications = or_else (env.otto.strings_of v) [];
      }))

  abbrev pub with_url : env.otto.Value → String → Object → Option env.otto.Value → Exec W Hooked
  with_url result url request none = stop "url"
  with_url result url request (some v) =
      call (env.otto.get_field "allowedApplications" result)
      >>= with_applications request (or_else (env.otto.string_of v) url)

  abbrev pub with_body : env.otto.Value → String → Object → Option env.otto.Value → Exec W Hooked
  with_body result url request none = stop "body"
  with_body result url request (some v) =
      call (env.otto.get_field "url" result)
      >>= with_url result url (or_else (env.otto.export_map v) request)

  -- What is done with the result of the hook's function.
  abbrev pub after_call : String → Object → Option env.otto.Value → Exec W Hooked
  after_call url request none = stop "error while calling hook function"
  after_call url request (some result) =
      let read : Exec W Hooked =
        call (env.otto.get_field "body" result) >>= with_body result url request in
      if not (env.otto.to_boolean result)
      then pure (stopped invalid_credentials)
      else if not (env.otto.is_object result)
      then stop "hook function must return object"
      else read

  abbrev pub after_script : String → Object → Bool → Exec W Hooked
  after_script url request true w = stop "script" w
  after_script url request false w =
      let function = env.otto.exports w in
      let run : Exec W Hooked =
        call (env.otto.call_function function username password properties)
        >>= after_call url request in
      (if env.otto.is_function function then run else stop "hook script must export a function!") w

  -- The part of `Authenticate` for the hook.
  pub run_hook : String → Object → Exec W Hooked
  run_hook url request =
      let hooked : Exec W Hooked = call env.otto.run_script >>= after_script url request in
      if env.hook
      then hooked
      else pure (prepared (record { request = request; url = url; allowed_applications = [] }))

  -- The answer 202: another factor is needed.
  abbrev pub ask_more : Response → Login
  unfolding get has_prefix
  ask_more r =
      let content_type = get "Content-Type" r.header in
      if not (has_prefix content_type "application/json")
      then denied (bad_content_type content_type)
      else elim (env.decode_map r.body) [
        | none ↦ denied (failure "json")
        | some more ↦ denied (incomplete more)
      ]

  -- What the provider's answer means.
  pub read_response : List String → Response → Login
  unfolding get has_prefix
  read_response applications r =
      if leb 400 r.code
      then if eqb r.code 403
        then denied invalid_credentials
        else denied (failure "unexpected status code")
      else if eqb r.code 202
      then ask_more r
      else granted (record { jwt = r.body; allowed_applications = applications })

  abbrev pub login_request : String → String → LoginRequest
  unfolding set
  login_request url body = record {
    url = url;
    header = set "Content-Type" "application/json" (set "Accept" "application/jwt" []);
    body = body;
  }

  abbrev pub after_send : List String → Option Response → Exec W Login
  unfolding read_response
  after_send applications none = pure (denied (failure "http"))
  after_send applications (some r) = pure (read_response applications r)

  abbrev pub send_body : Prepared → Option String → Exec W Login
  unfolding read_response
  send_body p none = pure (denied (failure "json"))
  send_body p (some body) =
      let sent : Exec W Login =
        call (env.send (login_request p.url body)) >>= after_send p.allowed_applications in
      if env.valid_url p.url then sent else pure (denied (failure "url"))

  -- The request to the provider, if the hook has let it through.
  pub send_login : Hooked → Exec W Login
  unfolding read_response
  send_login (stopped e) = pure (denied e)
  send_login (prepared p) = send_body p (env.marshal_map p.request)

  abbrev pub with_parameters : ProviderAuthConfig → Option Object → Exec W Login
  unfolding run_hook send_login put_value
  with_parameters cfg none = pure (denied (failure "failed to copy default parameters!"))
  with_parameters cfg (some parameters) =
      run_hook (cfg.url <> "/authenticate")
        (put_value "password" (str password) (put_value "username" (str username) parameters))
      >>= send_login

  -- `Authenticate`
  pub authenticate : ProviderAuthConfig → Exec W Login
  unfolding run_hook send_login put_value
  authenticate cfg = with_parameters cfg (env.copy_parameters cfg.parameters)
