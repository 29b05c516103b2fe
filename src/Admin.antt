-- ===== src/Admin.antt =====
-- admin/server.go and admin/json.go: the API for tokens. The store of tokens, encoding/json, net/url and
-- the reading of bodies are parameters.
pub mod Listing
pub mod Tokens
mod Tests
use servicegateway.Prelude.{
  String, ◌<>◌, not, List, [], ◌∷◌, Option, none, some, ◌==◌, ◌||◌, if◌then◌else◌,
}
use servicegateway.Prelude.Int.{ℤ, pos, ltb_ℤ}
use servicegateway.Effects.{Exec, pure, ◌>>=◌}
use servicegateway.Http.{Request, Params, Handler, Route, Event, set, write_header, write}
use servicegateway.Http.Header.{get}
use servicegateway.Auth.Types.{JwtResponse, Error, Result, ok, err, StandardClaims}
use servicegateway.Auth.TokenStore.{MappedToken, TokenStore}

-- `TokenJson`
pub record TokenJson : Type 0 where
  pub jwt : String
  pub token : String
  pub href : String

-- What the handlers call: `ioutil.ReadAll`, `VerifyToken`, `Error()`, `json.Encoder.Encode`, which ends
-- its text with a newline, `url.QueryEscape` and `time.Unix(exp, 0).Format(time.RFC3339)`.
pub record AdminEnv (W : Type 0) : Type 0 where
  pub read_body : Request → Option String
  pub verify_token : String → Exec W (Result StandardClaims)
  pub error_text : Error → String
  pub encode : TokenJson → Option String
  pub query_escape : String → String
  pub format_time : ℤ → String

-- `writeError`
abbrev pub write_error : String → List Event
write_error msg = write_header 500 ∷ write ("{\"msg\":\"" <> (msg <> "\"}")) ∷ []

abbrev pub json_type : Event
json_type = set "Content-Type" "application/json"

abbrev pub only_jwt : List Event
only_jwt =
    write_header 415 ∷ write "{\"msg\":\"only 'application/jwt' is allowed as content-type\"}" ∷ []

abbrev pub not_stored : List Event
not_stored = write_header 500 ∷ write "{\"msg\":\"could not store token\"}" ∷ []

-- `bone.GetValue(req, "token")`; "" if it is missing.
abbrev pub token_param : Params → String
token_param [] = ""
token_param ((k, v) ∷ params) = if k == "token" then v else token_param params

module _ {W : Type 0} (env : AdminEnv W) (store : TokenStore W) where
  abbrev pub scheme_of : Request → String
  scheme_of req = if req.url.scheme == "" then "http" else req.url.scheme

  abbrev pub token_json : Request → MappedToken → TokenJson
  token_json req v = record {
    jwt = v.jwt;
    token = v.token;
    href = scheme_of req <> ("://" <> (req.host <> ("/tokens/" <> env.query_escape v.token)));
  }

  abbrev pub encoded : Option String → List Event → List Event
  encoded none rest = write_error "could not encode tokens"
  encoded (some text) rest = write text ∷ rest

  -- The loop over the tokens, and what follows it.
  unfoldable pub list_events : Request → List MappedToken → List Event
  list_events req [] = write "]" ∷ []
  list_events req (v ∷ vs) = encoded (env.encode (token_json req v)) (list_events req vs)

  abbrev pub after_get_all : Request → Result (List MappedToken) → List Event
  unfolding list_events
  after_get_all req (err e) = json_type ∷ write_error "could not load tokens"
  after_get_all req (ok tokens) = json_type ∷ write "[" ∷ list_events req tokens

  -- The handler for `GET /tokens`.
  unfoldable pub get_tokens : Handler W
  unfolding list_events
  get_tokens req params = store.get_all_tokens >>= λ r. pure (after_get_all req r)

  abbrev pub stored : String → ℤ → List Event
  stored token exp =
      if ltb_ℤ (pos 0) exp || ltb_ℤ exp (pos 0)
      then write_header 200
        ∷ write
            ("{\"token\":\"" <> (token <> ("\",\"expires\":\"" <> (env.format_time exp <> "\"}"))))
        ∷ []
      else write_header 200 ∷ write ("{\"token\":\"" <> (token <> "\"}")) ∷ []

  abbrev pub response_for : String → JwtResponse
  response_for jwt = record { jwt = jwt; allowed_applications = [] }

  abbrev pub after_set : String → Result ℤ → List Event
  after_set token (err e) = not_stored
  after_set token (ok exp) = stored token exp

  abbrev pub after_add : Result (String × ℤ) → List Event
  after_add (err e) = not_stored
  after_add (ok (token, exp)) = stored token exp

  abbrev pub invalid : Error → List Event
  invalid e =
      write_header 400
      ∷ write ("{\"msg\":\"invalid token\",\"reason\":\"" <> (env.error_text e <> "\"}"))
      ∷ []

  -- A JWT that verifies is stored.
  abbrev pub after_verify : Exec W (List Event) → Result StandardClaims → Exec W (List Event)
  after_verify storing (err e) = pure (invalid e)
  after_verify storing (ok claims) = storing

  abbrev pub after_read : (String → Exec W (List Event)) → Option String → Exec W (List Event)
  after_read storing none = pure (write_error "could not read request body")
  after_read storing (some jwt) = env.verify_token jwt >>= after_verify (storing jwt)

  -- What `PUT` and `POST` share: the checks of the body's type, of the body and of the JWT.
  unfoldable pub with_jwt : (String → Exec W (List Event)) → Request → Exec W (List Event)
  unfolding get
  with_jwt storing req =
      let reading : Exec W (List Event) = after_read storing (env.read_body req) in
      (if get "Content-Type" req.header == "application/jwt" then reading else pure only_jwt)
      >>= λ events. pure (json_type ∷ events)

  -- The handler for `PUT /tokens/<token>`.
  unfoldable pub put_token : Handler W
  unfolding with_jwt
  put_token req params =
      with_jwt
        (λ jwt. store.set_token (token_param params) (response_for jwt) >>= λ r.
          pure (after_set (token_param params) r))
        req

  -- The handler for `POST /tokens`.
  unfoldable pub post_token : Handler W
  unfolding with_jwt
  post_token req params =
      with_jwt (λ jwt. store.add_token (response_for jwt) >>= λ r. pure (after_add r)) req

  -- `NewAdminServer`
  abbrev pub new_admin_server : List (Route W)
  unfolding get_tokens put_token post_token
  new_admin_server =
      record { method = "GET"; path = "/tokens"; handler = get_tokens }
      ∷ record { method = "PUT"; path = "/tokens/#token^(.*)$"; handler = put_token }
      ∷ record { method = "POST"; path = "/tokens"; handler = post_token }
      ∷ []
