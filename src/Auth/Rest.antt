-- ===== src/Auth/Rest.antt =====
-- auth/rest.go: which requests reach a backend, and what is sent instead.
pub mod Rewrite
pub mod Access
pub mod Tests
use servicegateway.Prelude.{
  ℕ, String, Bool, true, false, not, ◌&&◌, ◌||◌, List, [], ◌∷◌, ◌++◌, Option, none, some, ◌==◌,
  if◌then◌else◌,
}
use servicegateway.Effects.{Exec, pure, ◌>>=◌}
use servicegateway.Http.{
  Request, Params, Handler, Event, set, write_header, write, lookup, add_all, copy_body,
}
use servicegateway.Http.Recorder.{Recorder, recorded}
use servicegateway.Config.{Application, AuthWriterConfig, Configuration}
use servicegateway.Auth.Types.{JwtResponse, Result, ok, err}
use servicegateway.Auth.Handler.{Verdict, accepted, rejected, broken}
use servicegateway.Auth.Writer.{
  TokenWriter, header_token_writer, authorization_token_writer, write_token_to_request,
}
use Rewrite.{Rewriting, rewrite_access_tokens}

-- The writer that `DecorateHandler` chooses by the application's mode.
unfoldable pub writer_of : AuthWriterConfig → TokenWriter
writer_of w =
    if w.mode == "header"
    then header_token_writer w.name
    else if w.mode == "authorization"
    then authorization_token_writer
    else header_token_writer "X-JWT"

-- `cfg.Applications[appName].Backend.Url`; a missing application has an empty one.
abbrev pub backend_url_of : Option Application → String
backend_url_of none = ""
backend_url_of (some app) = app.backend.url

-- The application is the one that hands out tokens.
unfoldable pub is_provider : Configuration → String → Bool
unfolding lookup
is_provider cfg app_name =
    let provider = cfg.authentication.provider_config in
    let url = backend_url_of (lookup app_name cfg.applications) in
    provider.service == app_name
    || (not (url == "") && (not (provider.url == "") && url == provider.url))

abbrev pub mem : String → List String → Bool
mem x [] = false
mem x (y ∷ ys) = y == x || mem x ys

abbrev pub is_nil : List String → Bool
is_nil [] = true
is_nil (x ∷ xs) = false

-- A token without a list of applications is for all of them.
unfoldable pub is_allowed : JwtResponse → String → Bool
is_allowed token app_name =
    is_nil token.allowed_applications || mem app_name token.allowed_applications

abbrev pub error_events : ℕ → List Event
error_events status =
    set "Content-Type" "application/json;charset=utf8"
    ∷ write_header status
    ∷ write "{\"msg\":\"internal server error\"}"
    ∷ []

abbrev pub invalid_events : List Event
invalid_events =
    set "Content-Type" "application/json"
    ∷ write_header 403
    ∷ write "{\"msg\": \"not authenticated\"}"
    ∷ []

-- What is sent of the recorder.
pub copy_events : Recorder → List Event
copy_events r = add_all r.header ++ (write_header r.code ∷ copy_body r.body)

-- What the decorator calls: `IsAuthenticated`, the listeners in their order, the token store and
-- libraries that the rewriting of tokens uses.
pub record RestEnv (W : Type 0) : Type 0 where
  pub is_authenticated : Request → Exec W Verdict
  pub listeners : List (Request → String → W → W)
  pub rewriting : Rewriting W

module _ {W : Type 0} (env : RestEnv W) where
  abbrev pub notify : List (Request → String → W → W) → Request → String → W → W
  notify [] req jwt w = w
  notify (listener ∷ ls) req jwt w = notify ls req jwt (listener req jwt w)

  -- What `rewriteAccessTokens` leaves to send. The error response is written to the recorder, and
  -- nothing of the recorder is sent.
  abbrev pub after_rewrite : Result Recorder → List Event
  unfolding copy_events
  after_rewrite (ok r) = copy_events r
  after_rewrite (err e) = []

  -- The end, after the handler has run on a recorder.
  pub finish : Bool → Recorder → Exec W (List Event)
  unfolding copy_events
  finish provider recorder =
      let rewritten : Exec W (List Event) =
        rewrite_access_tokens env.rewriting recorder >>= λ r. pure (after_rewrite r) in
      if provider then rewritten else pure (copy_events recorder)

  -- From the label `valid` on, with the token if there is one.
  pub valid :
      Handler W → AuthWriterConfig → Bool → Request → Params → Option String → Exec W (List Event)
  unfolding finish writer_of
  valid orig writer provider req p none w =
      (orig req p >>= λ events. finish provider (recorded env.rewriting.detect events)) w
  valid orig writer provider req p (some jwt) w =
      let req' = write_token_to_request (writer_of writer) jwt req in
      (orig req' p >>= λ events. finish provider (recorded env.rewriting.detect events))
        (notify env.listeners req' jwt w)

  abbrev pub token_of : Verdict → Option String
  token_of (accepted token) = some token.jwt
  token_of rejected = none
  token_of (broken e) = none

  -- The request may go on to the backend.
  abbrev pub may_pass : String → Verdict → Bool
  may_pass app_name (accepted token) = is_allowed token app_name
  may_pass app_name _ = false

  abbrev pub dispatch :
      Handler W → AuthWriterConfig → Bool → Bool → Request → Params → Verdict → Exec W (List Event)
  dispatch orig writer provider passes req p (broken e) = pure (error_events 503)
  dispatch orig writer provider passes req p v =
      let go = valid orig writer provider req p (token_of v) in
      if provider || passes then go else pure invalid_events

  -- The function that `DecorateHandler` returns.
  pub decorate_handler : Handler W → String → Application → Configuration → Handler W
  unfolding is_provider
  decorate_handler orig app_name app cfg req p =
      let authenticated : Exec W (List Event) = env.is_authenticated req >>= λ v.
      dispatch orig app.auth.writer (is_provider cfg app_name) (may_pass app_name v) req p v in
      if req.method == "OPTIONS" then orig req p else authenticated
