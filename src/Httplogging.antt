-- ===== src/Httplogging.antt =====
-- The package httplogging: the loggers that a gateway is built with, and buildLoggers of main.go. The AMQP
-- client, the verification of tokens, encoding/json, the clock and files are parameters.
pub mod Connection
pub mod Exchange
mod Tests
use servicegateway.Prelude.{
  ℕ, String, ◌<>◌, Bool, true, ◌||◌, List, [], ◌∷◌, Option, none, some, ◌==◌, if◌then◌else◌,
}
use servicegateway.Http.{Request, Url, lookup}
use servicegateway.Config.{LoggingConfiguration}
use servicegateway.Proxy.Json.{Json, str}
use servicegateway.Dispatcher.Build.{Listener, HttpLogger}

-- `AuditLogAuth`
pub record AuditLogAuth : Type 0 where
  pub sub : String
  pub sudo : String
  pub ip : String

-- `AuditLogMessage`
pub record AuditLogMessage : Type 0 where
  pub auth : AuditLogAuth
  pub action : String
  pub timestamp : ℕ
  pub details : List (String × String)

-- `amqp.Publishing`, as far as it is not constant.
pub record Publishing : Type 0 where
  pub timestamp : ℕ
  pub body : String

-- What `OnAuthenticatedRequest` calls: the claims that `VerifyToken` returns, which are none with an error,
-- `strings.ToLower`, `URL.String`, `time.Now`, `json.Marshal` and `Publish` of the channel in use, by exchange
-- and key.
pub record AmqpEnv (W : Type 0) : Type 0 where
  pub map_claims : String → W → List (String × Json) × W
  pub to_lower : String → String
  pub url_string : Url → String
  pub now : W → ℕ × W
  pub marshal : AuditLogMessage → String
  pub publish : String → String → Publishing → W → W

-- `match`
unfoldable pub matches : Bool → Request → Bool
matches only_unsafe req =
    if only_unsafe
    then req.method == "POST"
      || (req.method == "PATCH" || (req.method == "PUT" || req.method == "DELETE"))
    else true

-- `claims[name].(string)`; "" for a claim that is missing or not a text.
abbrev pub text_of : Option Json → String
text_of (some (str s)) = s
text_of _ = ""

abbrev pub claim : String → List (String × Json) → String
unfolding lookup
claim name claims = text_of (lookup name claims)

-- `AmqpLoggingBehaviour`: what it copies of its configuration, and what the pointer to it shows.
pub record AmqpLogger : Type 0 where
  pub only_unsafe : Bool
  pub config : LoggingConfiguration

module _ {W : Type 0} (env : AmqpEnv W) (logger : AmqpLogger) where
  -- The entry of a request.
  abbrev pub entry : Request → List (String × Json) → ℕ → AuditLogMessage
  unfolding lookup
  entry req claims now = record {
    auth = record { sub = claim "sub" claims; sudo = claim "sudo" claims; ip = req.remote_addr };
    action = "api.request." <> env.to_lower req.method;
    timestamp = now;
    details = ("url", env.url_string req.url) ∷ [];
  }

  -- What the goroutine of `OnAuthenticatedRequest` does.
  unfoldable pub log_request : Listener W
  unfolding lookup
  log_request req jwt w =
      let (claims, w₁) = env.map_claims jwt w in
      let (then_now, w₂) = env.now w₁ in
      let body = env.marshal (entry req claims then_now) in
      let (later, w₃) = env.now w₂ in
      env.publish logger.config.exchange ("api.request." <> env.to_lower req.method)
        (record { timestamp = later; body = body }) w₃

  -- `OnAuthenticatedRequest`
  unfoldable pub on_authenticated_request : Listener W
  unfolding matches log_request
  on_authenticated_request req jwt w =
      let logged = log_request req jwt w in if matches logger.only_unsafe req then logged else w

-- What the loggers are made with: `connect` of an AMQP logger succeeds or not, and `Wrap` of an Apache
-- logger opens its file and wraps the server.
pub record LoggerEnv (W Server : Type 0) : Type 0 where
  pub amqp : LoggingConfiguration → AmqpEnv W
  pub connects : LoggingConfiguration → Bool
  pub combined : String → Server → Option Server
  pub get_logger : String → Bool

module _ {W Server : Type 0} (env : LoggerEnv W Server) where
  -- `LoggerFromConfig`; `shown` is what the pointer to the configuration shows when requests come.
  unfoldable pub logger_from_config :
      LoggingConfiguration → LoggingConfiguration → Option (HttpLogger W Server)
  unfolding on_authenticated_request
  logger_from_config shown cfg =
      let logger : AmqpLogger = record { only_unsafe = cfg.unsafe_only; config = shown } in
      let amqp : HttpLogger W Server = record {
        listener = some (on_authenticated_request (env.amqp cfg) logger);
        wrap = λ server. some server;
      } in
      let apache : HttpLogger W Server = record {
        listener = none;
        wrap = env.combined cfg.filename;
      } in
      if cfg.type == "amqp"
      then if env.connects cfg then some amqp else none
      else if cfg.type == "apache"
      then some apache
      else none

  abbrev pub or_stop : {A B : Type 0} → Option A → (A → Option B) → Option B
  or_stop none f = none
  or_stop (some a) f = f a

  -- The loop of `buildLoggers`.
  unfoldable pub build_each :
      LoggingConfiguration → List LoggingConfiguration → Option (List (HttpLogger W Server))
  unfolding logger_from_config
  build_each shown [] = some []
  build_each shown (cfg ∷ cfgs) =
      let rest = build_each shown cfgs in
      if env.get_logger ("logger-" <> cfg.type)
      then or_stop (logger_from_config shown cfg)
          (λ logger. or_stop rest (λ loggers. some (logger ∷ loggers)))
      else none

  -- What the variable of the loop holds in the end.
  abbrev pub last_of : LoggingConfiguration → List LoggingConfiguration → LoggingConfiguration
  last_of cfg [] = cfg
  last_of cfg (next ∷ cfgs) = last_of next cfgs

  -- `buildLoggers`. The loop has one variable, as go.mod asks for Go 1.21, and gives a pointer to it to
  -- every logger.
  unfoldable pub build_loggers : List LoggingConfiguration → Option (List (HttpLogger W Server))
  unfolding build_each
  build_loggers [] = some []
  build_loggers (cfg ∷ cfgs) = build_each (last_of cfg cfgs) (cfg ∷ cfgs)
