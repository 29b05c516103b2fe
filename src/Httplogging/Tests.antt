-- ===== src/Httplogging/Tests.antt =====
-- Two AMQP loggers with exchanges of their own.
use servicegateway.Prelude.{String, ◌≡◌, refl, true, List, [], ◌∷◌, some}
use servicegateway.Prelude.Lists.{All}
use servicegateway.Http.Tests.{request}
use servicegateway.Config.{LoggingConfiguration}
use servicegateway.Dispatcher.Build.{HttpLogger}
use servicegateway.Httplogging.{AmqpEnv, LoggerEnv, on_authenticated_request, build_loggers}
use servicegateway.Httplogging.Exchange.{IsLoggerAt, build_loggers-IsLoggerAt}

-- The exchanges that got a message, the last first.
abbrev Exchanges : Type 0
Exchanges = List String

abbrev amqp_env : AmqpEnv Exchanges
amqp_env = record {
  map_claims = λ jwt w. ([], w);
  to_lower = λ s. s;
  url_string = λ u. u.path;
  now = λ w. (0, w);
  marshal = λ m. m.action;
  publish = λ exchange key message w. exchange ∷ w;
}

abbrev logger_env : LoggerEnv Exchanges String
logger_env = record {
  amqp = λ cfg. amqp_env;
  connects = λ cfg. true;
  combined = λ file server. some server;
  get_logger = λ name. true;
}

abbrev audit : String → LoggingConfiguration
audit exchange = record {
  type = "amqp";
  uri = "amqp://mq";
  exchange = exchange;
  unsafe_only = true;
  filename = "";
}

abbrev logger_for : String → HttpLogger Exchanges String
unfolding on_authenticated_request
logger_for exchange = record {
  listener =
      some (
        on_authenticated_request amqp_env (record { only_unsafe = true; config = audit exchange }));
  wrap = λ server. some server;
}

-- Only requests that change something are logged.
safe_request :
    on_authenticated_request amqp_env
      (record { only_unsafe = true; config = audit "a" })
      (request "GET" "/" [])
      "J"
      []
    ≡ []
unfolding on_authenticated_request
safe_request = refl

build_loggers-IsLoggerAt_example :
    All (IsLoggerAt logger_env "b") (logger_for "b" ∷ logger_for "b" ∷ [])
unfolding build_loggers
build_loggers-IsLoggerAt_example =
    build_loggers-IsLoggerAt logger_env (audit "a") (audit "b" ∷ [])
      (logger_for "b" ∷ logger_for "b" ∷ []) refl
