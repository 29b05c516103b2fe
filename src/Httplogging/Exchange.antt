-- ===== src/Httplogging/Exchange.antt =====
-- Where the AMQP loggers of buildLoggers (main.go) publish.
use servicegateway.Prelude.{
  String, ◌<>◌, ◌≡◌, refl, subst, ◌⊎◌, inl, inr, Bool, List, [], ◌∷◌, Option, none, some, ◌==◌,
  Bool-cases,
}
use servicegateway.Prelude.Lists.{All}
use servicegateway.Http.{Request}
use servicegateway.Config.{LoggingConfiguration}
use servicegateway.Dispatcher.Build.{Listener, HttpLogger}
use servicegateway.Httplogging.{
  Publishing, matches, log_request, on_authenticated_request, LoggerEnv, logger_from_config,
  or_stop, build_each, last_of, build_loggers,
}

module _ {W Server : Type 0} (env : LoggerEnv W Server) where
  -- On a request the listener does nothing, or its last step is to publish one message to the exchange.
  abbrev pub PublishesTo : String → Listener W → Type 0
  PublishesTo exchange listener =
      (req : Request) (jwt : String) (w : W)
      → (listener req jwt w ≡ w)
        ⊎ ((cfg : LoggingConfiguration) × (key : String) × (message : Publishing) × (w₀ : W)
            × (listener req jwt w ≡ (env.amqp cfg).publish exchange key message w₀))

  abbrev IsAt : String → Option (Listener W) → Type 0
  IsAt exchange none = Unit
  IsAt exchange (some listener) = PublishesTo exchange listener

  -- A logger that listens publishes to the exchange.
  abbrev pub IsLoggerAt : String → HttpLogger W Server → Type 0
  IsLoggerAt exchange logger = IsAt exchange logger.listener

  on_authenticated_request-PublishesTo :
      (cfg shown : LoggingConfiguration) (only : Bool)
      → PublishesTo shown.exchange
          (on_authenticated_request (env.amqp cfg) (record { only_unsafe = only; config = shown }))
  unfolding on_authenticated_request log_request
  on_authenticated_request-PublishesTo cfg shown only req jwt w =
      elim (Bool-cases (matches only req)) [
        | inl yes_it_does ↦ rw yes_it_does (inr (cfg, _, _, _, refl))
        | inr no_match ↦ rw no_match (inl refl)
      ]

  abbrev IfMade : {A : Type 0} → (A → Type 0) → Option A → Type 0
  IfMade P none = Unit
  IfMade P (some a) = P a

  logger_from_config-IfMade :
      (shown cfg : LoggingConfiguration)
      → IfMade (IsLoggerAt shown.exchange) (logger_from_config env shown cfg)
  unfolding logger_from_config
  logger_from_config-IfMade shown cfg = elim (Bool-cases (cfg.type == "amqp")) [
    | inl amqp ↦ elim (Bool-cases (env.connects cfg)) [
      | inl up ↦ rw (amqp, up) (on_authenticated_request-PublishesTo cfg shown cfg.unsafe_only)
      | inr down ↦ rw (amqp, down) tt
    ]
    | inr other ↦ elim (Bool-cases (cfg.type == "apache")) [
      | inl apache ↦ rw (other, apache) tt
      | inr unknown ↦ rw (other, unknown) tt
    ]
  ]

  or_stop-IfMade :
      {A B : Type 0} (P : A → Type 0) (Q : B → Type 0) (o : Option A) (f : A → Option B)
      → IfMade P o
      → ((a : A) → P a → IfMade Q (f a))
      → IfMade Q (or_stop env o f)
  or_stop-IfMade P Q none f p next = tt
  or_stop-IfMade P Q (some a) f p next = next a p

  build_each-IfMade :
      (shown : LoggingConfiguration) (cfgs : List LoggingConfiguration)
      → IfMade (All (IsLoggerAt shown.exchange)) (build_each env shown cfgs)
  unfolding build_each
  build_each-IfMade shown [] = tt
  build_each-IfMade shown (cfg ∷ cfgs) =
      elim (Bool-cases (env.get_logger ("logger-" <> cfg.type))) [
        | inl there ↦ rw there (
            or_stop-IfMade (IsLoggerAt shown.exchange) (All (IsLoggerAt shown.exchange))
              (logger_from_config env shown cfg)
              (λ logger.
                or_stop env (build_each env shown cfgs) (λ loggers. some (logger ∷ loggers)))
              (logger_from_config-IfMade shown cfg)
              (λ logger first.
                or_stop-IfMade (All (IsLoggerAt shown.exchange)) (All (IsLoggerAt shown.exchange))
                  (build_each env shown cfgs) (λ loggers. some (logger ∷ loggers))
                  (build_each-IfMade shown cfgs) (λ loggers rest. (first, rest))))
        | inr missing ↦ rw missing tt
      ]

  -- `buildLoggers` succeeds for at least one configuration. Then every logger that listens to requests publishes
  -- to the exchange of the last configuration, whatever exchange is its own: on a request it does nothing, or
  -- its last step is to publish one message there.
  pub build_loggers-IsLoggerAt :
      (cfg : LoggingConfiguration) (cfgs : List LoggingConfiguration)
      (loggers : List (HttpLogger W Server))
      → build_loggers env (cfg ∷ cfgs) ≡ some loggers
      → All (IsLoggerAt (last_of env cfg cfgs).exchange) loggers
  unfolding build_loggers
  build_loggers-IsLoggerAt cfg cfgs loggers made =
      subst (IfMade (All (IsLoggerAt (last_of env cfg cfgs).exchange))) made
        (build_each-IfMade (last_of env cfg cfgs) (cfg ∷ cfgs))
