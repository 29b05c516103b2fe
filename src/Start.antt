-- ===== src/Start.antt =====
-- The start of the process in main.go, up to the goroutines that Shutdown is about. Files, templates, encoding/json
-- and the clients of Redis and Consul are parameters.
pub mod Servers
pub mod Environment
pub mod Registered
mod Tests
use servicegateway.Prelude.{ℕ, String, Bool, List, [], ◌∷◌, Option, none, some, ◌==◌, if◌then◌else◌}
use servicegateway.Prelude.Int.{ℤ, pos}
use servicegateway.Text.{split_two}
use servicegateway.Effects.{Outcome, returned, panicked, Exec}
use servicegateway.Config.{
  Configuration, DialOption, dial_options, ConsulConfig, build_consul_config, Startup,
  is_consul_config,
}
use servicegateway.Auth.Jwt.{JwtEnv, JwtVerifier, new_jwt_verifier, verify_token}
use servicegateway.Auth.TokenStore.{TokenStore, RedisHashes, Lru, new_token_store}
use servicegateway.Dispatcher.Build.{HttpLogger}
use servicegateway.Httplogging.{LoggerEnv, build_loggers}
use servicegateway.Monitoring.{
  MonitoringEnv, MonitoringController, Goroutine, new_no_integration_monitoring_controller,
  new_consul_integration_monitoring_controller, start,
}

-- How a part of the start ends: with a value, with `logger.Fatal`, which ends the process, or with a panic in `main`,
-- which ends it too.
pub data Boot (A : Type 0) : Type 0 where
  booted : A → Boot A
  fatal : Boot A
  panicking : Boot A

abbrev pub Main : Type 0 → Type 0 → Type 0
Main W A = W → Boot A × W

module _ {W A : Type 0} where
  abbrev pub pure : A → Main W A
  pure a w = (booted a, w)

  -- `if err != nil { logger.Fatal(err) }`
  abbrev pub or_fatal : Option A → Main W A
  or_fatal none w = (fatal, w)
  or_fatal (some a) w = (booted a, w)

  -- `if err != nil { logger.Panic(err) }`
  abbrev pub or_panic : Option A → Main W A
  or_panic none w = (panicking, w)
  or_panic (some a) w = (booted a, w)

  abbrev pub act : (W → A × W) → Main W A
  act f w = let (a, w') = f w in (booted a, w')

  abbrev pub outcome : Outcome A × W → Boot A × W
  outcome (returned a, w) = (booted a, w)
  outcome (panicked, w) = (panicking, w)

  abbrev pub run : Exec W A → Main W A
  run m w = outcome (m w)

infixl 5 ◌>>=◌ ◌>>◌
abbrev pub next : {W A B : Type 0} → Boot A × W → (A → Main W B) → Boot B × W
next (booted a, w) f = f a w
next (fatal, w) f = (fatal, w)
next (panicking, w) f = (panicking, w)

abbrev pub ◌>>=◌ : {W A B : Type 0} → Main W A → (A → Main W B) → Main W B
◌>>=◌ m f w = next (m w) f

abbrev pub ◌>>◌ : {W B : Type 0} → Main W (Unit {0}) → Main W B → Main W B
m >> k = m >>= λ _. k

-- The loop over `os.Environ()`: the last of two entries for one name holds.
abbrev pub add_entry : List (String × String) → String × Option String → List (String × String)
add_entry env (name, none) = env
add_entry env (name, some value) = (name, value) ∷ env

unfoldable pub environment_from : List (String × String) → List String → List (String × String)
unfolding split_two
environment_from env [] = env
environment_from env (entry ∷ entries) =
    environment_from (add_entry env (split_two b'=' entry)) entries

-- `data.Env`
abbrev pub environment : List String → List (String × String)
environment entries = environment_from [] entries

-- What `main` calls: the profile's file and `pprof.StartCPUProfile` (`true` is an error), files, `os.Environ`,
-- html/template, encoding/json, the client of Consul, the parts of packages monitoring and httplogging,
-- `time.ParseDuration`, jwt-go, `lru.New`, and Redis by its address and options.
pub record StartEnv (W Server Template Consul : Type 0) : Type 0 where
  pub create : String → W → Bool × W
  pub start_cpu_profile : W → Bool × W
  pub read_file : String → W → Option String × W
  pub environ : W → List String × W
  pub parse : String → Option Template
  pub execute : Template → List (String × String) → Option String
  pub unmarshal : String → Option Configuration
  pub build_consul_client : ConsulConfig → Option Consul
  pub monitoring : MonitoringEnv W
  pub parse_duration : String → Option ℕ
  pub jwt : JwtEnv W
  pub new_lru : ℤ → Option (Lru W)
  pub redis : String → List DialOption → RedisHashes W
  pub loggers : LoggerEnv W Server

-- The parts that the rest of `main` works with.
pub record Parts (W Server : Type 0) : Type 0 where
  pub config : Configuration
  pub controller : MonitoringController
  pub goroutines : List Goroutine
  pub verifier : JwtVerifier
  pub token_store : TokenStore W
  pub loggers : List (HttpLogger W Server)

module _ {W Server Template Consul : Type 0} (env : StartEnv W Server Template Consul) where
  abbrev pub unless : Bool → Main W (Unit {0})
  unless failed w = (if failed then fatal else booted tt, w)

  -- The profile of the CPU, if one is asked for.
  abbrev pub start_profile : Startup → Main W (Unit {0})
  start_profile startup =
      let profile : Main W (Unit {0}) = (do
        failed ← act (env.create startup.profile_cpu)
        unless failed
        failed ← act env.start_cpu_profile
        unless failed) in
      if startup.profile_cpu == "" then pure tt else profile

  -- The configuration: a template in a file, filled with the environment.
  unfoldable pub read_configuration : Startup → Main W Configuration
  unfolding environment_from
  read_configuration startup = do
    content ← act (env.read_file startup.config_file)
    raw ← or_fatal content
    template ← or_fatal (env.parse raw)
    entries ← act env.environ
    rendered ← or_fatal (env.execute template (environment entries))
    or_fatal (env.unmarshal rendered)

  abbrev pub consul_client : Configuration → Option Consul
  consul_client cfg = env.build_consul_client (build_consul_config cfg.consul)

  -- The choice of the controller.
  abbrev pub new_controller : Startup → Configuration → Main W MonitoringController
  new_controller startup cfg =
      let with_consul : Main W MonitoringController = (do
        client ← or_panic (consul_client cfg)
        controller ← run (
            new_consul_integration_monitoring_controller env.monitoring startup.monitor_address
              startup.monitor_port)
        or_fatal controller) in
      if is_consul_config startup
      then with_consul
      else pure
          (new_no_integration_monitoring_controller startup.monitor_address startup.monitor_port)

  abbrev pub store_for : Configuration → JwtVerifier → Option (TokenStore W)
  unfolding new_token_store verify_token
  store_for cfg verifier =
      new_token_store env.new_lru (env.redis cfg.redis.address (dial_options cfg.redis))
        (verify_token env.jwt verifier.config verifier.cache_ttl) (pos 0)

  -- `main` from the reading of the configuration on; each part in its order.
  unfoldable pub prepare : Startup → Main W (Parts W Server)
  unfolding read_configuration start new_token_store verify_token build_loggers
  prepare startup = do
    start_profile startup
    cfg ← read_configuration startup
    controller ← new_controller startup cfg
    started ← run (start env.monitoring controller)
    goroutines ← or_fatal started
    verifier ← or_panic (new_jwt_verifier env.parse_duration cfg.authentication)
    token_store ← or_panic (store_for cfg verifier)
    loggers ← or_panic (build_loggers env.loggers cfg.logging)
    pure (record {
      config = cfg;
      controller = controller;
      goroutines = goroutines;
      verifier = verifier;
      token_store = token_store;
      loggers = loggers;
    })
