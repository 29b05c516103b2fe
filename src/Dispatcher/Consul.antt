-- ===== src/Dispatcher/Consul.antt =====
-- The loop of `BuildConsulDispatcher` over the pairs of Consul's key-value store.
pub mod Keys
use servicegateway.Prelude.{String, ◌<>◌, List, [], ◌∷◌, Option, none, some, ◌==◌, if◌then◌else◌}
use servicegateway.Text.{trim_prefix, has_prefix}
use servicegateway.Config.{Application, RateLimiting, Startup}

-- `json.Unmarshal` over the values that are there, and into a new `config.Application`; `none` is an
-- error.
pub record ConfigJson : Type 0 where
  pub unmarshal_rate_limiting : String → RateLimiting → Option RateLimiting
  pub unmarshal_application : String → Option Application

-- `localCfg.RateLimiting` and `appCfgs`.
pub record Loaded : Type 0 where
  pub rate_limiting : RateLimiting
  pub applications : List (String × Application)

abbrev pub put_application :
    String → Application → List (String × Application) → List (String × Application)
put_application k v [] = (k, v) ∷ []
put_application k v ((j, u) ∷ m) =
    let rest = put_application k v m in if j == k then (k, v) ∷ m else (j, u) ∷ rest

module _ (json : ConfigJson) (startup : Startup) where
  abbrev pub with_rate_limiting : Loaded → Option RateLimiting → Option Loaded
  with_rate_limiting l none = none
  with_rate_limiting l (some r) = some (record l { rate_limiting = r })

  -- The `switch`. The arguments of `TrimPrefix` stand in the order of the source: the key is trimmed
  -- off the base.
  unfoldable pub load_setting : String → String → Loaded → Option Loaded
  unfolding trim_prefix
  load_setting key value l =
      if trim_prefix (startup.consul_base_key <> "/") key == "rate_limiting"
      then with_rate_limiting l (json.unmarshal_rate_limiting value l.rate_limiting)
      else some l

  abbrev pub with_application : String → Option Application → Loaded → Option Loaded
  with_application name none l = none
  with_application name (some app) l =
      some (record l { applications = put_application name app l.applications })

  unfoldable pub load_application : String → String → Loaded → Option Loaded
  unfolding has_prefix trim_prefix
  load_application key value l =
      let base = startup.consul_base_key <> "/applications" in
      if has_prefix key base
      then with_application (trim_prefix key (base <> "/")) (json.unmarshal_application value) l
      else some l

  abbrev pub then_application : String → String → Option Loaded → Option Loaded
  unfolding load_application
  then_application key value none = none
  then_application key value (some l) = load_application key value l

  unfoldable pub load_pair : String → String → Loaded → Option Loaded
  unfolding load_setting load_application
  load_pair key value l = then_application key value (load_setting key value l)

  abbrev pub and_load : (Loaded → Option Loaded) → Option Loaded → Option Loaded
  and_load next none = none
  and_load next (some l) = next l

  -- The loop; `none` is the error that ends the start.
  unfoldable pub load : List (String × String) → Loaded → Option Loaded
  unfolding load_pair
  load [] l = some l
  load ((key, value) ∷ kvs) l = and_load (load kvs) (load_pair key value l)
