-- ===== src/Config.antt =====
-- The configuration types of config/*.go, as far as the modelled handlers read them, and the
-- operations on them.
use servicegateway.Prelude.Int.{ℤ, pos}
use servicegateway.Proxy.Json.{Json}
use servicegateway.Prelude.{ℕ, String, ◌<>◌, Bool, false, List, [], ◌∷◌, not, ◌==◌, if◌then◌else◌}
use servicegateway.Text.{itoa_ℤ}

-- config/auth.go
pub record AuthWriterConfig : Type 0 where
  pub mode : String
  pub name : String

pub record ApplicationAuth : Type 0 where
  pub disable : Bool
  pub writer : AuthWriterConfig

pub record ProviderAuthConfig : Type 0 where
  pub url : String
  pub parameters : List (String × Json)
  pub pre_authentication_hook : String
  pub allow_authentication : Bool
  pub authentication_uri : String
  pub service : String

pub record GlobalAuth : Type 0 where
  pub mode : String
  pub provider_config : ProviderAuthConfig
  pub verification_key : String
  pub verification_key_url : String
  pub key_cache_ttl : String
  pub enable_cors : Bool

-- config/config.go
pub record Routing : Type 0 where
  pub type : String
  pub path : String
  pub patterns : List (String × String)
  pub hostname : String

pub record Backend : Type 0 where
  pub url : String
  pub service : String
  pub tag : String
  pub username : String
  pub password : String

pub record Caching : Type 0 where
  pub enabled : Bool
  pub ttl : ℕ
  pub auto_flush : Bool

pub record RateLimiting : Type 0 where
  pub burst : ℤ
  pub window : String

pub record Application : Type 0 where
  pub routing : Routing
  pub backend : Backend
  pub auth : ApplicationAuth
  pub caching : Caching
  pub rate_limiting : Bool

pub record OptionsConfiguration : Type 0 where
  pub enabled : Bool
  pub cors : Bool

pub record ProxyConfiguration : Type 0 where
  pub strip_response_headers : List (String × Bool)
  pub set_response_headers : List (String × String)
  pub set_request_headers : List (String × String)
  pub options_configuration : OptionsConfiguration

-- config/logging.go; the two embedded records are spread out.
pub record LoggingConfiguration : Type 0 where
  pub type : String
  pub uri : String
  pub exchange : String
  pub unsafe_only : Bool
  pub filename : String

pub record RedisConfiguration : Type 0 where
  pub address : String
  pub password : String
  pub database : ℤ

pub record ConsulConfiguration : Type 0 where
  pub host : String
  pub port : ℤ
  pub data_center : String

pub record Configuration : Type 0 where
  pub applications : List (String × Application)
  pub rate_limiting : RateLimiting
  pub authentication : GlobalAuth
  pub consul : ConsulConfiguration
  pub proxy : ProxyConfiguration
  pub redis : RedisConfiguration
  pub logging : List LoggingConfiguration

-- The options of redigo's `Dial` that the code makes.
pub data DialOption : Type 0 where
  dial_database : ℤ → DialOption
  dial_password : String → DialOption

-- `DialOptions`
abbrev pub dial_options : RedisConfiguration → List DialOption
dial_options c =
    dial_database c.database
    ∷ (if not (c.password == "") then dial_password c.password ∷ [] else [])

-- `ConsulConfiguration.Address`
abbrev pub address : ConsulConfiguration → String
unfolding itoa_ℤ
address c = c.host <> (":" <> itoa_ℤ c.port)

-- `api.Config` of Consul's client, as far as the code sets it.
pub record ConsulConfig : Type 0 where
  pub address : String
  pub datacenter : String

-- `BuildConsulConfig`
abbrev pub build_consul_config : ConsulConfiguration → ConsulConfig
unfolding itoa_ℤ
build_consul_config c = record { address = address c; datacenter = c.data_center }

-- config/startup.go
pub record Startup : Type 0 where
  pub config_file : String
  pub dispatching_mode : String
  pub consul_base_key : String
  pub ui_dir : String
  pub port : ℤ
  pub admin_address : String
  pub admin_port : ℤ
  pub monitor_address : String
  pub monitor_port : ℤ
  pub debug : Bool
  pub profile_cpu : String

-- The startup that `main` makes without flags.
abbrev pub default_startup : Startup
default_startup = record {
  config_file = "/etc/servicegateway.json";
  dispatching_mode = "path";
  consul_base_key = "";
  ui_dir = "/usr/share/servicegateway";
  port = pos 8080;
  admin_address = "127.0.0.1";
  admin_port = pos 8081;
  monitor_address = "0.0.0.0";
  monitor_port = pos 8082;
  debug = false;
  profile_cpu = "";
}

-- `len(s.ConsulBaseKey) > 0`
abbrev pub is_consul_config : Startup → Bool
is_consul_config s = not (s.consul_base_key == "")
