-- ===== src/Start/Servers.antt =====
-- The goroutine of main.go that builds the handlers and makes the two servers.
use servicegateway.Prelude.{String, ◌<>◌, List, Option, if◌then◌else◌}
use servicegateway.Text.{itoa_ℤ}
use servicegateway.Config.{Startup, is_consul_config}
use servicegateway.Dispatcher.Consul.{ConfigJson}
use servicegateway.Dispatcher.Build.{
  Build, built, BuildEnv, Gateway, and_then, or_fail, build_no_integration_dispatcher,
  build_consul_dispatcher,
}
use servicegateway.Start.{StartEnv, Parts, consul_client}

-- `http.Server`, as far as the code sets it.
pub record HttpServer (Server : Type 0) : Type 0 where
  pub addr : String
  pub handler : Server

pub record Servers (Server : Type 0) : Type 0 where
  pub proxy_server : HttpServer Server
  pub admin_server : HttpServer Server

-- `listenAddress` and `adminListenAddress`
abbrev pub listen_address : Startup → String
unfolding itoa_ℤ
listen_address startup = ":" <> itoa_ℤ startup.port

abbrev pub admin_listen_address : Startup → String
unfolding itoa_ℤ
admin_listen_address startup = startup.admin_address <> (":" <> itoa_ℤ startup.admin_port)

-- `list` is the `List` of Consul's key-value store.
module _ {W Server Template Consul : Type 0} (env : StartEnv W Server Template Consul)
    (build_env : BuildEnv W Server) (json : ConfigJson)
    (list : Consul → String → Option (List (String × String))) (startup : Startup)
    (parts : Parts W Server) where
  abbrev pub build_with : Consul → Build (Gateway W Server)
  unfolding build_consul_dispatcher
  build_with client =
      build_consul_dispatcher build_env json startup parts.config
        (list client startup.consul_base_key) parts.loggers

  -- The choice of the build.
  abbrev pub build_gateway : Build (Gateway W Server)
  unfolding build_consul_dispatcher build_no_integration_dispatcher
  build_gateway =
      if is_consul_config startup
      then and_then (or_fail (consul_client env parts.config)) build_with
      else build_no_integration_dispatcher build_env startup parts.config parts.loggers

  abbrev pub servers_of : Gateway W Server → Servers Server
  unfolding itoa_ℤ
  servers_of g = record {
    proxy_server = record { addr = listen_address startup; handler = g.server };
    admin_server = record { addr = admin_listen_address startup; handler = g.admin };
  }

  -- What the goroutine starts in the end.
  abbrev pub build_servers : Build (Servers Server)
  unfolding build_consul_dispatcher build_no_integration_dispatcher itoa_ℤ
  build_servers = and_then build_gateway (λ g. built (servers_of g))
