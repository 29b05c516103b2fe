-- ===== src/Monitoring.antt =====
-- The package `monitoring`: the controllers, their metrics and their server. Consul's client, Prometheus and the
-- router are parameters; the channels of the shutdown are in Shutdown.
use servicegateway.Prelude.{String, ◌<>◌, List, [], ◌∷◌, Option, none, some}
use servicegateway.Prelude.Int.{ℤ}
use servicegateway.Text.{itoa_ℤ}
use servicegateway.Effects.{Exec, pure, call, ◌>>=◌, ◌>>◌}
use servicegateway.Http.{Handler, Route, write}
use servicegateway.Shutdown.{Controller, no_integration, consul_integration}

-- A collector of Prometheus, as the code describes it.
pub record Metric : Type 0 where
  pub namespace : String
  pub subsystem : String
  pub name : String
  pub help : String
  pub labels : List String

-- `PromMetrics`
pub record PromMetrics : Type 0 where
  pub total_response_times : Metric
  pub upstream_response_times : Metric
  pub errors : Metric

abbrev pub proxy_metric : String → String → List String → Metric
proxy_metric name help labels = record {
  namespace = "servicegateway";
  subsystem = "proxy";
  name = name;
  help = help;
  labels = labels;
}

-- `newMetrics`
abbrev pub new_metrics : PromMetrics
new_metrics = record {
  total_response_times =
      proxy_metric "total_times_seconds" "HTTP total response times" ("application" ∷ []);
  upstream_response_times =
      proxy_metric "upstream_times_seconds" "HTTP upstream response times" ("application" ∷ []);
  errors = proxy_metric "errors" "HTTP proxy errors" ("application" ∷ "reason" ∷ []);
}

-- `api.AgentServiceRegistration`, with its check.
pub record Registration : Type 0 where
  pub id : String
  pub name : String
  pub port : ℤ
  pub check_http : String
  pub check_interval : String

-- What the controllers call: `os.Hostname`, `prometheus.MustRegister`, which may panic, and
-- `ServiceRegister`, with the text of its error if there is one.
pub record MonitoringEnv (W : Type 0) : Type 0 where
  pub hostname : W → Option String × W
  pub must_register : Metric → Exec W (Unit {0})
  pub service_register : Registration → W → Option String × W

-- A controller: which of the two it is, its address and metrics, and `consulServiceID`, which is empty without Consul.
pub record MonitoringController : Type 0 where
  pub kind : Controller
  pub http_address : String
  pub http_port : ℤ
  pub metrics : PromMetrics
  pub consul_service_id : String

-- `NewNoIntegrationMonitoringController`; the errors it checks for never come.
abbrev pub new_no_integration_monitoring_controller : String → ℤ → MonitoringController
new_no_integration_monitoring_controller addr port = record {
  kind = no_integration;
  http_address = addr;
  http_port = port;
  metrics = new_metrics;
  consul_service_id = "";
}

abbrev pub named_controller : String → ℤ → String → MonitoringController
named_controller addr port hostname = record {
  kind = consul_integration;
  http_address = addr;
  http_port = port;
  metrics = new_metrics;
  consul_service_id = "servicegateway-" <> hostname;
}

abbrev pub consul_controller : String → ℤ → Option String → Option MonitoringController
consul_controller addr port none = none
consul_controller addr port (some hostname) = some (named_controller addr port hostname)

-- What a controller's `Start` leaves running: the server on an address, and the goroutine for the shutdown,
-- whose states are those of Shutdown.
pub data Goroutine : Type 0 where
  listening : String → Goroutine
  awaiting_shutdown : Controller → Goroutine

-- The entry in Consul, whose check asks the monitoring server on localhost for its status.
unfoldable pub registration : MonitoringController → Registration
unfolding itoa_ℤ
registration m = record {
  id = m.consul_service_id;
  name = "servicegateway";
  port = m.http_port;
  check_http = "http://localhost:" <> (itoa_ℤ m.http_port <> "/status");
  check_interval = "30s";
}

module _ {W : Type 0} (env : MonitoringEnv W) where
  -- `NewConsulIntegrationMonitoringController`
  abbrev pub new_consul_integration_monitoring_controller :
      String → ℤ → Exec W (Option MonitoringController)
  new_consul_integration_monitoring_controller addr port =
      call env.hostname >>= λ hostname. pure (consul_controller addr port hostname)

  -- `PromMetrics.Init`
  unfoldable pub init : PromMetrics → Exec W (Unit {0})
  init m =
      env.must_register m.total_response_times
      >> env.must_register m.upstream_response_times
      >> env.must_register m.errors

  -- The end of `Start`, the same for both controllers.
  unfoldable pub launch : MonitoringController → Exec W (Option (List Goroutine))
  unfolding init itoa_ℤ
  launch m =
      init m.metrics
      >> pure (
          some (
            listening (m.http_address <> (":" <> itoa_ℤ m.http_port))
            ∷ awaiting_shutdown m.kind
            ∷ []))

  abbrev pub after_register :
      MonitoringController → Option String → Exec W (Option (List Goroutine))
  unfolding launch
  after_register m none = launch m
  after_register m (some error) = pure none

  abbrev pub start_kind : Controller → MonitoringController → Exec W (Option (List Goroutine))
  unfolding launch
  start_kind no_integration m = launch m
  start_kind consul_integration m =
      call (env.service_register (registration m)) >>= after_register m

  -- `Start` of either controller; `none` is its error.
  unfoldable pub start : MonitoringController → Exec W (Option (List Goroutine))
  unfolding launch
  start m = start_kind m.kind m

-- The routes of the monitoring server; `prometheus` is the handler of promhttp.
abbrev pub routes : {W : Type 0} → Handler W → List (Route W)
routes prometheus =
    record {
      method = "GET";
      path = "/status";
      handler = λ req params. pure (write "Hallo Welt!" ∷ []);
    }
    ∷ record { method = "GET"; path = "/metrics"; handler = prometheus }
    ∷ []
