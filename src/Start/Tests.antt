-- ===== src/Start/Tests.antt =====
-- A start with Consul, and one entry of the environment.
use servicegateway.Prelude.{
  String, ◌≡◌, refl, ap, subst, Bool, true, false, List, [], ◌∷◌, none, some, arith, ◌==◌, ◌||◌,
  eq_refl, eq_iff,
}
use mathlib.Core.Bool.{false≢true}
use servicegateway.Prelude.Int.{pos}
use servicegateway.Text.{split_two}
use servicegateway.Effects.{pure}
use servicegateway.Http.{lookup}
use servicegateway.Config.{Startup, default_startup}
use servicegateway.Auth.Types.{ok}
use servicegateway.Auth.TokenStore.{err_nil}
use servicegateway.Auth.Rest.Tests.{gateway}
use servicegateway.Monitoring.{MonitoringEnv, registration}
use servicegateway.Start.{panicking, StartEnv, environment, read_configuration, prepare}
use servicegateway.Start.Environment.{entry, environment-lookup}
use servicegateway.Start.Registered.{IsAgent, prepare-registered}

environment-lookup_example :
    lookup "DSN" (environment ("DSN=x" ∷ entry "DSN" "a=b" ∷ "HOME=/" ∷ [])) ≡ some "a=b"
unfolding split_two
environment-lookup_example =
    environment-lookup "DSN" "a=b" ("DSN=x" ∷ []) ("HOME=/" ∷ [])
      ((λ e. ground (arith, e)), ((λ e. ground (arith, e)), ((λ e. ground (arith, e)), tt)))
      ((λ e. false≢true ((eq_iff "HOME" "DSN").1 e)), tt)

-- The services in Consul.
abbrev Services : Type 0
Services = List String

abbrev registered : String → Services → Bool
registered id [] = false
registered id (s ∷ w) = s == id || registered id w

abbrev monitoring : MonitoringEnv Services
monitoring = record {
  hostname = λ w. (some "one", w);
  must_register = λ m. pure tt;
  service_register = λ r w. (none, r.id ∷ w);
}

monitoring-IsAgent : IsAgent monitoring registered
monitoring-IsAgent = record {
  register_registers =
      λ r w w' e. subst (λ x. registered r.id x ≡ true) (ap (λ p. p.1) e) (rw eq_refl refl);
  metric_keeps = λ x id w there. there;
}

abbrev env : StartEnv Services Unit Unit Unit
env = record {
  create = λ file w. (false, w);
  start_cpu_profile = λ w. (false, w);
  read_file = λ file w. (some "{}", w);
  environ = λ w. ("HOME=/" ∷ [], w);
  parse = λ s. some tt;
  execute = λ t data_env. some "{}";
  unmarshal = λ s. some gateway;
  build_consul_client = λ c. some tt;
  monitoring = monitoring;
  parse_duration = λ s. none;
  jwt = record {
    now = λ w. (5, w);
    http_get = λ url w. (none, w);
    lock = λ w. w;
    cached = record { load = λ w. record { key = none; expiration = 0 }; store = λ s w. w };
    parse_with_standard_claims = λ key token n. ok (record { expires_at = pos 10 });
    parse_with_map_claims = λ key token n. none;
  };
  new_lru = λ n. none;
  redis = λ addr options. record {
    hmset = λ k fs w. (false, w);
    expireat = λ k t w. (false, w);
    hmget = λ k fs w. (err_nil, w);
    keys = λ p w. (none, w);
    hgetall = λ k w. ([], w);
    random_token = λ w. (none, w);
  };
  loggers = record {
    amqp = λ cfg. record {
      map_claims = λ jwt w. ([], w);
      to_lower = λ s. s;
      url_string = λ u. u.path;
      now = λ w. (0, w);
      marshal = λ m. m.action;
      publish = λ exchange key message w. w;
    };
    connects = λ cfg. true;
    combined = λ file server. some server;
    get_logger = λ name. true;
  };
}

abbrev startup : Startup
startup = record default_startup { consul_base_key = "gateway" }

prepare-registered_example :
    ((prepare env startup []).0 ≡ panicking)
    × (registered "servicegateway-one" (prepare env startup []).1 ≡ true)
unfolding read_configuration registration
prepare-registered_example =
    prepare-registered env registered monitoring-IsAgent startup gateway tt "one" [] [] []
      ("servicegateway-one" ∷ []) refl refl refl refl refl refl refl
