-- ===== src/Start/Registered.antt =====
-- What a start that fails leaves behind in Consul (main.go).
use servicegateway.Prelude.{ℕ, String, ◌<>◌, ◌≡◌, refl, true, inl, inr, Bool, Option, none, some}
use servicegateway.Effects.{Outcome-cases}
use servicegateway.Config.{Configuration, GlobalAuth, Startup, is_consul_config}
use servicegateway.Auth.Jwt.{new_jwt_verifier}
use servicegateway.Monitoring.{
  Metric, MonitoringEnv, PromMetrics, Registration, registration, named_controller, init, launch,
  start,
}
use servicegateway.Start.{booted, panicking, StartEnv, consul_client, read_configuration, prepare}

-- What the start relies on of Consul: a registration that succeeds is there, and Prometheus does not undo it.
pub record IsAgent {W : Type 0} (m : MonitoringEnv W) (registered : String → W → Bool)
    : Type 0 where
  pub register_registers :
      (r : Registration) (w w' : W)
      → m.service_register r w ≡ (none, w')
      → registered r.id w' ≡ true
  pub metric_keeps :
      (x : Metric) (id : String) (w : W)
      → registered id w ≡ true
      → registered id (m.must_register x w).1 ≡ true

module _ {W : Type 0} (m : MonitoringEnv W) (registered : String → W → Bool)
    (laws : IsAgent m registered) where
  init-registered :
      (id : String) (p : PromMetrics) (w : W)
      → registered id w ≡ true
      → registered id (init m p w).1 ≡ true
  unfolding init
  init-registered id p w there =
      let once = laws.metric_keeps p.total_response_times id w there in
      elim (Outcome-cases (m.must_register p.total_response_times w).0) [
        | inl (_, e) ↦ rw e (
            let w₁ = (m.must_register p.total_response_times w).1 in
            let twice = laws.metric_keeps p.upstream_response_times id w₁ once in
            elim (Outcome-cases (m.must_register p.upstream_response_times w₁).0) [
              | inl (_, e') ↦ rw e' (
                  laws.metric_keeps p.errors id (m.must_register p.upstream_response_times w₁).1
                    twice)
              | inr e' ↦ rw e' twice
            ])
        | inr e ↦ rw e once
      ]

no_verifier :
    (parse_duration : String → Option ℕ) (cfg : GlobalAuth)
    → parse_duration cfg.key_cache_ttl ≡ none
    → new_jwt_verifier parse_duration cfg ≡ none
no_verifier parse_duration cfg bad = rw (new_jwt_verifier, bad)

module _ {W Server Template Consul : Type 0} (env : StartEnv W Server Template Consul)
    (registered : String → W → Bool) (laws : IsAgent env.monitoring registered) where
  -- No profile is asked for and a base key for Consul is set. The configuration is read, Consul's client is made and
  -- takes the registration, and the lifetime of a cached key cannot be parsed. Then the process ends by a panic, and
  -- the service is still registered in Consul.
  pub prepare-registered :
      (startup : Startup) (cfg : Configuration) (client : Consul) (hostname : String)
      (w w₁ w₂ w₃ : W)
      → startup.profile_cpu ≡ ""
      → is_consul_config startup ≡ true
      → read_configuration env startup w ≡ (booted cfg, w₁)
      → consul_client env cfg ≡ some client
      → env.monitoring.hostname w₁ ≡ (some hostname, w₂)
      → env.monitoring.service_register
          (registration (named_controller startup.monitor_address startup.monitor_port hostname))
          w₂
        ≡ (none, w₃)
      → env.parse_duration cfg.authentication.key_cache_ttl ≡ none
      → ((prepare env startup w).0 ≡ panicking)
        × (registered ("servicegateway-" <> hostname) (prepare env startup w).1 ≡ true)
  unfolding prepare start launch registration
  prepare-registered startup cfg client hostname w w₁ w₂ w₃ no_profile consul read made named
        entered bad =
      let c = named_controller startup.monitor_address startup.monitor_port hostname in
      let unparsed = no_verifier env.parse_duration cfg.authentication bad in
      let there =
        init-registered env.monitoring registered laws c.consul_service_id c.metrics w₃
          (laws.register_registers (registration c) w₂ w₃ entered) in
      elim (Outcome-cases (init env.monitoring c.metrics w₃).0) [
        | inl (_, e) ↦
            rw (no_profile, read, consul, made, named, entered, e, unparsed) (refl, there)
        | inr e ↦ rw (no_profile, read, consul, made, named, entered, e) (refl, there)
      ]
