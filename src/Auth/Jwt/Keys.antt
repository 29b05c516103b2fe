-- ===== src/Auth/Jwt/Keys.antt =====
-- Calls of `GetVerificationKey` (auth/jwt.go) that fetch the key or find it cached.
use servicegateway.Prelude.{
  ℕ, ◌+◌, ◌<◌, String, ◌≡◌, ◌∙◌, ap, true, none, some, arith, ltb, ◌==◌, eq_iff,
}
use servicegateway.Effects.{returned, IsCell}
use servicegateway.Config.{GlobalAuth}
use servicegateway.Auth.Types.{ok}
use servicegateway.Auth.Jwt.{JwtEnv, cached_key, store_key, locked_key, get_verification_key}

module _ {W : Type 0} (env : JwtEnv W) (config : GlobalAuth) (cache_ttl : ℕ)
    (asks : config.verification_key ≡ "") where
  not_configured : (config.verification_key == "") ≡ true
  not_configured = (eq_iff config.verification_key "").1 asks

  cached_key-hit :
      (k : String) (e : ℕ) (w : W)
      → env.cached.load w ≡ record { key = some k; expiration = e }
      → ltb (env.now w).0 e ≡ true
      → cached_key env config cache_ttl w ≡ (returned (some k), (env.now w).1)
  unfolding cached_key
  cached_key-hit k e w there fresh = rw (there, fresh)

  cached_key-none :
      (w : W)
      → (env.cached.load w).key ≡ none
      → cached_key env config cache_ttl w ≡ (returned none, w)
  unfolding cached_key
  cached_key-none w absent = rw absent

  locked_key-miss :
      (body : String) (n : ℕ) (w w₁ w₂ : W)
      → (env.cached.load (env.lock w)).key ≡ none
      → env.http_get config.verification_key_url (env.lock w) ≡ (some body, w₁)
      → env.now w₁ ≡ (n, w₂)
      → locked_key env config cache_ttl w ≡ (
        returned (ok body),
        env.cached.store (record { key = some body; expiration = n + cache_ttl }) w₂,
      )
  unfolding locked_key store_key
  locked_key-miss body n w w₁ w₂ absent fetched clock =
      rw (cached_key-none (env.lock w) absent, fetched, clock)

  get_verification_key-hit :
      (k : String) (e : ℕ) (w : W)
      → env.cached.load w ≡ record { key = some k; expiration = e }
      → (env.now w).0 < e
      → get_verification_key env config cache_ttl w ≡ (returned (ok k), (env.now w).1)
  unfolding get_verification_key
  get_verification_key-hit k e w there fresh =
      rw (not_configured, cached_key-hit k e w there (ground arith))

  get_verification_key-miss :
      (body : String) (n : ℕ) (w w₁ w₂ : W)
      → (env.cached.load w).key ≡ none
      → (env.cached.load (env.lock w)).key ≡ none
      → env.http_get config.verification_key_url (env.lock w) ≡ (some body, w₁)
      → env.now w₁ ≡ (n, w₂)
      → get_verification_key env config cache_ttl w ≡ (
        returned (ok body),
        env.cached.store (record { key = some body; expiration = n + cache_ttl }) w₂,
      )
  unfolding get_verification_key
  get_verification_key-miss body n w w₁ w₂ absent still fetched clock =
      rw (
        not_configured,
        cached_key-none w absent,
        locked_key-miss body n w w₁ w₂ still fetched clock,
      )

  -- No key is configured, and none is cached before and after the wait for the lock: the key is
  -- fetched and returned. In every later world with the cached key that this call left, as long as
  -- the clock shows less than the time after the fetch plus the lifetime, a call returns the same key
  -- and does nothing but read the clock.
  pub fetch_then_reuse :
      (body : String) (n : ℕ) (w w₁ w₂ later : W)
      → IsCell env.cached
      → (env.cached.load w).key ≡ none
      → (env.cached.load (env.lock w)).key ≡ none
      → env.http_get config.verification_key_url (env.lock w) ≡ (some body, w₁)
      → env.now w₁ ≡ (n, w₂)
      → env.cached.load later ≡ env.cached.load (get_verification_key env config cache_ttl w).1
      → (env.now later).0 < n + cache_ttl
      → ((get_verification_key env config cache_ttl w).0 ≡ returned (ok body))
        × (get_verification_key env config cache_ttl later
            ≡ (returned (ok body), (env.now later).1))
  fetch_then_reuse body n w w₁ w₂ later cell absent still fetched clock kept fresh =
      let miss = get_verification_key-miss body n w w₁ w₂ absent still fetched clock in
      (
        ap (λ r. r.0) miss,
        get_verification_key-hit body (n + cache_ttl) later
            (kept
              ∙ ap (λ r. env.cached.load r.1) miss
              ∙ cell.load-store (record { key = some body; expiration = n + cache_ttl }) w₂)
            fresh,
      )
