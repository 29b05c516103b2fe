-- ===== src/Auth/Jwt.antt =====
-- auth/jwt.go: the verification key and the verification of tokens. The HTTP client, the clock and
-- jwt-go are parameters.
pub mod Errors
pub mod Keys
pub mod Calls
pub mod Tests
use servicegateway.Prelude.{ℕ, ◌+◌, String, not, Option, none, some, ◌==◌, ltb, if◌then◌else◌}
use servicegateway.Effects.{Exec, pure, call, Cell, ◌>>=◌, ◌>>◌}
use servicegateway.Config.{GlobalAuth}
use servicegateway.Auth.Types.{Error, plain, Result, ok, err, StandardClaims}

-- `cachedKey` and `cachedKeyExpiration`; no key is nil.
pub record KeyCache : Type 0 where
  pub key : Option String
  pub expiration : ℕ

-- What `NewJwtVerifier` keeps: the configuration and the lifetime of a cached key.
pub record JwtVerifier : Type 0 where
  pub config : GlobalAuth
  pub cache_ttl : ℕ

-- `NewJwtVerifier`, where `parse_duration` is `time.ParseDuration` in nanoseconds, for lifetimes that are not negative;
-- the cache is empty at first.
abbrev pub new_jwt_verifier : (String → Option ℕ) → GlobalAuth → Option JwtVerifier
new_jwt_verifier parse_duration cfg = elim (parse_duration cfg.key_cache_ttl) [
  | none ↦ none
  | some ttl ↦ some (record { config = cfg; cache_ttl = ttl })
]

-- What the verifier calls: `time.Now()` in nanoseconds, the body of an `http.Get` (`none` is an error of the
-- request or of the reading), the wait for `cachedKeyLock`, during which other requests run, and
-- the two parses of jwt-go with a key and at a time, which may fail with a validation error.
pub record JwtEnv (W : Type 0) : Type 0 where
  pub now : W → ℕ × W
  pub http_get : String → W → Option String × W
  pub lock : W → W
  pub cached : Cell W KeyCache
  pub parse_with_standard_claims : String → String → ℕ → Result StandardClaims
  pub parse_with_map_claims : String → String → ℕ → Option Error

-- `h.cachedKey != nil && h.cachedKeyExpiration.After(time.Now())`
pub live_key : KeyCache → ℕ → Option String
live_key c now = elim c.key [ none ↦ none | some k ↦ if ltb now c.expiration then some k else none ]

module _ {W : Type 0} (env : JwtEnv W) (config : GlobalAuth) (cache_ttl : ℕ) where
  -- The clock is read only where a key is cached.
  pub read_key : KeyCache → Option String → Exec W (Option String)
  unfolding live_key
  read_key c none = pure none
  read_key c (some k) = call env.now >>= λ now. pure (live_key c now)

  -- The key that is cached and has not expired.
  pub cached_key : Exec W (Option String)
  unfolding read_key
  cached_key w = read_key (env.cached.load w) (env.cached.load w).key w

  -- The key is fetched and cached.
  pub store_key : Option String → Exec W (Result String)
  store_key none = pure (err (plain "could not retrieve key"))
  store_key (some body) = call env.now >>= λ now. λ w.
      pure (ok body) (env.cached.store (record { key = some body; expiration = now + cache_ttl }) w)

  abbrev pub or_else : Option String → Exec W (Result String) → Exec W (Result String)
  or_else (some k) m = pure (ok k)
  or_else none m = m

  abbrev pub fetch_key : Exec W (Result String)
  fetch_key = call (env.http_get config.verification_key_url) >>= store_key

  -- The part of `GetVerificationKey` under the lock.
  pub locked_key : Exec W (Result String)
  unfolding cached_key store_key
  locked_key w = (cached_key >>= λ k. or_else k fetch_key) (env.lock w)

  -- `GetVerificationKey`
  unfoldable pub get_verification_key : Exec W (Result String)
  unfolding locked_key
  get_verification_key =
      if not (config.verification_key == "")
      then pure (ok config.verification_key)
      else (cached_key >>= λ k. or_else k locked_key)

  -- The result of the parse for the map claims; its error is wrapped by `fmt.Errorf`.
  abbrev pub parsed_map : StandardClaims → Option Error → Result StandardClaims
  parsed_map claims none = ok claims
  parsed_map claims (some e) = err (plain "error while parsing token with map-claims")

  -- What follows the parse for the standard claims, whose error is wrapped too.
  unfoldable pub parse_map :
      String → String → Result StandardClaims → Exec W (Result StandardClaims)
  parse_map key token (err e) = pure (err (plain "error while parsing token with std-claims"))
  parse_map key token (ok claims) =
      call env.now >>= λ now. pure (parsed_map claims (env.parse_with_map_claims key token now))

  unfoldable pub verify_with : String → Result String → Exec W (Result StandardClaims)
  unfolding parse_map
  verify_with token (err e) = pure (err (plain "error while getting verification key"))
  verify_with token (ok key) =
      call env.now >>= λ now. parse_map key token (env.parse_with_standard_claims key token now)

  -- `VerifyToken`. A token is valid exactly if there is no error, so the Boolean is left out.
  unfoldable pub verify_token : String → Exec W (Result StandardClaims)
  unfolding get_verification_key verify_with
  verify_token token = get_verification_key >>= verify_with token
