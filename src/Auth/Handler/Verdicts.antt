-- ===== src/Auth/Handler/Verdicts.antt =====
-- The ends of `IsAuthenticated` (auth/handler.go) for a token without an expiry and for one that
-- does not verify.
use servicegateway.Prelude.{ℕ, String, ◌≡◌, ◌∙◌, ap, Option, none}
use servicegateway.Prelude.Int.{pos}
use servicegateway.Effects.{returned, panicked}
use servicegateway.Http.{Request}
use servicegateway.Config.{GlobalAuth}
use servicegateway.Auth.Types.{JwtResponse, Error, plain, ok, err, StandardClaims}
use servicegateway.Auth.Jwt.{JwtEnv, verify_token}
use servicegateway.Auth.Jwt.Errors.{verify_token-error_IsPlain}
use servicegateway.Auth.Handler.{
  ExpItem, int, accepted, broken, HandlerEnv, remember, check, authenticate_token, is_authenticated,
}
use servicegateway.Auth.Handler.Expiry.{IsExpCache}

module _ {W : Type 0} (env : HandlerEnv W) (view : String → W → Option ExpItem)
    (go_cache : IsExpCache env.exp_cache view) where
  first_accepted :
      (req : Request) (token : JwtResponse) (claims : StandardClaims) (w w₁ w₂ : W)
      → env.token_from_request req w ≡ (returned (ok token), w₁)
      → view token.jwt w₁ ≡ none
      → env.verify_token token.jwt (env.exp_cache.get token.jwt w₁).1 ≡ (returned (ok claims), w₂)
      → claims.expires_at ≡ pos 0
      → is_authenticated env req w
        ≡ (returned (accepted token), env.exp_cache.set token.jwt (int 0) none w₂)
  unfolding is_authenticated authenticate_token check remember
  first_accepted req token claims w w₁ w₂ read new verified forever =
      rw (read, go_cache.get_view token.jwt w₁, new, verified, forever)

  -- The cache is as in `IsExpCache`, the request's token is not in it, and it verifies with the
  -- expiry 0. Then the request is accepted, and a later request with this token panics, as long as
  -- the cache still shows what the first request left for it.
  pub no_expiry_panics :
      (req : Request) (token : JwtResponse) (claims : StandardClaims) (w w₁ w₂ later later₁ : W)
      → env.token_from_request req w ≡ (returned (ok token), w₁)
      → view token.jwt w₁ ≡ none
      → env.verify_token token.jwt (env.exp_cache.get token.jwt w₁).1 ≡ (returned (ok claims), w₂)
      → claims.expires_at ≡ pos 0
      → env.token_from_request req later ≡ (returned (ok token), later₁)
      → view token.jwt later₁ ≡ view token.jwt (is_authenticated env req w).1
      → ((is_authenticated env req w).0 ≡ returned (accepted token))
        × ((is_authenticated env req later).0 ≡ panicked)
  unfolding is_authenticated authenticate_token check
  no_expiry_panics req token claims w w₁ w₂ later later₁ read new verified forever again kept =
      let first = first_accepted req token claims w w₁ w₂ read new verified forever in
      let found =
        go_cache.get_view token.jwt later₁
        ∙ kept
        ∙ ap (λ r. view token.jwt r.1) first
        ∙ go_cache.set_self token.jwt (int 0) none w₂ in
      (ap (λ r. r.0) first, rw (again, found))

module _ {W : Type 0} (jwt_env : JwtEnv W) (config : GlobalAuth) (cache_ttl : ℕ) where
  -- The handler verifies with `VerifyToken`, the request has a token that is not in the cache of
  -- expiry times, and it does not verify. Then the result is an error, whatever jwt-go's error was,
  -- and never the plain `false` of a token that has expired or has a bad signature.
  pub unverified-broken :
      (env : HandlerEnv W) (req : Request) (token : JwtResponse) (e : Error) (w w₁ w₂ : W)
      → env.verify_token ≡ verify_token jwt_env config cache_ttl
      → env.token_from_request req w ≡ (returned (ok token), w₁)
      → env.exp_cache.get token.jwt w₁ ≡ (none, w₂)
      → (verify_token jwt_env config cache_ttl token.jwt w₂).0 ≡ returned (err e)
      → (s : String) × ((is_authenticated env req w).0 ≡ returned (broken (plain s)))
  unfolding is_authenticated authenticate_token check
  unverified-broken env req token e w w₁ w₂ uses read new failed =
      let (s, wrapped) =
        verify_token-error_IsPlain jwt_env config cache_ttl token.jwt e w₂ failed in
      (s, rw (read, new, uses, failed, wrapped))
