-- ===== src/Auth/Jwt/Errors.antt =====
-- What errors `VerifyToken` returns.
use servicegateway.Prelude.{ℕ, String, ◌≡◌, refl, Option, none, some, subst}
use servicegateway.Effects.{Outcome, returned, panicked, continue}
use servicegateway.Config.{GlobalAuth}
use servicegateway.Auth.Types.{Error, plain, Result, ok, err, StandardClaims}
use servicegateway.Auth.Jwt.{
  JwtEnv, get_verification_key, parsed_map, verify_with, parse_map, verify_token,
}

-- The error is one that `fmt.Errorf` made.
abbrev pub IsPlain : Error → Type 0
IsPlain e = (s : String) × (e ≡ plain s)

abbrev FailsPlainly : Outcome (Result StandardClaims) → Type 0
FailsPlainly (returned (err e)) = IsPlain e
FailsPlainly _ = Unit

module _ {W : Type 0} (env : JwtEnv W) (config : GlobalAuth) (cache_ttl : ℕ) where
  parsed_map-IsPlain :
      (claims : StandardClaims) (o : Option Error)
      → FailsPlainly (returned (parsed_map env config cache_ttl claims o))
  parsed_map-IsPlain claims none = tt
  parsed_map-IsPlain claims (some e) = (_, refl)

  parse_map-IsPlain :
      (key token : String) (r : Result StandardClaims) (w : W)
      → FailsPlainly (parse_map env config cache_ttl key token r w).0
  unfolding parse_map
  parse_map-IsPlain key token (err e) w = (_, refl)
  parse_map-IsPlain key token (ok claims) w =
      parsed_map-IsPlain claims (env.parse_with_map_claims key token (env.now w).0)

  verify_with-IsPlain :
      (token : String) (key : Outcome (Result String)) (w : W)
      → FailsPlainly (continue key (verify_with env config cache_ttl token) w).0
  unfolding verify_with
  verify_with-IsPlain token panicked w = tt
  verify_with-IsPlain token (returned (err e)) w = (_, refl)
  verify_with-IsPlain token (returned (ok key)) w =
      parse_map-IsPlain key token (env.parse_with_standard_claims key token (env.now w).0)
        (env.now w).1

  pub verify_token-IsPlain :
      (token : String) (w : W) → FailsPlainly (verify_token env config cache_ttl token w).0
  unfolding verify_token
  verify_token-IsPlain token w =
      verify_with-IsPlain token (get_verification_key env config cache_ttl w).0
        (get_verification_key env config cache_ttl w).1

  pub verify_token-error_IsPlain :
      (token : String) (e : Error) (w : W)
      → (verify_token env config cache_ttl token w).0 ≡ returned (err e)
      → IsPlain e
  verify_token-error_IsPlain token e w failed =
      subst FailsPlainly failed (verify_token-IsPlain token w)
