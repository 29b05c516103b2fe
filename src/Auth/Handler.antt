-- ===== src/Auth/Handler.antt =====
-- `IsAuthenticated` of auth/handler.go: the token of a request is accepted if it has been verified
-- and has not expired. Verified expiry times are kept in a go-cache, which is a parameter.
pub mod Expiry
pub mod Verdicts
pub mod Tests
use Prim.Native.Nat.{bit_and}
use servicegateway.Prelude.{ℕ, String, Bool, false, Option, none, some, eqb, if◌then◌else◌}
use servicegateway.Prelude.Int.{ℤ, pos, negsuc, ltb_ℤ, ◌-ℤ◌}
use servicegateway.Effects.{Outcome, Exec, pure, panic, call, ◌>>=◌}
use servicegateway.Http.{Request}
use servicegateway.Auth.Types.{
  JwtResponse, Error, no_token_error, validation_error, plain, Result, ok, err, StandardClaims,
}

-- What the code puts into the cache of expiry times: the constant 0, which is an `int`, or an
-- `int64`.
pub data ExpItem : Type 0 where
  int : ℕ → ExpItem
  int64 : ℤ → ExpItem

-- go-cache. `set` takes the lifetime in seconds; `none` is `cache.NoExpiration`.
pub record ExpCache (W : Type 0) : Type 0 where
  pub get : String → W → Option ExpItem × W
  pub set : String → ExpItem → Option ℤ → W → W

-- The results of `IsAuthenticated`: `(true, token, nil)`, `(false, nil, nil)` or `(false, nil, err)`.
pub data Verdict : Type 0 where
  accepted : JwtResponse → Verdict
  rejected : Verdict
  broken : Error → Verdict

-- `stdClaims.ExpiresAt == 0`
abbrev pub is_zero : ℤ → Bool
is_zero (pos n) = eqb n 0
is_zero (negsuc n) = false

-- What `IsAuthenticated` calls.
pub record HandlerEnv (W : Type 0) : Type 0 where
  pub now : W → ℕ × W
  pub exp_cache : ExpCache W
  pub token_from_request : Request → Exec W (Result JwtResponse)
  pub verify_token : String → Exec W (Result StandardClaims)

-- `ValidationErrorExpired | ValidationErrorSignatureInvalid` of jwt-go.
abbrev pub acceptable_errors : ℕ
acceptable_errors = 20

-- What becomes of an error of `VerifyToken`.
abbrev pub verdict_of_error : Error → Verdict
verdict_of_error (validation_error bits) =
    if eqb (bit_and bits acceptable_errors) 0 then broken (validation_error bits) else rejected
verdict_of_error no_token_error = broken no_token_error
verdict_of_error (plain s) = broken (plain s)

module _ {W : Type 0} (env : HandlerEnv W) where
  -- The end for a verified token: its expiry is cached, and it is accepted, unless it has expired.
  unfoldable pub remember : JwtResponse → ℤ → Exec W Verdict
  remember token exp w =
      let forever : Outcome Verdict × W =
        pure (accepted token) (env.exp_cache.set token.jwt (int 0) none w) in
      let (now, w₁) = env.now w in
      let (then_now, w₂) = env.now w₁ in
      let timed : Outcome Verdict × W =
        pure (accepted token)
          (env.exp_cache.set token.jwt (int64 exp) (some (exp -ℤ pos then_now)) w₂) in
      if is_zero exp then forever else if ltb_ℤ (pos now) exp then timed else pure rejected w₁

  abbrev pub after_verify : JwtResponse → Result StandardClaims → Exec W Verdict
  after_verify token (ok claims) = remember token claims.expires_at
  after_verify token (err e) = pure (verdict_of_error e)

  -- What follows the look-up of the token's expiry. The assertion `exp.(int64)` panics at an `int`;
  -- an `int64` never equals the constant 0 of `exp == 0`, which is an `int`.
  unfoldable pub check : JwtResponse → Option ExpItem → Exec W Verdict
  unfolding remember
  check token (some (int n)) = panic
  check token (some (int64 exp)) =
      call env.now >>= λ now. pure (if ltb_ℤ (pos now) exp then accepted token else rejected)
  check token none = env.verify_token token.jwt >>= after_verify token

  unfoldable pub authenticate_token : Result JwtResponse → Exec W Verdict
  unfolding check
  authenticate_token (err no_token_error) = pure rejected
  authenticate_token (err (validation_error bits)) = pure (broken (validation_error bits))
  authenticate_token (err (plain s)) = pure (broken (plain s))
  authenticate_token (ok token) = call (env.exp_cache.get token.jwt) >>= check token

  -- `IsAuthenticated`
  unfoldable pub is_authenticated : Request → Exec W Verdict
  unfolding authenticate_token
  is_authenticated req = env.token_from_request req >>= authenticate_token
