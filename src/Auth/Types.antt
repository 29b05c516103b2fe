-- ===== src/Auth/Types.antt =====
-- The types that the files of package `auth` share.
use servicegateway.Prelude.{ℕ, String, List}
use servicegateway.Prelude.Int.{ℤ}

-- `JWTResponse` of auth/handler.go. A nil list of applications is the empty one: the code only asks
-- for its length.
pub record JwtResponse : Type 0 where
  pub jwt : String
  pub allowed_applications : List String

-- The errors that the package tells apart: `NoTokenError`, a `*jwt.ValidationError` with its bits,
-- and those that `fmt.Errorf` or a library makes, by their text.
pub data Error : Type 0 where
  no_token_error : Error
  validation_error : ℕ → Error
  plain : String → Error

pub data Result (A : Type 0) : Type 0 where
  ok : A → Result A
  err : Error → Result A

-- `jwt.StandardClaims`, as far as the gateway reads it; 0 says that the token does not expire.
pub record StandardClaims : Type 0 where
  pub expires_at : ℤ
