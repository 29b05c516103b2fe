-- ===== src/Auth/Handler/Tests.antt =====
-- A cache of expiry times, and tokens that verify or do not.
use servicegateway.Prelude.{
  ℕ, String, ◌≡◌, refl, ap, List, [], ◌∷◌, Option, none, arith, eq_refl, eq_iff, false,
}
use servicegateway.Prelude.Int.{ℤ, pos}
use servicegateway.Effects.{Outcome, returned, panicked, pure}
use servicegateway.Http.{Request, lookup}
use servicegateway.Http.Tests.{request}
use servicegateway.Config.{GlobalAuth}
use servicegateway.Auth.Types.{
  JwtResponse, Result, ok, err, plain, validation_error, StandardClaims,
}
use servicegateway.Auth.Jwt.{JwtEnv, verify_token}
use servicegateway.Auth.Handler.{
  ExpItem, int, ExpCache, accepted, broken, HandlerEnv, is_authenticated,
}
use servicegateway.Auth.Handler.Expiry.{
  IsExpCache, IsLive, IsSound, IsSoundEnv, is_authenticated-IsLive, is_authenticated-IsSound,
}
use servicegateway.Auth.Handler.Verdicts.{no_expiry_panics, unverified-broken}

abbrev pub Expiries : Type 0
Expiries = List (String × ExpItem)

abbrev pub view : String → Expiries → Option ExpItem
view j w = lookup j w

abbrev exp_cache : ExpCache Expiries
exp_cache = record { get = λ k w. (view k w, w); set = λ k i ttl w. (k, i) ∷ w }

exp_cache-IsExpCache : IsExpCache exp_cache view
unfolding lookup
exp_cache-IsExpCache = record {
  get_view = λ k w. refl;
  get_keeps = λ j k w. refl;
  set_self = λ k i ttl w. rw eq_refl;
  set_other = λ j k i ttl w ne. ground (arith, eq_iff k j);
}

abbrev pub token : JwtResponse
token = record { jwt = "J"; allowed_applications = "one" ∷ [] }

abbrev claims : ℤ → StandardClaims
claims e = record { expires_at = e }

-- Every token verifies, with the expiry `e`.
abbrev pub handler_env : ℤ → HandlerEnv Expiries
handler_env e = record {
  now = λ w. (5, w);
  exp_cache = exp_cache;
  token_from_request = λ req. pure (ok token);
  verify_token = λ j. pure (ok (claims e));
}

abbrev expiry_of : Outcome (Result StandardClaims) → ℤ
expiry_of (returned (ok c)) = c.expires_at
expiry_of _ = pos 0

abbrev pub Signed : String → ℤ → Type 0
Signed j e = pos 10 ≡ e

abbrev pub clock : Expiries → ℕ
clock w = 5

pub handler_env-IsSoundEnv : IsSoundEnv (handler_env (pos 10)) view Signed clock
handler_env-IsSoundEnv = record {
  go_cache = exp_cache-IsExpCache;
  now_after = λ w. omega arith;
  now_later = λ w. (omega arith, λ s. s);
  get_clock = λ k w. omega arith;
  set_clock = λ k i ttl w. omega arith;
  token_later = λ req w. (omega arith, λ s. s);
  verify_later = λ j w. (omega arith, λ s. s);
  verified = λ j c w e. ap expiry_of e;
}

pub none-IsSound : IsSound view Signed []
unfolding lookup
none-IsSound j i e = cc

abbrev get_request : Request
get_request = request "GET" "/a" []

is_authenticated-IsLive_example : (e : ℤ) × Signed "J" e × IsLive e 5
unfolding is_authenticated lookup
is_authenticated-IsLive_example =
    is_authenticated-IsLive (handler_env (pos 10)) view Signed clock handler_env-IsSoundEnv
      get_request token [] none-IsSound refl

is_authenticated-IsSound_example :
    IsSound view Signed (is_authenticated (handler_env (pos 10)) get_request []).1
is_authenticated-IsSound_example =
    is_authenticated-IsSound (handler_env (pos 10)) view Signed clock handler_env-IsSoundEnv
      get_request [] none-IsSound

no_expiry_panics_example :
    ((is_authenticated (handler_env (pos 0)) get_request []).0 ≡ returned (accepted token))
    × ((is_authenticated (handler_env (pos 0)) get_request (("J", int 0) ∷ [])).0 ≡ panicked)
unfolding is_authenticated lookup
no_expiry_panics_example =
    no_expiry_panics (handler_env (pos 0)) view exp_cache-IsExpCache get_request token
      (claims (pos 0)) [] [] [] (("J", int 0) ∷ []) (("J", int 0) ∷ []) refl refl refl refl refl
      refl

abbrev config : GlobalAuth
config = record {
  mode = "rest";
  provider_config = record {
    url = "";
    parameters = [];
    pre_authentication_hook = "";
    allow_authentication = false;
    authentication_uri = "";
    service = "login";
  };
  verification_key = "pem";
  verification_key_url = "";
  key_cache_ttl = "5s";
  enable_cors = false;
}

-- jwt-go finds that every token has expired.
abbrev expired : JwtEnv Expiries
expired = record {
  now = λ w. (5, w);
  http_get = λ url w. (none, w);
  lock = λ w. w;
  cached = record { load = λ w. record { key = none; expiration = 0 }; store = λ s w. w };
  parse_with_standard_claims = λ key token n. err (validation_error 16);
  parse_with_map_claims = λ key token n. none;
}

abbrev verifying_env : HandlerEnv Expiries
verifying_env = record {
  now = λ w. (5, w);
  exp_cache = exp_cache;
  token_from_request = λ req. pure (ok token);
  verify_token = verify_token expired config 5;
}

unverified-broken_example :
    (s : String) × ((is_authenticated verifying_env get_request []).0 ≡ returned (broken (plain s)))
unfolding lookup verify_token
unverified-broken_example =
    unverified-broken expired config 5 verifying_env get_request token
      (plain "error while parsing token with std-claims") [] [] [] refl refl refl refl
