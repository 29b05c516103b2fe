-- ===== src/Auth/Jwt/Tests.antt =====
-- A key server that is asked once.
use servicegateway.Prelude.{[], ◌≡◌, refl, false, arith, none, some}
use servicegateway.Prelude.Int.{pos}
use servicegateway.Effects.{returned, IsCell}
use servicegateway.Config.{GlobalAuth}
use servicegateway.Auth.Types.{ok}
use servicegateway.Auth.Jwt.{KeyCache, JwtEnv, get_verification_key}
use servicegateway.Auth.Jwt.Keys.{fetch_then_reuse}

abbrev env : JwtEnv KeyCache
env = record {
  now = λ w. (5, w);
  http_get = λ url w. (some "pem", w);
  lock = λ w. w;
  cached = record { load = λ w. w; store = λ s w. s };
  parse_with_standard_claims = λ key token n. ok (record { expires_at = pos 10 });
  parse_with_map_claims = λ key token n. none;
}

abbrev pub config : GlobalAuth
config = record {
  mode = "rest";
  provider_config = record {
    url = "";
    parameters = [];
    pre_authentication_hook = "";
    allow_authentication = false;
    authentication_uri = "";
    service = "login";
  };
  verification_key = "";
  verification_key_url = "http://key";
  key_cache_ttl = "5s";
  enable_cors = false;
}

abbrev empty : KeyCache
empty = record { key = none; expiration = 0 }

abbrev full : KeyCache
full = record { key = some "pem"; expiration = 10 }

env-IsCell : IsCell env.cached
env-IsCell = record { load-store = λ s w. refl }

fetch_then_reuse_example :
    ((get_verification_key env config 5 empty).0 ≡ returned (ok "pem"))
    × (get_verification_key env config 5 full ≡ (returned (ok "pem"), full))
unfolding get_verification_key
fetch_then_reuse_example =
    fetch_then_reuse env config 5 refl "pem" 5 empty empty empty full env-IsCell refl refl refl refl
      refl (omega arith)
