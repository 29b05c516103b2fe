-- ===== src/Admin/Tests.antt =====
-- A store behind a cache, and requests of the API for tokens.
use servicegateway.Prelude.{String, ◌<>◌, ◌≡◌, refl, List, [], ◌∷◌, Option, some, eq_refl}
use servicegateway.Prelude.Int.{pos}
use servicegateway.Effects.{returned, panicked, pure}
use servicegateway.Http.{Request, Event, lookup}
use servicegateway.Http.Recorder.{sent}
use servicegateway.Http.Tests.{request}
use servicegateway.Auth.Types.{ok, err, plain}
use servicegateway.Auth.TokenStore.{
  TokenStore, LocalItem, Lru, cached, cache_decorator, decorated_set_token, decorated_get_token,
}
use servicegateway.Auth.TokenStore.LocalCache.{IsLru}
use servicegateway.Admin.{AdminEnv, get_tokens, put_token}
use servicegateway.Admin.Listing.{Listed, get_tokens-Listed}
use servicegateway.Admin.Tokens.{Verified, put_token-get_token}

abbrev Local : Type 0
Local = List (String × LocalItem)

abbrev view : String → Local → Option LocalItem
view k w = lookup k w

abbrev lru : Lru Local
lru = record { add = λ k i w. (k, i) ∷ w; get = λ k w. (view k w, w) }

lru-IsLru : IsLru lru view
unfolding lookup
lru-IsLru = record { get_view = λ k w. refl; add_self = λ k i w. rw eq_refl }

-- Two tokens, and room for all.
abbrev store : TokenStore Local
store = record {
  add_token = λ r. pure (ok ("T", pos 10));
  set_token = λ t r. pure (ok (pos 10));
  get_token = λ t. pure (err (plain "unknown"));
  get_all_tokens =
      pure (ok (record { jwt = "J"; token = "T" } ∷ record { jwt = "K"; token = "U" } ∷ []));
}

abbrev admin_env : AdminEnv Local
admin_env = record {
  read_body = λ req. some "J";
  verify_token = λ jwt. pure (ok (record { expires_at = pos 10 }));
  error_text = λ e. "error";
  encode = λ t. some (t.href <> "\n");
  query_escape = λ s. s;
  format_time = λ e. "E";
}

-- No comma stands between the tokens.
no_comma :
    (elim (get_tokens admin_env store (request "GET" "/tokens" []) [] []).0 [
      | returned events ↦ (sent events).body
      | panicked ↦ ""
    ])
    ≡ "[http://api.example/tokens/T\nhttp://api.example/tokens/U\n]"
unfolding get_tokens sent
no_comma = refl

get_tokens-Listed_example :
    (events : List Event) × (get_tokens admin_env store (request "GET" "/tokens" []) [] []
      ≡ (returned events, []))
    × Listed admin_env store
        (request "GET" "/tokens" [])
        (ok (record { jwt = "J"; token = "T" } ∷ record { jwt = "K"; token = "U" } ∷ []))
        events
get_tokens-Listed_example =
    get_tokens-Listed admin_env store (request "GET" "/tokens" []) []
      (ok (record { jwt = "J"; token = "T" } ∷ record { jwt = "K"; token = "U" } ∷ [])) [] [] refl

abbrev put : Request
put = request "PUT" "/tokens/T" (("Content-Type", "application/jwt" ∷ []) ∷ [])

abbrev after_put : Local
after_put =
    ("T", cached (record { token = record { jwt = "J"; allowed_applications = [] }; exp = pos 10 }))
    ∷ []

put_token-get_token_example :
    (jwt : String) × (w₁ : Local) × Verified admin_env (cache_decorator lru store) put jwt w₁
    × (decorated_get_token lru store "T" after_put ≡ (
      returned (ok (record { jwt = jwt; allowed_applications = [] })),
      (lru.get "T" after_put).1,
    ))
unfolding put_token sent decorated_set_token
put_token-get_token_example =
    put_token-get_token admin_env lru store view lru-IsLru put (("token", "T") ∷ []) _ [] after_put
      refl refl
