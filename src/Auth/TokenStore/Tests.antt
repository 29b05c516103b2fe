-- ===== src/Auth/TokenStore/Tests.antt =====
-- A Redis and a local cache that never forget.
use servicegateway.Prelude.{
  ℕ, ap, subst, arith, inl, eq_iff, String, ◌≡◌, refl, false, List, [], ◌∷◌, map, Option, none,
  some, eq_refl,
}
use servicegateway.Prelude.Int.{ℤ, pos}
use servicegateway.Effects.{Outcome, returned, Exec, pure}
use servicegateway.Http.{lookup}
use servicegateway.Text.{of_code}
use servicegateway.Auth.Types.{JwtResponse, Result, ok, StandardClaims}
use servicegateway.Auth.TokenStore.{
  RedisHashes, new_token_store, redis_token_store, add_token, strings, value_of, TokenStore,
  LocalItem, Lru, set_token, get_token,
}
use servicegateway.Auth.TokenStore.RoundTrip.{IsRedisHashes, InTime, get_token-set_token}
use servicegateway.Auth.TokenStore.Contract.{Held, IfSet, IfAdded, IfGot, Coherent, IsLayer}
use servicegateway.Auth.TokenStore.Redis.{IsSteady, held, new_token_store-refines}

-- A clock that stands still.
abbrev no_clock : {W : Type 0} → W → ℕ
no_clock w = 0

abbrev Hashes : Type 0
Hashes = List (String × List (String × String))

abbrev or_nil : Option (List (String × String)) → List (String × String)
or_nil none = []
or_nil (some h) = h

abbrev fields : String → Hashes → String → String
fields k w f = value_of f (or_nil (lookup k w))

abbrev redis : RedisHashes Hashes
redis = record {
  hmset = λ k h w. (false, (k, h) ∷ w);
  expireat = λ k e w. (false, w);
  hmget = λ k names w. (strings (map (fields k w) names), w);
  keys = λ p w. (some [], w);
  hgetall = λ k w. (or_nil (lookup k w), w);
  random_token = λ w. (some "T", w);
}

redis-IsRedisHashes : IsRedisHashes redis fields no_clock
unfolding lookup
redis-IsRedisHashes = record {
  hmset_fields = λ k jwt token apps w. rw eq_refl (refl, refl);
  expireat_fields = λ k f e w late. refl;
  expireat_clock = λ k e w. omega arith;
  hmget_strings = λ k names w. refl;
}

abbrev verifies : String → Exec Hashes (Result StandardClaims)
verifies jwt = pure (ok (record { expires_at = pos 10 }))

abbrev response : JwtResponse
response = record { jwt = "J"; allowed_applications = "a" ∷ "b" ∷ [] }

abbrev stored : Hashes
stored = ("token_T", ("jwt", "J") ∷ ("token", "T") ∷ ("applications", "a;b") ∷ []) ∷ []

get_token-set_token_example : (get_token redis verifies "T" stored).0 ≡ returned (ok response)
unfolding set_token of_code lookup
get_token-set_token_example =
    get_token-set_token redis verifies fields no_clock redis-IsRedisHashes "T" response (pos 10) []
      stored ((λ e. cc, ((λ e. omega arith), tt)), (((λ e. cc), ((λ e. omega arith), tt)), tt)) refl
      (λ e. refl)

abbrev Local : Type 0
Local = List (String × LocalItem)

abbrev view : String → Local → Option LocalItem
view k w = lookup k w

-- Both.
abbrev Both : Type 0
Both = Hashes × Local

abbrev both_redis : RedisHashes Both
both_redis = record {
  hmset = λ k h w. (false, ((k, h) ∷ w.0, w.1));
  expireat = λ k e w. (false, w);
  hmget = λ k names w. (strings (map (fields k w.0) names), w);
  keys = λ p w. (some [], w);
  hgetall = λ k w. (or_nil (lookup k w.0), w);
  random_token = λ w. (some "T", w);
}

abbrev both_fields : String → Both → String → String
both_fields k w f = fields k w.0 f

both_redis-IsRedisHashes : IsRedisHashes both_redis both_fields no_clock
unfolding lookup
both_redis-IsRedisHashes = record {
  hmset_fields = λ k jwt token apps w. rw eq_refl (refl, refl);
  expireat_fields = λ k f e w late. refl;
  expireat_clock = λ k e w. omega arith;
  hmget_strings = λ k names w. refl;
}

abbrev both_verifies : String → Exec Both (Result StandardClaims)
both_verifies jwt = pure (ok (record { expires_at = pos 10 }))

both_redis-IsSteady : IsSteady both_redis both_verifies both_fields no_clock
unfolding lookup
both_redis-IsSteady = record {
  hmset_done = λ k h w. refl;
  expireat_done = λ k e w. refl;
  hmset_other = λ j k f h w ne. ground (arith, eq_iff k j);
  expireat_keeps = λ j k f e w late. refl;
  hmget_keeps = λ j k f names w. refl;
  random_keeps = λ j f w. refl;
  verify_keeps = λ j f jwt w. refl;
}

-- A token that is accepted expires at 10.
abbrev sent_expiry : Outcome (Result StandardClaims) × Both → ℤ
sent_expiry (returned (ok claims), w) = claims.expires_at
sent_expiry _ = pos 10

expiry_to_come :
    (jwt k : String) (h : List (String × String)) (claims : StandardClaims) (w w' : Both)
    → both_verifies jwt w ≡ (returned (ok claims), w')
    → InTime no_clock claims.expires_at (both_redis.hmset k h w').1
expiry_to_come jwt k h claims w w' e =
    subst (λ x. InTime no_clock x (both_redis.hmset k h w').1) (ap sent_expiry e)
      (λ some_time. refl)

abbrev both_lru : Lru Both
both_lru = record { add = λ k i w. (w.0, (k, i) ∷ w.1); get = λ k w. (view k w.1, w) }

abbrev both_view : String → Both → Option LocalItem
both_view k w = view k w.1

abbrev both_held : Held Both
both_held =
    held both_redis both_verifies both_fields no_clock both_redis-IsRedisHashes both_redis-IsSteady
      expiry_to_come

abbrev Any : Both → Type 0
Any w = Unit

both_lru-IsLayer :
    IsLayer both_lru both_view (redis_token_store both_redis both_verifies) both_held Any
unfolding lookup set_token get_token add_token
both_lru-IsLayer = record {
  get_view = λ k w. refl;
  add_self = λ k i w. rw eq_refl;
  add_other = λ j k i w ne. inl (ground (arith, eq_iff k j));
  get_keeps = λ j k w. refl;
  add_held = λ k i w u. refl;
  get_held = λ k w u. refl;
  add_Inv = λ k i w _. tt;
  get_Inv = λ k w _. tt;
  view_set = λ j t r w. refl;
  view_add = λ j r w. refl;
  view_get = λ j t w. refl;
}

abbrev empty : Both
empty = ([], [])

new_token_store-refines_example :
    (store : TokenStore Both) × (new_token_store
        (λ n. some both_lru)
        both_redis
        both_verifies
        (pos 0)
      ≡ some store)
    × IfSet both_held "T" response empty (store.set_token "T" response empty)
    × IfAdded both_held response empty (store.add_token response empty)
    × IfGot both_held "T" empty (store.get_token "T" empty)
    × Coherent both_view both_held Any (store.set_token "T" response empty).1
    × Coherent both_view both_held Any (store.add_token response empty).1
    × Coherent both_view both_held Any (store.get_token "T" empty).1
unfolding lookup
new_token_store-refines_example =
    new_token_store-refines both_redis both_verifies both_fields no_clock both_redis-IsRedisHashes
      both_redis-IsSteady expiry_to_come (λ n. some both_lru) both_lru both_view (pos 0) "T"
      response empty both_lru-IsLayer refl
      ((λ e. cc, ((λ e. omega arith), tt)), (((λ e. cc), ((λ e. omega arith), tt)), tt))
      (tt, λ t i e. cc)
