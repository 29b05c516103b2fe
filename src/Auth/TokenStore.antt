-- ===== src/Auth/TokenStore.antt =====
-- auth/tokenstore.go: tokens in Redis, behind a local LRU cache. Redis, the LRU cache and the source
-- of random tokens are parameters.
pub mod RoundTrip
pub mod LocalCache
pub mod Contract
pub mod Refinement
pub mod Redis
mod Tests
use Prim.Native.Char.{Char}
use servicegateway.Prelude.{
  String, ◌<>◌, Bool, true, false, List, [], ◌∷◌, Option, none, some, ◌==◌, ◌||◌, if◌then◌else◌,
}
use servicegateway.Prelude.Int.{ℤ, pos, ltb_ℤ}
use servicegateway.Text.{split, join, of_code}
use servicegateway.Effects.{Exec, pure, call, panic, ◌>>=◌, ◌>>◌}
use servicegateway.Auth.Types.{JwtResponse, no_token_error, plain, Result, ok, err, StandardClaims}

-- `MappedToken`
pub record MappedToken : Type 0 where
  pub jwt : String
  pub token : String

-- `TokenStore`. `get_all_tokens` returns what the channel of the source yields, in order.
pub record TokenStore (W : Type 0) : Type 0 where
  pub add_token : JwtResponse → Exec W (Result (String × ℤ))
  pub set_token : String → JwtResponse → Exec W (Result ℤ)
  pub get_token : String → Exec W (Result JwtResponse)
  pub get_all_tokens : Exec W (Result (List MappedToken))

-- The reply of `HMGET` through `redis.Strings`: the values, a missing field as "", or `ErrNil`, or
-- another error.
pub data Values : Type 0 where
  strings : List String → Values
  err_nil : Values
  redis_error : String → Values

-- The commands `HMSET`, `EXPIREAT`, `HMGET`, `KEYS` and `HGETALL`, with `true` or `none` for an
-- error, and the base32 text of 32 random bytes.
pub record RedisHashes (W : Type 0) : Type 0 where
  pub hmset : String → List (String × String) → W → Bool × W
  pub expireat : String → ℤ → W → Bool × W
  pub hmget : String → List String → W → Values × W
  pub keys : String → W → Option (List String) × W
  pub hgetall : String → W → List (String × String) × W
  pub random_token : W → Option String × W

abbrev pub semicolon : Char
semicolon = of_code b';'

abbrev pub key_of : String → String
key_of token = "token_" <> token

abbrev pub redis_failed : {A : Type 0} → Result A
redis_failed = err (plain "redis")

-- What `GetToken` makes of the reply; `results[0]` and `results[1]` panic if they are not there.
pub response_of : {W : Type 0} → Values → Exec W (Result JwtResponse)
unfolding split
response_of err_nil = pure (err no_token_error)
response_of (redis_error s) = pure (err (plain s))
response_of (strings (jwt ∷ apps ∷ _)) =
    pure
      (ok (record { jwt = jwt; allowed_applications = if apps == "" then [] else split b';' apps }))
response_of (strings _) = panic

-- The value of a field in the reply of `HGETALL`; "" if it is missing.
abbrev pub value_of : String → List (String × String) → String
value_of k [] = ""
value_of k ((j, v) ∷ m) = if j == k then v else value_of k m

module _ {W : Type 0} (redis : RedisHashes W)
    (verify_token : String → Exec W (Result StandardClaims)) where
  -- The end of `SetToken`: the key expires with the token.
  pub expire : String → ℤ → Exec W (Result ℤ)
  expire key exp =
      let expiring : Exec W (Result ℤ) = call (redis.expireat key exp) >>= λ failed.
      pure (if failed then redis_failed else ok exp) in
      if ltb_ℤ (pos 0) exp then expiring else pure (ok exp)

  abbrev pub after_hmset : String → ℤ → Bool → Exec W (Result ℤ)
  after_hmset key exp true = pure redis_failed
  after_hmset key exp false = expire key exp

  pub set_verified : String → JwtResponse → Result StandardClaims → Exec W (Result ℤ)
  unfolding expire join
  set_verified token response (err e) = pure (err (plain "JWT is invalid"))
  set_verified token response (ok claims) =
      call (
        redis.hmset (key_of token) (
          ("jwt", response.jwt)
          ∷ ("token", token)
          ∷ ("applications", join semicolon response.allowed_applications)
          ∷ []))
      >>= after_hmset (key_of token) claims.expires_at

  -- `RedisTokenStore.SetToken`
  pub set_token : String → JwtResponse → Exec W (Result ℤ)
  unfolding set_verified
  set_token token response = verify_token response.jwt >>= set_verified token response

  abbrev pub with_token : String → Result ℤ → Result (String × ℤ)
  with_token token (err e) = err e
  with_token token (ok exp) = ok (token, exp)

  pub add_random : JwtResponse → Option String → Exec W (Result (String × ℤ))
  add_random response none = pure (err (plain "rand"))
  add_random response (some token) = set_token token response >>= λ r. pure (with_token token r)

  -- `RedisTokenStore.AddToken`
  abbrev pub add_token : JwtResponse → Exec W (Result (String × ℤ))
  unfolding set_token add_random
  add_token response = call redis.random_token >>= add_random response

  -- `RedisTokenStore.GetToken`
  pub get_token : String → Exec W (Result JwtResponse)
  unfolding response_of
  get_token token = call (redis.hmget (key_of token) ("jwt" ∷ "applications" ∷ [])) >>= response_of

  -- The loop of the goroutine in `GetAllTokens`.
  abbrev pub read_tokens : List String → Exec W (List MappedToken)
  read_tokens [] = pure []
  read_tokens (key ∷ keys) = call (redis.hgetall key) >>= λ values.
      (read_tokens keys >>= λ rest.
      pure (record { jwt = value_of "jwt" values; token = value_of "token" values } ∷ rest))

  abbrev pub all_tokens_of : Option (List String) → Exec W (Result (List MappedToken))
  all_tokens_of none = pure redis_failed
  all_tokens_of (some keys) = read_tokens keys >>= λ tokens. pure (ok tokens)

  -- `RedisTokenStore.GetAllTokens`
  abbrev pub get_all_tokens : Exec W (Result (List MappedToken))
  get_all_tokens = call (redis.keys "token_*") >>= all_tokens_of

  -- `RedisTokenStore` as a `TokenStore`.
  abbrev pub redis_token_store : TokenStore W
  redis_token_store = record {
    add_token = add_token;
    set_token = set_token;
    get_token = get_token;
    get_all_tokens = get_all_tokens;
  }

-- `CacheRecord`
pub record CacheRecord : Type 0 where
  pub token : JwtResponse
  pub exp : ℤ

-- The types of value that `CacheDecorator.GetToken` tells apart in the local cache.
pub data LocalItem : Type 0 where
  text : String → LocalItem
  cached : CacheRecord → LocalItem
  unknown : LocalItem

-- The LRU cache of golang-lru.
pub record Lru (W : Type 0) : Type 0 where
  pub add : String → LocalItem → W → W
  pub get : String → W → Option LocalItem × W

module _ {W : Type 0} (lru : Lru W) (wrapped : TokenStore W) where
  unfoldable pub remember : String → JwtResponse → Result ℤ → Exec W (Result ℤ)
  remember token response (err e) w = pure (err e) w
  remember token response (ok exp) w =
      pure (ok exp) (lru.add token (cached (record { token = response; exp = exp })) w)

  -- `CacheDecorator.SetToken`
  unfoldable pub decorated_set_token : String → JwtResponse → Exec W (Result ℤ)
  unfolding remember
  decorated_set_token token response = wrapped.set_token token response >>= remember token response

  unfoldable pub remember_added : JwtResponse → Result (String × ℤ) → Exec W (Result (String × ℤ))
  remember_added response (err e) w = pure (err e) w
  remember_added response (ok (token, exp)) w =
      pure (ok (token, exp)) (lru.add token (cached (record { token = response; exp = exp })) w)

  -- `CacheDecorator.AddToken`
  unfoldable pub decorated_add_token : JwtResponse → Exec W (Result (String × ℤ))
  unfolding remember_added
  decorated_add_token response = wrapped.add_token response >>= remember_added response

  pub from_local : String → Option LocalItem → Exec W (Result JwtResponse)
  from_local token none = wrapped.get_token token
  from_local token (some (text t)) = pure (ok (record { jwt = t; allowed_applications = [] }))
  from_local token (some (cached r)) = pure (ok r.token)
  from_local token (some unknown) = pure (err (plain "invalid data type for token"))

  -- `CacheDecorator.GetToken`
  pub decorated_get_token : String → Exec W (Result JwtResponse)
  unfolding from_local
  decorated_get_token token = call (lru.get token) >>= from_local token

  -- `CacheDecorator` as a `TokenStore`.
  abbrev pub cache_decorator : TokenStore W
  cache_decorator = record {
    add_token = decorated_add_token;
    set_token = decorated_set_token;
    get_token = decorated_get_token;
    get_all_tokens = wrapped.get_all_tokens;
  }

-- `bucketSize` in `NewTokenStore`
abbrev pub bucket_size : ℤ → ℤ
bucket_size size = if ltb_ℤ (pos 0) size || ltb_ℤ size (pos 0) then size else pos 128

abbrev pub layered :
    {W : Type 0}
    → RedisHashes W
    → (String → Exec W (Result StandardClaims))
    → Option (Lru W)
    → Option (TokenStore W)
layered redis verify_token none = none
layered redis verify_token (some lru) =
    some (cache_decorator lru (redis_token_store redis verify_token))

-- `NewTokenStore`, where `new_lru` is `lru.New`.
unfoldable pub new_token_store :
    {W : Type 0}
    → (ℤ → Option (Lru W))
    → RedisHashes W
    → (String → Exec W (Result StandardClaims))
    → ℤ
    → Option (TokenStore W)
new_token_store new_lru redis verify_token size =
    layered redis verify_token (new_lru (bucket_size size))
