-- ===== src/Auth/TokenStore/LocalCache.antt =====
-- The local cache in front of the store.
use servicegateway.Prelude.{String, ◌≡◌, inl, inr, Option, some}
use servicegateway.Prelude.Int.{ℤ}
use servicegateway.Effects.{returned, Outcome-cases}
use servicegateway.Auth.Types.{JwtResponse, Result, ok, err}
use servicegateway.Auth.TokenStore.{
  TokenStore, LocalItem, cached, CacheRecord, Lru, remember, remember_added, decorated_set_token,
  decorated_add_token, decorated_get_token,
}

-- What the decorator relies on of golang-lru: `view` is what `Get` would find, and what was added
-- last is found.
pub record IsLru {W : Type 0} (lru : Lru W) (view : String → W → Option LocalItem) : Type 0 where
  pub get_view : (k : String) (w : W) → (lru.get k w).0 ≡ view k w
  pub add_self : (k : String) (i : LocalItem) (w : W) → view k (lru.add k i w) ≡ some i

module _ {W : Type 0} (lru : Lru W) (wrapped : TokenStore W) (view : String → W → Option LocalItem)
    (laws : IsLru lru view) where
  pub decorated_get_token-hit :
      (token : String) (c : CacheRecord) (w : W)
      → view token w ≡ some (cached c)
      → decorated_get_token lru wrapped token w ≡ (returned (ok c.token), (lru.get token w).1)
  unfolding decorated_get_token
  decorated_get_token-hit token c w e = rw (laws.get_view token w, e)

  view-remember :
      (token : String) (r : JwtResponse) (x : Result ℤ) (exp : ℤ) (w w' : W)
      → remember lru wrapped token r x w ≡ (returned (ok exp), w')
      → view token w' ≡ some (cached (record { token = r; exp = exp }))
  unfolding remember
  view-remember token r (err x) exp w w' e = cc e
  view-remember token r (ok exp') exp w w' e =
      cc (e, laws.add_self token (cached (record { token = r; exp = exp' })) w)

  view-set_token :
      (token : String) (r : JwtResponse) (exp : ℤ) (w w' : W)
      → decorated_set_token lru wrapped token r w ≡ (returned (ok exp), w')
      → view token w' ≡ some (cached (record { token = r; exp = exp }))
  unfolding decorated_set_token
  view-set_token token r exp w w' e = elim (Outcome-cases (wrapped.set_token token r w).0) [
    | inl (x, v) ↦ view-remember token r x exp (wrapped.set_token token r w).1 w' (rw v at e)
    | inr v ↦ cc (rw v at e)
  ]

  view-remember_added :
      (token : String) (r : JwtResponse) (x : Result (String × ℤ)) (exp : ℤ) (w w' : W)
      → remember_added lru wrapped r x w ≡ (returned (ok (token, exp)), w')
      → view token w' ≡ some (cached (record { token = r; exp = exp }))
  unfolding remember_added
  view-remember_added token r (err x) exp w w' e = cc e
  view-remember_added token r (ok (token', exp')) exp w w' e =
      cc (e, laws.add_self token' (cached (record { token = r; exp = exp' })) w)

  pub view-add_token :
      (token : String) (r : JwtResponse) (exp : ℤ) (w w' : W)
      → decorated_add_token lru wrapped r w ≡ (returned (ok (token, exp)), w')
      → view token w' ≡ some (cached (record { token = r; exp = exp }))
  unfolding decorated_add_token
  view-add_token token r exp w w' e = elim (Outcome-cases (wrapped.add_token r w).0) [
    | inl (x, v) ↦ view-remember_added token r x exp (wrapped.add_token r w).1 w' (rw v at e)
    | inr v ↦ cc (rw v at e)
  ]

  -- After `SetToken` has returned without an error, `GetToken` of the same token returns the
  -- response that was set, and the store behind the cache is not asked: the world only sees the
  -- look-up in the cache.
  pub decorated_get_token-set_token :
      (token : String) (r : JwtResponse) (exp : ℤ) (w w' : W)
      → decorated_set_token lru wrapped token r w ≡ (returned (ok exp), w')
      → decorated_get_token lru wrapped token w' ≡ (returned (ok r), (lru.get token w').1)
  decorated_get_token-set_token token r exp w w' e =
      decorated_get_token-hit token (record { token = r; exp = exp }) w'
        (view-set_token token r exp w w' e)

  -- After `AddToken` has returned a token, `GetToken` of it returns the response that was added, and
  -- the store behind the cache is not asked.
  pub decorated_get_token-add_token :
      (token : String) (r : JwtResponse) (exp : ℤ) (w w' : W)
      → decorated_add_token lru wrapped r w ≡ (returned (ok (token, exp)), w')
      → decorated_get_token lru wrapped token w' ≡ (returned (ok r), (lru.get token w').1)
  decorated_get_token-add_token token r exp w w' e =
      decorated_get_token-hit token (record { token = r; exp = exp }) w'
        (view-add_token token r exp w w' e)
