-- ===== src/Auth/TokenStore/Redis.antt =====
-- `RedisTokenStore` (auth/tokenstore.go) as a store of responses by token.
use text.Mathlib.TextLemmas.{append_cancel_left}
use servicegateway.Prelude.{
  ℕ, true, String, ◌≡◌, ◌≢◌, refl, sym, ◌∙◌, subst, [], ◌∷◌, List, Option, none, some, false,
  Bool-cases, inl, inr,
}
use servicegateway.Prelude.Int.{ℤ, pos, ltb_ℤ}
use servicegateway.Prelude.Lists.{All}
use servicegateway.Text.{join}
use servicegateway.Effects.{Outcome, returned, panicked, continue, Exec, pure}
use servicegateway.Auth.Types.{JwtResponse, Result, ok, err, StandardClaims}
use servicegateway.Auth.TokenStore.{
  RedisHashes, semicolon, key_of, response_of, expire, set_verified, with_token, add_random,
  set_token, get_token, add_token, redis_token_store, TokenStore, LocalItem, Lru, cache_decorator,
  bucket_size, new_token_store,
}
use servicegateway.Auth.TokenStore.RoundTrip.{
  IsRedisHashes, InTime, IsName, read_applications, read_applications-join,
}
use servicegateway.Auth.TokenStore.Contract.{
  Held, Same, Put, IfSet, IfAdded, IfGot, IsTokenMap, IsLayer, Coherent,
}
use servicegateway.Auth.TokenStore.Refinement.{cache_decorator-IsTokenMap}

-- Redis answers every command, and a command on one key leaves the other keys alone, `EXPIREAT` all of them for a
-- time that is still to come; the source of random tokens and the verification of tokens do not touch Redis.
pub record IsSteady {W : Type 0} (redis : RedisHashes W)
    (verify_token : String → Exec W (Result StandardClaims)) (fields : String → W → String → String)
    (clock : W → ℕ) : Type 0 where
  pub hmset_done : (k : String) (h : List (String × String)) (w : W) → (redis.hmset k h w).0 ≡ false
  pub expireat_done : (k : String) (e : ℤ) (w : W) → (redis.expireat k e w).0 ≡ false
  pub hmset_other :
      (j k f : String) (h : List (String × String)) (w : W)
      → j ≢ k
      → fields j (redis.hmset k h w).1 f ≡ fields j w f
  pub expireat_keeps :
      (j k f : String) (e : ℤ) (w : W)
      → ltb_ℤ (pos (clock w)) e ≡ true
      → fields j (redis.expireat k e w).1 f ≡ fields j w f
  pub hmget_keeps :
      (j k f : String) (names : List String) (w : W)
      → fields j (redis.hmget k names w).1 f ≡ fields j w f
  pub random_keeps : (j f : String) (w : W) → fields j (redis.random_token w).1 f ≡ fields j w f
  pub verify_keeps : (j f jwt : String) (w : W) → fields j (verify_token jwt w).1 f ≡ fields j w f

module _ {W : Type 0} (redis : RedisHashes W)
    (verify_token : String → Exec W (Result StandardClaims)) (fields : String → W → String → String)
    (clock : W → ℕ) (laws : IsRedisHashes redis fields clock)
    (steady : IsSteady redis verify_token fields clock)
    (in_time : (jwt k : String) (h : List (String × String)) (claims : StandardClaims) (w w' : W)
      → verify_token jwt w ≡ (returned (ok claims), w')
      → InTime clock claims.expires_at (redis.hmset k h w').1) where
  -- The response in the hash of a token.
  abbrev pub held : Held W
  held t w = record {
    jwt = fields (key_of t) w "jwt";
    allowed_applications = read_applications (fields (key_of t) w "applications");
  }

  abbrev pub Fits : JwtResponse → Type 0
  Fits r = All IsName r.allowed_applications

  same_at :
      (u : String) (w w' : W)
      → ((f : String) → fields (key_of u) w' f ≡ fields (key_of u) w f)
      → held u w' ≡ held u w
  same_at u w w' same = rw (same "jwt", same "applications") refl

  Same-fields : (w w' : W) → ((j f : String) → fields j w' f ≡ fields j w f) → Same held w w'
  Same-fields w w' same u = same_at u w w' (same (key_of u))

  -- The end of `SetToken` changes no field and returns the expiry.
  expire_done :
      (k : String) (exp : ℤ) (w : W)
      → InTime clock exp w
      → ((expire redis verify_token k exp w).0 ≡ returned (ok exp))
        × ((j f : String) → fields j (expire redis verify_token k exp w).1 f ≡ fields j w f)
  unfolding expire
  expire_done k exp w late = elim (Bool-cases (ltb_ℤ (pos 0) exp)) [
    | inl e ↦
        rw (e, steady.expireat_done k exp w)
          (refl, λ j f. steady.expireat_keeps j k f exp w (late e))
    | inr e ↦ rw e (refl, λ j f. refl)
  ]

  Put-IfSet :
      (t : String) (r : JwtResponse) (exp : ℤ) (w₀ : W) (o : Outcome (Result ℤ) × W)
      → o.0 ≡ returned (ok exp)
      → Put held t r w₀ o.1
      → IfSet held t r w₀ o
  Put-IfSet t r exp w₀ (o, w) e put = subst (λ x. IfSet held t r w₀ (x, w)) (sym e) put

  set_verified-IfSet :
      (t : String) (r : JwtResponse) (c : Result StandardClaims) (w₀ v w : W)
      → verify_token r.jwt v ≡ (returned c, w)
      → ((j f : String) → fields j w f ≡ fields j w₀ f)
      → Fits r
      → IfSet held t r w₀ (set_verified redis verify_token t r c w)
  unfolding set_verified
  set_verified-IfSet t r (err e) w₀ v w verified start fits = Same-fields w₀ w start
  set_verified-IfSet t r (ok claims) w₀ v w verified start fits =
      let apps = join semicolon r.allowed_applications in
      let h = ("jwt", r.jwt) ∷ ("token", t) ∷ ("applications", apps) ∷ [] in
      let w₁ = (redis.hmset (key_of t) h w).1 in
      let (done, keeps) =
        expire_done (key_of t) claims.expires_at w₁
          (in_time r.jwt (key_of t) h claims v w verified) in
      let (jwt, list) = laws.hmset_fields (key_of t) r.jwt t apps w in
      rw (steady.hmset_done (key_of t) h w) (
        Put-IfSet t r claims.expires_at w₀
          (expire redis verify_token (key_of t) claims.expires_at w₁) done
          (
            rw
                (
                  keeps (key_of t) "jwt",
                  keeps (key_of t) "applications",
                  jwt,
                  list,
                  read_applications-join r.allowed_applications fits,
                )
                refl,
            λ u ne. same_at u w₀ _ (λ f.
                keeps (key_of u) f
                ∙ steady.hmset_other (key_of u) (key_of t) f h w
                    (λ e. ne (append_cancel_left "token_" u t e))
                ∙ start (key_of u) f),
          ))

  set_token-IfSet :
      (t : String) (r : JwtResponse) (w₀ w : W)
      → ((j f : String) → fields j w f ≡ fields j w₀ f)
      → Fits r
      → IfSet held t r w₀ (set_token redis verify_token t r w)
  unfolding set_token
  set_token-IfSet t r w₀ w start fits =
      go (verify_token r.jwt w) refl (λ j f. steady.verify_keeps j f r.jwt w ∙ start j f)
    where
      go :
          (o : Outcome (Result StandardClaims) × W)
          → verify_token r.jwt w ≡ o
          → ((j f : String) → fields j o.1 f ≡ fields j w₀ f)
          → IfSet held t r w₀ (continue o.0 (set_verified redis verify_token t r) o.1)
      go (returned c, w') verified keeps = set_verified-IfSet t r c w₀ w w' verified keeps fits
      go (panicked, w') verified keeps = Same-fields w₀ w' keeps

  -- What `AddToken` makes of the result of `SetToken`.
  named-IfAdded :
      (t : String) (r : JwtResponse) (w₀ : W) (o : Outcome (Result ℤ) × W)
      → IfSet held t r w₀ o
      → IfAdded held r w₀ (continue o.0 (λ x. pure (with_token redis verify_token t x)) o.1)
  named-IfAdded t r w₀ (returned (ok exp), w) put = put
  named-IfAdded t r w₀ (returned (err e), w) same = same
  named-IfAdded t r w₀ (panicked, w) same = same

  add_random-IfAdded :
      (r : JwtResponse) (o : Option String) (w₀ w : W)
      → ((j f : String) → fields j w f ≡ fields j w₀ f)
      → Fits r
      → IfAdded held r w₀ (add_random redis verify_token r o w)
  unfolding add_random
  add_random-IfAdded r none w₀ w start fits = Same-fields w₀ w start
  add_random-IfAdded r (some t) w₀ w start fits =
      named-IfAdded t r w₀ _ (set_token-IfSet t r w₀ w start fits)

  get_token-IfGot : (t : String) (w : W) → IfGot held t w (get_token redis verify_token t w)
  unfolding get_token response_of
  get_token-IfGot t w = rw (laws.hmget_strings (key_of t) ("jwt" ∷ "applications" ∷ []) w) (
    Same-fields w _ (λ j f. steady.hmget_keeps j (key_of t) f ("jwt" ∷ "applications" ∷ []) w),
    refl,
  )

  -- `RedisTokenStore` keeps the contract of a store for responses whose applications have names that are not empty
  -- and hold no semicolon, while Redis answers.
  redis_token_store-IsTokenMap :
      IsTokenMap (redis_token_store redis verify_token) held (λ w. Unit) Fits
  unfolding add_token add_random
  redis_token_store-IsTokenMap = record {
    set_held = λ t r w fits _. set_token-IfSet t r w w (λ j f. refl) fits;
    set_Inv = λ t r w fits _. tt;
    add_held = λ r w fits _.
        add_random-IfAdded r (redis.random_token w).0 w (redis.random_token w).1
          (λ j f. steady.random_keeps j f w) fits;
    add_Inv = λ r w fits _. tt;
    get_held = λ t w _. get_token-IfGot t w;
    get_Inv = λ t w _. tt;
  }

  -- `lru.New` gives a cache whose laws hold, Redis answers, and the expiry of a token that is accepted, if it has one,
  -- is still to come by the clock of Redis when `EXPIREAT` is sent; no key expires during a call. Then `NewTokenStore` gives a store, and in every world in which its
  -- cache agrees with Redis, which every call keeps: a response whose applications have
  -- names that are not empty and hold no semicolon is held under its token once `SetToken` or `AddToken` has
  -- returned without an error, with no other token changed; a call that fails changes no token; and `GetToken`
  -- changes none and returns an error or the response that is held.
  pub new_token_store-refines :
      (new_lru : ℤ → Option (Lru W)) (lru : Lru W) (view : String → W → Option LocalItem) (size : ℤ)
      (t : String) (r : JwtResponse) (w : W)
      → IsLayer lru view (redis_token_store redis verify_token) held (λ w. Unit)
      → new_lru (bucket_size size) ≡ some lru
      → Fits r
      → Coherent view held (λ w. Unit) w
      → (store : TokenStore W) × (new_token_store new_lru redis verify_token size ≡ some store)
        × IfSet held t r w (store.set_token t r w)
        × IfAdded held r w (store.add_token r w)
        × IfGot held t w (store.get_token t w)
        × Coherent view held (λ w. Unit) (store.set_token t r w).1
        × Coherent view held (λ w. Unit) (store.add_token r w).1
        × Coherent view held (λ w. Unit) (store.get_token t w).1
  unfolding new_token_store
  new_token_store-refines new_lru lru view size t r w layer made fits agreeing =
      let laws =
        cache_decorator-IsTokenMap lru view (redis_token_store redis verify_token) held (λ w. Unit)
          layer Fits redis_token_store-IsTokenMap in
      (
        cache_decorator lru (redis_token_store redis verify_token),
        rw made refl,
        laws.set_held t r w fits agreeing,
        laws.add_held r w fits agreeing,
        laws.get_held t w agreeing,
        laws.set_Inv t r w fits agreeing,
        laws.add_Inv r w fits agreeing,
        laws.get_Inv t w agreeing,
      )
