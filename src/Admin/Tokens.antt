-- ===== src/Admin/Tokens.antt =====
-- What `PUT /tokens/<token>` (admin/server.go) stores.
use servicegateway.Prelude.{
  String, ◌≡◌, refl, ◌∙◌, ap, subst, inl, inr, List, [], ◌∷◌, Option, none, some, arith, ◌==◌,
  eq_iff, Bool-cases,
}
use servicegateway.Prelude.Int.{ℤ}
use servicegateway.Effects.{Outcome, returned, panicked, Exec, pure, continue}
use servicegateway.Http.{Request, Params, Event}
use servicegateway.Http.Header.{get}
use servicegateway.Http.Recorder.{sent}
use servicegateway.Auth.Types.{Error, Result, ok, err, StandardClaims}
use servicegateway.Auth.TokenStore.{
  TokenStore, LocalItem, Lru, decorated_get_token, cache_decorator,
}
use servicegateway.Auth.TokenStore.LocalCache.{IsLru, decorated_get_token-set_token}
use servicegateway.Admin.{
  AdminEnv, write_error, json_type, token_param, response_for, after_set, invalid, after_verify,
  after_read, with_jwt, put_token,
}

-- What the world is like if an answer has the status 200.
abbrev IfGood : {W : Type 0} → (W → Type 0) → Outcome (List Event) × W → Type 0
IfGood Q (returned events, w) = (sent (json_type ∷ events)).code ≡ 200 → Q w
IfGood Q (panicked, w) = Unit

module _ {W : Type 0} (env : AdminEnv W) (store : TokenStore W) where
  -- The JWT of a request that passes the checks, in the world after its verification.
  abbrev pub Verified : Request → String → W → Type 0
  Verified req jwt w =
      (get "Content-Type" req.header ≡ "application/jwt")
      × (env.read_body req ≡ some jwt)
      × (c : StandardClaims) × (w₀ : W) × (env.verify_token jwt w₀ ≡ (returned (ok c), w))

  error-bad : (Q : W → Type 0) (msg : String) (w : W) → IfGood Q (returned (write_error msg), w)
  unfolding sent
  error-bad Q msg w good = absurd (ground (arith, good))

  invalid-bad : (Q : W → Type 0) (e : Error) (w : W) → IfGood Q (returned (invalid env store e), w)
  unfolding sent
  invalid-bad Q e w good = absurd (ground (arith, good))

  after_set-good :
      (Q : W → Type 0) (t : String) (r : Result ℤ) (w : W)
      → ((exp : ℤ) → r ≡ ok exp → Q w)
      → IfGood Q (returned (after_set env store t r), w)
  unfolding sent
  after_set-good Q t (ok exp) w set good = set exp refl
  after_set-good Q t (err e) w set good = absurd (ground (arith, good))

  -- The checks before the JWT is stored.
  after_read-good :
      (Q : W → Type 0) (req : Request) (storing : String → Exec W (List Event)) (o : Option String)
      (w : W)
      → get "Content-Type" req.header ≡ "application/jwt"
      → env.read_body req ≡ o
      → ((jwt : String) (w : W) → Verified req jwt w → IfGood Q (storing jwt w))
      → IfGood Q (after_read env store storing o w)
  after_read-good Q req storing none w typed read each = error-bad Q "could not read request body" w
  after_read-good Q req storing (some jwt) w typed read each = go (env.verify_token jwt w) refl
    where
      go :
          (o : Outcome (Result StandardClaims) × W)
          → env.verify_token jwt w ≡ o
          → IfGood Q (continue o.0 (after_verify env store (storing jwt)) o.1)
      go (returned (ok c), w') e = each jwt w' (typed, read, c, w, e)
      go (returned (err x), w') e = invalid-bad Q x w'
      go (panicked, w') e = tt

  abbrev IfFine : (W → Type 0) → Outcome (List Event) × W → Type 0
  IfFine Q (returned events, w) = (sent events).code ≡ 200 → Q w
  IfFine Q (panicked, w) = Unit

  with_jwt-good :
      (Q : W → Type 0) (req : Request) (storing : String → Exec W (List Event)) (w : W)
      → ((jwt : String) (w : W) → Verified req jwt w → IfGood Q (storing jwt w))
      → IfFine Q (with_jwt env store storing req w)
  unfolding with_jwt sent
  with_jwt-good Q req storing w each =
      elim (Bool-cases (get "Content-Type" req.header == "application/jwt")) [
        | inl typed ↦ rw typed (
            headed (after_read env store storing (env.read_body req) w) (
              after_read-good Q req storing (env.read_body req) w ((eq_iff _ _).0 typed) refl each))
        | inr other ↦ rw other (λ good. absurd (ground (arith, good)))
      ]
    where
      headed :
          (o : Outcome (List Event) × W)
          → IfGood Q o
          → IfFine Q (continue o.0 (λ events. pure (json_type ∷ events)) o.1)
      headed (returned events, w) good = good
      headed (panicked, w) good = tt

module _ {W : Type 0} (env : AdminEnv W) (lru : Lru W) (wrapped : TokenStore W)
    (view : String → W → Option LocalItem) (laws : IsLru lru view) where
  -- `PUT` answers with the status 200. Then the body's type was `application/jwt`, its JWT was verified, and
  -- `GetToken` of the token in the URL now returns that JWT, for all applications, from the local cache.
  pub put_token-get_token :
      (req : Request) (params : Params) (events : List Event) (w w' : W)
      → put_token env (cache_decorator lru wrapped) req params w ≡ (returned events, w')
      → (sent events).code ≡ 200
      → (jwt : String) × (w₁ : W) × Verified env (cache_decorator lru wrapped) req jwt w₁
        × (decorated_get_token lru wrapped (token_param params) w' ≡ (
          returned (ok (record { jwt = jwt; allowed_applications = [] })),
          (lru.get (token_param params) w').1,
        ))
  unfolding put_token
  put_token-get_token req params events w w' done =
      subst (IfFine env store Found) done (with_jwt-good env store Found req storing w each)
    where
      store : TokenStore W
      store = cache_decorator lru wrapped

      token : String
      token = token_param params

      Found : W → Type 0
      Found w' =
          (jwt : String) × (w₁ : W) × Verified env store req jwt w₁
          × (decorated_get_token lru wrapped token w' ≡ (
            returned (ok (record { jwt = jwt; allowed_applications = [] })),
            (lru.get token w').1,
          ))

      storing : String → Exec W (List Event)
      storing jwt w =
          continue (store.set_token token (response_for env store jwt) w).0
            (λ r. pure (after_set env store token r))
            (store.set_token token (response_for env store jwt) w).1

      each : (jwt : String) (w : W) → Verified env store req jwt w → IfGood Found (storing jwt w)
      each jwt w verified = go (store.set_token token (response_for env store jwt) w) refl
        where
          go :
              (o : Outcome (Result ℤ) × W)
              → store.set_token token (response_for env store jwt) w ≡ o
              → IfGood Found (continue o.0 (λ r. pure (after_set env store token r)) o.1)
          go (returned r, w') e = after_set-good env store Found token r w' (λ exp is. (
            jwt,
            w,
            verified,
            decorated_get_token-set_token lru wrapped view laws token (response_for env store jwt)
                exp w w' (e ∙ ap (λ r. (returned r, w')) is),
          ))
          go (panicked, w') e = tt
