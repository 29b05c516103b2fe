-- ===== src/Auth/TokenStore/RoundTrip.antt =====
-- `SetToken` and then `GetToken` of `RedisTokenStore` (auth/tokenstore.go).
use Prim.Native.Char.{code}
use Prim.Native.String.{[], ◌∷◌}
use text.Mathlib.TextLemmas.{nil-append, cons-append, append-ne-nil_of_right_ne-nil, cons-ne-nil}
use servicegateway.Prelude.{
  ℕ, true, ◌≤◌, String, ◌<>◌, ◌≡◌, ◌≢◌, refl, sym, ◌∙◌, ap, subst, List, [], ◌∷◌, map, arith, ◌==◌,
  eq_iff, Bool-cases, inl, inr, if◌then◌else◌,
}
use servicegateway.Prelude.Lists.{All}
use servicegateway.Prelude.Int.{ℤ, pos, ltb_ℤ}
use servicegateway.Text.{split, join, of_code}
use servicegateway.Effects.{Outcome, returned, Exec, Outcome-cases}
use servicegateway.Auth.Types.{JwtResponse, Result, ok, err, StandardClaims}
use servicegateway.Auth.TokenStore.{
  RedisHashes, strings, semicolon, key_of, response_of, expire, set_verified, set_token, get_token,
}

-- The text holds no separator.
abbrev pub Lacks : ℕ → String → Type 0
Lacks sep [] = Unit
Lacks sep (c ∷ s) = (code c ≢ sep) × Lacks sep s

split_self : (s : String) → Lacks b';' s → split b';' s ≡ s ∷ []
unfolding split
split_self [] h = refl
split_self (c ∷ s) (h, hs) = ground (arith, split_self s hs)

split-append :
    (s rest : String) → Lacks b';' s → split b';' (s <> (semicolon ∷ rest)) ≡ s ∷ split b';' rest
unfolding split of_code
split-append [] rest h = rw nil-append
split-append (c ∷ s) rest (h, hs) = rw cons-append (ground (arith, split-append s rest hs))

-- `strings.Split` undoes `strings.Join` on parts that lack the separator, of which there is one.
pub split-join :
    (part : String) (parts : List String)
    → All (Lacks b';') (part ∷ parts)
    → split b';' (join semicolon (part ∷ parts)) ≡ part ∷ parts
unfolding join
split-join part [] (h, _) = split_self part h
split-join part (other ∷ parts) (h, hs) =
    split-append part (join semicolon (other ∷ parts)) h
    ∙ ap (λ ps. part ∷ ps) (split-join other parts hs)

-- An application's name that survives the store: not empty, and without a semicolon.
abbrev pub IsName : String → Type 0
IsName s = (s ≢ "") × Lacks b';' s

join-ne-nil : (part : String) (parts : List String) → part ≢ "" → join semicolon (part ∷ parts) ≢ ""
unfolding join
join-ne-nil part [] h = h
join-ne-nil part (other ∷ parts) h =
    append-ne-nil_of_right_ne-nil part (cons-ne-nil semicolon (join semicolon (other ∷ parts)))

Lacks-names : (parts : List String) → All IsName parts → All (Lacks b';') parts
Lacks-names [] h = tt
Lacks-names (p ∷ ps) ((_, h), hs) = (h, Lacks-names ps hs)

-- `GetToken`'s reading of the joined applications.
abbrev pub read_applications : String → List String
read_applications apps = if apps == "" then [] else split b';' apps

pub read_applications-join :
    (parts : List String) → All IsName parts → read_applications (join semicolon parts) ≡ parts
read_applications-join [] h = unfold join in refl
read_applications-join (part ∷ parts) h = elim (Bool-cases (join semicolon (part ∷ parts) == "")) [
  | inl e ↦ absurd (join-ne-nil part parts h.0.0 ((eq_iff _ "").0 e))
  | inr e ↦ rw e (split-join part parts (Lacks-names (part ∷ parts) h))
]

-- By the clock of Redis, in seconds, an expiry is still to come, or is none.
abbrev pub InTime : {W : Type 0} → (W → ℕ) → ℤ → W → Type 0
InTime clock exp w = ltb_ℤ (pos 0) exp ≡ true → ltb_ℤ (pos (clock w)) exp ≡ true

-- What the store relies on of Redis, while it answers: `fields` are the values of a hash, "" for a missing one, and
-- `clock` is its time. `HMSET` writes its fields, `EXPIREAT` changes none for a time that is still to come, and
-- `HMGET` reads what is there. The time does not go back.
pub record IsRedisHashes {W : Type 0} (redis : RedisHashes W)
    (fields : String → W → String → String) (clock : W → ℕ) : Type 0 where
  pub hmset_fields :
      (k jwt token apps : String) (w : W)
      → (fields k
            (redis.hmset k (("jwt", jwt) ∷ ("token", token) ∷ ("applications", apps) ∷ []) w).1
            "jwt"
          ≡ jwt)
        × (fields k
              (redis.hmset k (("jwt", jwt) ∷ ("token", token) ∷ ("applications", apps) ∷ []) w).1
              "applications"
            ≡ apps)
  pub expireat_fields :
      (k f : String) (e : ℤ) (w : W)
      → ltb_ℤ (pos (clock w)) e ≡ true
      → fields k (redis.expireat k e w).1 f ≡ fields k w f
  pub expireat_clock : (k : String) (e : ℤ) (w : W) → clock w ≤ clock (redis.expireat k e w).1
  pub hmget_strings :
      (k : String) (names : List String) (w : W)
      → (redis.hmget k names w).0 ≡ strings (map (fields k w) names)

abbrev expiry_of : {W : Type 0} → Outcome (Result ℤ) × W → ℤ
expiry_of (returned (ok exp), w) = exp
expiry_of _ = pos 0

module _ {W : Type 0} (redis : RedisHashes W)
    (verify_token : String → Exec W (Result StandardClaims)) (fields : String → W → String → String)
    (clock : W → ℕ) (laws : IsRedisHashes redis fields clock) where
  -- What is still to come at the end of `SetToken` is so when it sends `EXPIREAT`.
  InTime-expire :
      (k : String) (exp : ℤ) (w : W)
      → InTime clock exp (expire redis verify_token k exp w).1
      → InTime clock exp w
  unfolding expire
  InTime-expire k exp w late some_time =
      let at_end = rw some_time at late in
      let later = laws.expireat_clock k exp w in ground (arith, at_end)

  -- `SetToken` returns the expiry that it has sent.
  expire-sent :
      (k : String) (sent exp : ℤ) (w w' : W)
      → expire redis verify_token k sent w ≡ (returned (ok exp), w')
      → sent ≡ exp
  unfolding expire
  expire-sent k sent exp w w' done = elim (Bool-cases (ltb_ℤ (pos 0) sent)) [
    | inl e ↦ elim (Bool-cases (redis.expireat k sent w).0) [
      | inl failed ↦ cc (rw (e, failed) at done)
      | inr fine ↦ ap expiry_of (rw (e, fine) at done)
    ]
    | inr e ↦ ap expiry_of (rw e at done)
  ]

  InTime-done :
      (k : String) (sent exp : ℤ) (w w' : W)
      → expire redis verify_token k sent w ≡ (returned (ok exp), w')
      → InTime clock exp w'
      → InTime clock sent (expire redis verify_token k sent w).1
  InTime-done k sent exp w w' done late =
      subst (λ x. InTime clock x (expire redis verify_token k sent w).1)
        (sym (expire-sent k sent exp w w' done))
        (subst (InTime clock exp) (sym (ap (λ p. p.1) done)) late)

  fields-expire :
      (k f : String) (exp : ℤ) (w : W)
      → InTime clock exp w
      → fields k (expire redis verify_token k exp w).1 f ≡ fields k w f
  unfolding expire
  fields-expire k f exp w late = elim (Bool-cases (ltb_ℤ (pos 0) exp)) [
    | inl e ↦ rw e (laws.expireat_fields k f exp w (late e))
    | inr e ↦ rw e
  ]

  -- The fields of the hash hold the response.
  record Holds (token : String) (r : JwtResponse) (w : W) : Type 0 where
    jwt : fields (key_of token) w "jwt" ≡ r.jwt
    apps : fields (key_of token) w "applications" ≡ join semicolon r.allowed_applications

  set_verified-Holds :
      (token : String) (r : JwtResponse) (claims : StandardClaims) (exp : ℤ) (w w' : W)
      → set_verified redis verify_token token r (ok claims) w ≡ (returned (ok exp), w')
      → InTime clock exp w'
      → Holds token r w'
  unfolding set_verified
  set_verified-Holds token r claims exp w w' e late =
      let k = key_of token in
      let apps = join semicolon r.allowed_applications in
      let h = redis.hmset k (("jwt", r.jwt) ∷ ("token", token) ∷ ("applications", apps) ∷ []) w in
      let (jwt, list) = laws.hmset_fields k r.jwt token apps w in
      elim (Bool-cases h.0) [
        | inl failed ↦ cc (rw failed at e)
        | inr fine ↦
            let done = rw fine at e in
            let to_come =
              InTime-expire k claims.expires_at h.1
                (InTime-done k claims.expires_at exp h.1 w' done late) in
            subst (Holds token r) (ap (λ p. p.1) done) (record {
              jwt = fields-expire k "jwt" claims.expires_at h.1 to_come ∙ jwt;
              apps = fields-expire k "applications" claims.expires_at h.1 to_come ∙ list;
            })
      ]

  set_token-Holds :
      (token : String) (r : JwtResponse) (exp : ℤ) (w w' : W)
      → set_token redis verify_token token r w ≡ (returned (ok exp), w')
      → InTime clock exp w'
      → Holds token r w'
  unfolding set_token set_verified
  set_token-Holds token r exp w w' e late = elim (Outcome-cases (verify_token r.jwt w).0) [
    | inl (ok claims, v) ↦
        set_verified-Holds token r claims exp (verify_token r.jwt w).1 w' (rw v at e) late
    | inl (err x, v) ↦ cc (rw v at e)
    | inr v ↦ cc (rw v at e)
  ]

  -- After `SetToken` has returned without an error for a response whose applications have names
  -- that are not empty and hold no semicolon, and while its expiry, if it has one, is still to come by the clock of
  -- Redis, and Redis answers, `GetToken` of the same token returns that response.
  pub get_token-set_token :
      (token : String) (r : JwtResponse) (exp : ℤ) (w w' : W)
      → All IsName r.allowed_applications
      → set_token redis verify_token token r w ≡ (returned (ok exp), w')
      → InTime clock exp w'
      → (get_token redis verify_token token w').0 ≡ returned (ok r)
  unfolding get_token response_of
  get_token-set_token token r exp w w' names done late =
      let held = set_token-Holds token r exp w w' done late in
      rw (
        laws.hmget_strings (key_of token) ("jwt" ∷ "applications" ∷ []) w',
        held.jwt,
        held.apps,
        read_applications-join r.allowed_applications names,
      )
