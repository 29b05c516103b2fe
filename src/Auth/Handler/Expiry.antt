-- ===== src/Auth/Handler/Expiry.antt =====
-- Which tokens `IsAuthenticated` of auth/handler.go accepts.
use servicegateway.Prelude.{
  ℕ, ◌≤◌, String, ◌≡◌, ◌≢◌, refl, sym, ◌∙◌, ap, subst, ◌⊎◌, inl, inr, true, Option, none, some,
  arith, eqb, Bool-cases, text_cases,
}
use Prim.Native.Nat.{bit_and}
use mathlib.Core.Bool.{false≢true}
use servicegateway.Prelude.Int.{ℤ, pos, negsuc, ltb_ℤ}
use servicegateway.Effects.{Outcome, returned, panicked, Outcome-cases}
use servicegateway.Http.{Request}
use servicegateway.Auth.Types.{
  JwtResponse, no_token_error, validation_error, plain, ok, err, StandardClaims,
}
use servicegateway.Auth.Handler.{
  ExpItem, int, int64, ExpCache, Verdict, accepted, rejected, broken, is_zero, HandlerEnv, remember,
  check, authenticate_token, is_authenticated,
}

-- What `IsAuthenticated` relies on of go-cache: `view` is what `Get` would find. An entry that was
-- set stays until it expires, so a world shows it or nothing.
pub record IsExpCache {W : Type 0} (c : ExpCache W) (view : String → W → Option ExpItem)
    : Type 0 where
  pub get_view : (k : String) (w : W) → (c.get k w).0 ≡ view k w
  pub get_keeps : (j k : String) (w : W) → view j (c.get k w).1 ≡ view j w
  pub set_self :
      (k : String) (i : ExpItem) (ttl : Option ℤ) (w : W) → view k (c.set k i ttl w) ≡ some i
  pub set_other :
      (j k : String) (i : ExpItem) (ttl : Option ℤ) (w : W)
      → k ≢ j
      → view j (c.set k i ttl w) ≡ view j w

-- The expiry that an item of the cache stands for.
abbrev pub exp_of : ExpItem → ℤ
exp_of (int n) = pos n
exp_of (int64 e) = e

-- A token with an expiry that has not come at the time `now`; 0 never comes.
abbrev pub IsLive : ℤ → ℕ → Type 0
IsLive e now = (is_zero e ≡ true) ⊎ (ltb_ℤ (pos now) e ≡ true)

-- Every expiry in the cache is that of a token with a valid signature.
abbrev pub IsSound :
    {W : Type 0} → (String → W → Option ExpItem) → (String → ℤ → Type 0) → W → Type 0
IsSound view Signed w = (j : String) (i : ExpItem) → view j w ≡ some i → Signed j (exp_of i)

-- From one world to a later one the clock does not go back and the cache stays sound.
abbrev pub Later :
    {W : Type 0} → (String → W → Option ExpItem) → (String → ℤ → Type 0) → (W → ℕ) → W → W → Type 0
Later view Signed clock w w' =
    (clock w ≤ clock w') × (IsSound view Signed w → IsSound view Signed w')

-- What `IsAuthenticated` relies on of what it calls, other requests in between included: a token
-- that is verified is signed with the expiry it claims.
pub record IsSoundEnv {W : Type 0} (env : HandlerEnv W) (view : String → W → Option ExpItem)
    (Signed : String → ℤ → Type 0) (clock : W → ℕ) : Type 0 where
  pub go_cache : IsExpCache env.exp_cache view
  pub now_after : (w : W) → clock w ≤ (env.now w).0
  pub now_later : (w : W) → Later view Signed clock w (env.now w).1
  pub get_clock : (k : String) (w : W) → clock w ≤ clock (env.exp_cache.get k w).1
  pub set_clock :
      (k : String) (i : ExpItem) (ttl : Option ℤ) (w : W)
      → clock w ≤ clock (env.exp_cache.set k i ttl w)
  pub token_later :
      (req : Request) (w : W) → Later view Signed clock w (env.token_from_request req w).1
  pub verify_later : (j : String) (w : W) → Later view Signed clock w (env.verify_token j w).1
  pub verified :
      (j : String) (claims : StandardClaims) (w : W)
      → (env.verify_token j w).0 ≡ returned (ok claims)
      → Signed j claims.expires_at

some_injective : {A : Type 0} (a b : A) → some a ≡ some b → a ≡ b
some_injective a b e = ap (λ o. elim o [ some x ↦ x | none ↦ a ]) e

is_zero-pos : (e : ℤ) → is_zero e ≡ true → e ≡ pos 0
is_zero-pos (pos n) z = ap pos (ground arith)
is_zero-pos (negsuc n) z = absurd (false≢true z)

ltb_ℤ-earlier : (m n : ℕ) (e : ℤ) → m ≤ n → ltb_ℤ (pos n) e ≡ true → ltb_ℤ (pos m) e ≡ true
ltb_ℤ-earlier m n (pos k) le lt = ground arith
ltb_ℤ-earlier m n (negsuc k) le lt = ground arith

module _ {W : Type 0} (env : HandlerEnv W) (view : String → W → Option ExpItem)
    (Signed : String → ℤ → Type 0) (clock : W → ℕ) (good : IsSoundEnv env view Signed clock) where
  -- An accepted token is signed and live.
  abbrev Genuine : ℕ → Outcome Verdict → Type 0
  Genuine n (returned (accepted token)) = (e : ℤ) × Signed token.jwt e × IsLive e n
  Genuine n _ = Unit

  abbrev Fine : W → Outcome Verdict × W → Type 0
  Fine w r = Genuine (clock w) r.0 × Later view Signed clock w r.1

  trans_Later :
      (a b c : W)
      → Later view Signed clock a b
      → Later view Signed clock b c
      → Later view Signed clock a c
  trans_Later a b c (ab, keep) (bc, keep') = (omega arith, λ s. keep' (keep s))

  Genuine-earlier : (m n : ℕ) (o : Outcome Verdict) → m ≤ n → Genuine n o → Genuine m o
  Genuine-earlier m n (returned (accepted token)) le (e, s, inl z) = (e, s, inl z)
  Genuine-earlier m n (returned (accepted token)) le (e, s, inr lt) =
      (e, s, inr (ltb_ℤ-earlier m n e le lt))
  Genuine-earlier m n (returned rejected) le g = tt
  Genuine-earlier m n (returned (broken x)) le g = tt
  Genuine-earlier m n panicked le g = tt

  Fine-Later :
      (a b : W) (r : Outcome Verdict × W) → Later view Signed clock a b → Fine b r → Fine a r
  Fine-Later a b r (le, keep) (g, l) =
      (Genuine-earlier (clock a) (clock b) r.0 le g, trans_Later a b r.1 (le, keep) l)

  set-Later :
      (j : String) (i : ExpItem) (ttl : Option ℤ) (w : W)
      → Signed j (exp_of i)
      → Later view Signed clock w (env.exp_cache.set j i ttl w)
  set-Later j i ttl w s = (
    good.set_clock j i ttl w,
    λ sound. λ k. λ i'. λ e. elim (text_cases j k) [
      | inl same ↦
          let found =
            sym (good.go_cache.set_self j i ttl w)
            ∙ ap (λ x. view x (env.exp_cache.set j i ttl w)) same
            ∙ e in
          subst (λ x. Signed k (exp_of x)) (some_injective i i' found)
            (subst (λ x. Signed x (exp_of i)) same s)
      | inr other ↦ sound k i' (sym (good.go_cache.set_other k j i ttl w other) ∙ e)
    ],
  )

  get-Later : (j : String) (w : W) → Later view Signed clock w (env.exp_cache.get j w).1
  get-Later j w = (
    good.get_clock j w,
    λ sound. λ k. λ i. λ e. sound k i (sym (good.go_cache.get_keeps k j w) ∙ e),
  )

  remember-Fine :
      (token : JwtResponse) (e : ℤ) (w : W) → Signed token.jwt e → Fine w (remember env token e w)
  unfolding remember
  remember-Fine token e w s = elim (Bool-cases (is_zero e)) [
    | inl zero_exp ↦ rw zero_exp (
      (e, s, inl zero_exp),
      set-Later token.jwt (int 0) none w (subst (Signed token.jwt) (is_zero-pos e zero_exp) s),
    )
    | inr timed ↦ elim (Bool-cases (ltb_ℤ (pos (env.now w).0) e)) [
      | inl live ↦
          rw (timed, live)
            (
              (e, s, inr (ltb_ℤ-earlier (clock w) (env.now w).0 e (good.now_after w) live)),
              trans_Later w (env.now w).1 _ (good.now_later w) (
                  trans_Later (env.now w).1 (env.now (env.now w).1).1 _
                    (good.now_later (env.now w).1)
                    (set-Later token.jwt (int64 e) _ (env.now (env.now w).1).1 s)),
            )
      | inr expired ↦ rw (timed, expired) (tt, good.now_later w)
    ]
  ]

  check-Fine :
      (token : JwtResponse) (found : Option ExpItem) (w : W)
      → ((i : ExpItem) → found ≡ some i → Signed token.jwt (exp_of i))
      → Fine w (check env token found w)
  unfolding check
  check-Fine token (some (int n)) w s = (tt, (omega arith, λ x. x))
  check-Fine token (some (int64 e)) w s = elim (Bool-cases (ltb_ℤ (pos (env.now w).0) e)) [
    | inl live ↦ rw live (
      (e, s (int64 e) refl, inr (ltb_ℤ-earlier (clock w) (env.now w).0 e (good.now_after w) live)),
      good.now_later w,
    )
    | inr expired ↦ rw expired (tt, good.now_later w)
  ]
  check-Fine token none w s =
      let w' = (env.verify_token token.jwt w).1 in
      let later = good.verify_later token.jwt w in
      elim (Outcome-cases (env.verify_token token.jwt w).0) [
        | inl (ok claims, e) ↦ rw e (
            Fine-Later w w' _ later
              (remember-Fine token claims.expires_at w' (good.verified token.jwt claims w e)))
        | inl (err (validation_error bits), e) ↦ elim (Bool-cases (eqb (bit_and bits 20) 0)) [
          | inl other ↦ rw (e, other) (tt, later)
          | inr acceptable ↦ rw (e, acceptable) (tt, later)
        ]
        | inl (err (plain x), e) ↦ rw e (tt, later)
        | inl (err no_token_error, e) ↦ rw e (tt, later)
        | inr e ↦ rw e (tt, later)
      ]

  is_authenticated-Fine :
      (req : Request) (w : W) → IsSound view Signed w → Fine w (is_authenticated env req w)
  unfolding is_authenticated authenticate_token
  is_authenticated-Fine req w sound =
      let w₁ = (env.token_from_request req w).1 in
      let later = good.token_later req w in
      let (le, keep) = later in
      elim (Outcome-cases (env.token_from_request req w).0) [
        | inl (ok token, e) ↦ rw e (
            Fine-Later w w₁ _ later (
              Fine-Later w₁ (env.exp_cache.get token.jwt w₁).1 _ (get-Later token.jwt w₁) (
                check-Fine token (env.exp_cache.get token.jwt w₁).0
                  (env.exp_cache.get token.jwt w₁).1
                  (λ i. λ found.
                    keep sound token.jwt i (sym (good.go_cache.get_view token.jwt w₁) ∙ found)))))
        | inl (err (validation_error bits), e) ↦ rw e (tt, later)
        | inl (err (plain x), e) ↦ rw e (tt, later)
        | inl (err no_token_error, e) ↦ rw e (tt, later)
        | inr e ↦ rw e (tt, later)
      ]

  -- What `IsAuthenticated` calls behaves as in `IsSoundEnv`, and every expiry in the cache belongs to
  -- a signed token. Then a token that is accepted is signed with an expiry that is 0 or had not come
  -- when the request arrived, whether the token was in the cache or was verified now.
  pub is_authenticated-IsLive :
      (req : Request) (token : JwtResponse) (w : W)
      → IsSound view Signed w
      → (is_authenticated env req w).0 ≡ returned (accepted token)
      → (e : ℤ) × Signed token.jwt e × IsLive e (clock w)
  is_authenticated-IsLive req token w sound done =
      subst (Genuine (clock w)) done (is_authenticated-Fine req w sound).0

  -- What `IsAuthenticated` calls behaves as in `IsSoundEnv`. Then it keeps it so that every expiry in
  -- the cache belongs to a signed token, however it ends.
  pub is_authenticated-IsSound :
      (req : Request) (w : W)
      → IsSound view Signed w
      → IsSound view Signed (is_authenticated env req w).1
  is_authenticated-IsSound req w sound = (is_authenticated-Fine req w sound).1.1 sound
