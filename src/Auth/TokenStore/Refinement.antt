-- ===== src/Auth/TokenStore/Refinement.antt =====
-- `CacheDecorator` (auth/tokenstore.go) keeps the contract of the store behind it.
use mathlib.Core.Option.{some-injective, none-ne-some}
use servicegateway.Prelude.{
  String, ◌≡◌, ◌≢◌, sym, ◌∙◌, subst, inl, inr, Option, none, some, ◌==◌, eq_iff, Bool-cases, arith,
}
use servicegateway.Prelude.Int.{ℤ}
use servicegateway.Effects.{Outcome, returned, panicked, continue}
use servicegateway.Auth.Types.{JwtResponse, Result, ok, err}
use servicegateway.Auth.TokenStore.{
  TokenStore, LocalItem, text, cached, unknown, Lru, remember, remember_added, from_local,
  decorated_set_token, decorated_add_token, decorated_get_token, cache_decorator,
}
use servicegateway.Auth.TokenStore.Contract.{
  Held, Same, Put, IfSet, IfAdded, IfGot, IsTokenMap, IsLayer, Agrees, Coherent,
}

module _ {W : Type 0} (lru : Lru W) (view : String → W → Option LocalItem) (wrapped : TokenStore W)
    (held : Held W) (Inv : W → Type 0) (layer : IsLayer lru view wrapped held Inv)
    (Fits : JwtResponse → Type 0) (below : IsTokenMap wrapped held Inv Fits) where
  -- A change of neither keeps that; so does one at a token with no entry of its own.
  Coherent-kept :
      (w w' : W)
      → Inv w'
      → Same held w w'
      → ((j : String) → view j w' ≡ view j w)
      → Coherent view held Inv w
      → Coherent view held Inv w'
  Coherent-kept w w' inv same views (_, agrees) =
      (inv, λ t i found. subst (Agrees i) (sym (same t)) (agrees t i (sym (views t) ∙ found)))

  -- A token that has just changed in the store gets its entry.
  Coherent-added :
      (t : String) (r : JwtResponse) (exp : ℤ) (w w' : W)
      → Put held t r w w'
      → Inv w'
      → ((j : String) → view j w' ≡ view j w)
      → Coherent view held Inv w
      → Coherent view held Inv (lru.add t (cached (record { token = r; exp = exp })) w')
  Coherent-added t r exp w w' (new, others) inv views (_, agrees) = (
    layer.add_Inv t item w' inv,
    λ u i found. elim (Bool-cases (u == t)) [
      | inl e ↦ own u i ((eq_iff u t).0 e) found
      | inr e ↦ other u i (λ same. ground (arith, eq_iff u t)) found
    ],
  )
    where
      item : LocalItem
      item = cached (record { token = r; exp = exp })

      w₁ : W
      w₁ = lru.add t item w'

      own : (u : String) (i : LocalItem) → u ≡ t → view u w₁ ≡ some i → Agrees i (held u w₁)
      own u i same found =
          subst (λ v. view v w₁ ≡ some i → Agrees i (held v w₁)) (sym same)
            (λ at.
              subst (λ x. Agrees x (held t w₁))
                (some-injective item i (sym (layer.add_self t item w') ∙ at))
                (sym (layer.add_held t item w' t ∙ new)))
            found

      other : (u : String) (i : LocalItem) → u ≢ t → view u w₁ ≡ some i → Agrees i (held u w₁)
      other u i ne found = elim (layer.add_other u t item w' ne) [
        | inl kept ↦
            subst (Agrees i) (sym (layer.add_held t item w' u ∙ others u ne))
              (agrees u i (sym (kept ∙ views u) ∙ found))
        | inr gone ↦ absurd (none-ne-some i (sym gone ∙ found))
      ]

  Put-Same :
      (t : String) (r : JwtResponse) (w w' w₁ : W)
      → Same held w' w₁
      → Put held t r w w'
      → Put held t r w w₁
  Put-Same t r w w' w₁ same (new, others) = (same t ∙ new, λ u ne. same u ∙ others u ne)

  set-Coherent :
      (t : String) (r : JwtResponse) (w : W)
      → Fits r
      → Coherent view held Inv w
      → IfSet held t r w (decorated_set_token lru wrapped t r w)
        × Coherent view held Inv (decorated_set_token lru wrapped t r w).1
  unfolding decorated_set_token remember
  set-Coherent t r w fits coherent =
      go (wrapped.set_token t r w) (below.set_held t r w fits coherent.0)
        (below.set_Inv t r w fits coherent.0) (λ j. layer.view_set j t r w)
    where
      go :
          (o : Outcome (Result ℤ) × W)
          → IfSet held t r w o
          → Inv o.1
          → ((j : String) → view j o.1 ≡ view j w)
          → IfSet held t r w (continue o.0 (remember lru wrapped t r) o.1)
            × Coherent view held Inv (continue o.0 (remember lru wrapped t r) o.1).1
      go (returned (ok exp), w') put inv views = (
        Put-Same t r w w' _ (layer.add_held t (cached (record { token = r; exp = exp })) w') put,
        Coherent-added t r exp w w' put inv views coherent,
      )
      go (returned (err e), w') same inv views = (same, Coherent-kept w w' inv same views coherent)
      go (panicked, w') same inv views = (same, Coherent-kept w w' inv same views coherent)

  add-Coherent :
      (r : JwtResponse) (w : W)
      → Fits r
      → Coherent view held Inv w
      → IfAdded held r w (decorated_add_token lru wrapped r w)
        × Coherent view held Inv (decorated_add_token lru wrapped r w).1
  unfolding decorated_add_token remember_added
  add-Coherent r w fits coherent =
      go (wrapped.add_token r w) (below.add_held r w fits coherent.0)
        (below.add_Inv r w fits coherent.0) (λ j. layer.view_add j r w)
    where
      go :
          (o : Outcome (Result (String × ℤ)) × W)
          → IfAdded held r w o
          → Inv o.1
          → ((j : String) → view j o.1 ≡ view j w)
          → IfAdded held r w (continue o.0 (remember_added lru wrapped r) o.1)
            × Coherent view held Inv (continue o.0 (remember_added lru wrapped r) o.1).1
      go (returned (ok (t, exp)), w') put inv views = (
        Put-Same t r w w' _ (layer.add_held t (cached (record { token = r; exp = exp })) w') put,
        Coherent-added t r exp w w' put inv views coherent,
      )
      go (returned (err e), w') same inv views = (same, Coherent-kept w w' inv same views coherent)
      go (panicked, w') same inv views = (same, Coherent-kept w w' inv same views coherent)

  get-Coherent :
      (t : String) (w : W)
      → Coherent view held Inv w
      → IfGot held t w (decorated_get_token lru wrapped t w)
        × Coherent view held Inv (decorated_get_token lru wrapped t w).1
  unfolding decorated_get_token from_local
  get-Coherent t w coherent = go (lru.get t w).0 (layer.get_view t w)
    where
      w₁ : W
      w₁ = (lru.get t w).1

      kept : Coherent view held Inv w₁
      kept =
          Coherent-kept w w₁ (layer.get_Inv t w coherent.0) (layer.get_held t w)
            (λ j. layer.get_keeps j t w) coherent

      behind :
          (o : Outcome (Result JwtResponse) × W)
          → IfGot held t w₁ o
          → Inv o.1
          → ((j : String) → view j o.1 ≡ view j w₁)
          → IfGot held t w o × Coherent view held Inv o.1
      behind (returned (ok r), w') (same, is) inv views = (
        (λ u. same u ∙ layer.get_held t w u, is ∙ layer.get_held t w t),
        Coherent-kept w₁ w' inv same views kept,
      )
      behind (returned (err e), w') same inv views =
          (λ u. same u ∙ layer.get_held t w u, Coherent-kept w₁ w' inv same views kept)
      behind (panicked, w') same inv views =
          (λ u. same u ∙ layer.get_held t w u, Coherent-kept w₁ w' inv same views kept)

      go :
          (o : Option LocalItem)
          → o ≡ view t w
          → IfGot held t w (from_local lru wrapped t o w₁)
            × Coherent view held Inv (from_local lru wrapped t o w₁).1
      go none at =
          behind (wrapped.get_token t w₁) (below.get_held t w₁ kept.0) (below.get_Inv t w₁ kept.0)
            (λ j. layer.view_get j t w₁)
      go (some (text s)) at = ((layer.get_held t w, coherent.1 t (text s) (sym at)), kept)
      go (some (cached c)) at = ((layer.get_held t w, coherent.1 t (cached c) (sym at)), kept)
      go (some unknown) at = (layer.get_held t w, kept)

  -- `CacheDecorator` in front of a store that keeps the contract keeps the contract for the same responses, in
  -- every world in which the cache agrees with that store; every call keeps that agreement.
  pub cache_decorator-IsTokenMap :
      IsTokenMap (cache_decorator lru wrapped) held (Coherent view held Inv) Fits
  cache_decorator-IsTokenMap = record {
    set_held = λ t r w f c. (set-Coherent t r w f c).0;
    set_Inv = λ t r w f c. (set-Coherent t r w f c).1;
    add_held = λ r w f c. (add-Coherent r w f c).0;
    add_Inv = λ r w f c. (add-Coherent r w f c).1;
    get_held = λ t w c. (get-Coherent t w c).0;
    get_Inv = λ t w c. (get-Coherent t w c).1;
  }
