-- ===== src/Dispatcher/Consul/Keys.antt =====
-- Which keys of Consul dispatcher/consul_dispatcher.go reads.
use Prim.Native.String.{◌∷◌, []}
use Prim.Native.Char.{code}
use servicegateway.Prelude.{
  ℕ, String, ◌<>◌, ◌≡◌, ◌≢◌, refl, sym, ◌∙◌, ap, subst, inl, inr, false, List, [], ◌∷◌, Option,
  none, some, arith, eqb, ◌==◌, eq_iff, Bool-cases, Option-cases, if◌then◌else◌,
}
use mathlib.Core.Option.{none-ne-some}
use text.Mathlib.TextLemmas.{nil-append, cons-append}
use servicegateway.Text.{after?, trim_prefix, has_prefix}
use servicegateway.Config.{Startup, Application}
use servicegateway.Dispatcher.Consul.{
  ConfigJson, Loaded, load_setting, load_application, with_application, load_pair, load,
}

some_injective : {A : Type 0} (a b : A) → some a ≡ some b → a ≡ b
some_injective a b e = ap (λ o. elim o [ some x ↦ x | none ↦ a ]) e

distinct : (m n : ℕ) → m ≡ 47 → n ≡ 103 → m ≢ n
distinct m n a b e = omega arith

other_text : {s t : String} → s ≢ t → (s == t) ≡ false
other_text {s} {t} ne = elim (Bool-cases (s == t)) [
  | inl same ↦ absurd (ne ((eq_iff s t).0 same))
  | inr other ↦ other
]

-- The last character of a text, or `d`.
last_code : ℕ → String → ℕ
last_code d [] = d
last_code d (c ∷ s) = last_code (code c) s

last_code-append : (d : ℕ) (s t : String) → last_code d (s <> t) ≡ last_code (last_code d s) t
unfolding last_code
last_code-append d [] t = ap (last_code d) (nil-append t)
last_code-append d (c ∷ s) t = rw cons-append (last_code-append (code c) s t)

-- What is left behind a prefix ends as the text does.
after?-last_code :
    (d : ℕ) (s p t : String) → after? s p ≡ some t → (x : ℕ) × (last_code d s ≡ last_code x t)
unfolding after? last_code
after?-last_code d s [] t e = (d, ap (last_code d) (some_injective s t e))
after?-last_code d [] (c ∷ p) t e = absurd (none-ne-some t e)
after?-last_code d (b ∷ s) (c ∷ p) t e = elim (Bool-cases (eqb (code b) (code c))) [
  | inl same ↦
      after?-last_code (code b) s p t (sym (ap (λ x. if x then after? s p else none) same) ∙ e)
  | inr other ↦ absurd (none-ne-some t (sym (ap (λ x. if x then after? s p else none) other) ∙ e))
]

-- A text that ends in "/" leaves nothing that ends as "rate_limiting" does.
slash_end : (x d : ℕ) (s t : String) → last_code d (s <> "/") ≡ last_code x t → t ≢ "rate_limiting"
unfolding last_code
slash_end x d s t same e =
    distinct 47 103 refl refl (sym (last_code-append d s "/") ∙ same ∙ ap (last_code x) e)

trim_prefix-other : (base key : String) → (trim_prefix (base <> "/") key == "rate_limiting") ≡ false
unfolding trim_prefix
trim_prefix-other base key = elim (Option-cases (after? (base <> "/") key)) [
  | inl whole ↦ rw whole (other_text (slash_end 0 0 base (base <> "/") refl))
  | inr (t, e) ↦
      let (x, same) = after?-last_code 0 (base <> "/") key t e in
      rw e (other_text (slash_end x 0 base t same))
]

module _ (json : ConfigJson) (startup : Startup) where
  load_setting-same :
      (key value : String) (l : Loaded) → load_setting json startup key value l ≡ some l
  unfolding load_setting
  load_setting-same key value l = rw trim_prefix-other

  -- The settings that are left, if any, limit rates as `l` does.
  abbrev KeepsLimit : Loaded → Option Loaded → Type 0
  KeepsLimit l none = Unit
  KeepsLimit l (some l') = l'.rate_limiting ≡ l.rate_limiting

  with_application-KeepsLimit :
      (name : String) (app : Option Application) (l : Loaded)
      → KeepsLimit l (with_application json startup name app l)
  with_application-KeepsLimit name none l = tt
  with_application-KeepsLimit name (some app) l = refl

  load_application-KeepsLimit :
      (key value : String) (l : Loaded) → KeepsLimit l (load_application json startup key value l)
  unfolding load_application
  load_application-KeepsLimit key value l =
      let base = startup.consul_base_key <> "/applications" in
      elim (Bool-cases (has_prefix key base)) [
        | inl inside ↦ rw inside (
            with_application-KeepsLimit (trim_prefix key (base <> "/"))
              (json.unmarshal_application value) l)
        | inr outside ↦ rw outside refl
      ]

  load_pair-KeepsLimit :
      (key value : String) (l : Loaded) → KeepsLimit l (load_pair json startup key value l)
  unfolding load_pair
  load_pair-KeepsLimit key value l = rw load_setting-same (load_application-KeepsLimit key value l)

  load-KeepsLimit :
      (pairs : List (String × String)) (l : Loaded) → KeepsLimit l (load json startup pairs l)
  unfolding load
  load-KeepsLimit [] l = refl
  load-KeepsLimit ((key, value) ∷ pairs) l =
      elim (Option-cases (load_pair json startup key value l)) [
        | inl e ↦ rw e tt
        | inr (m, e) ↦ rw e (elim (Option-cases (load json startup pairs m)) [
          | inl f ↦ rw f tt
          | inr (l', f) ↦ rw f (
              subst (KeepsLimit m) f (load-KeepsLimit pairs m)
              ∙ subst (KeepsLimit l) e (load_pair-KeepsLimit key value l))
        ])
      ]

  -- If the start does not fail, the rate limiting that is in force is that of the local
  -- configuration, whatever pairs Consul holds, one for the key `rate_limiting` included.
  pub load-rate_limiting :
      (pairs : List (String × String)) (l l' : Loaded)
      → load json startup pairs l ≡ some l'
      → l'.rate_limiting ≡ l.rate_limiting
  load-rate_limiting pairs l l' e = subst (KeepsLimit l) e (load-KeepsLimit pairs l)
