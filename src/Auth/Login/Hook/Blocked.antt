-- ===== src/Auth/Login/Hook/Blocked.antt =====
-- What a panic in the hook does to the other log-ins (auth/handler.go).
use mathlib.Core.Bool.{false≢true}
use servicegateway.Prelude.{ℕ, ◌≡◌, refl, ap, Bool, true, false, arith}
use servicegateway.Prelude.Family.{update}
use servicegateway.Auth.Login.Hook.{
  Place, in_script, in_function, examining, ended, panicked, Move, take_lock, examined, Engine,
  Step, pick, Reach, at_start, later,
}

-- The call has taken the lock and has not given it back.
abbrev pub holds : Place → Bool
holds in_script = true
holds in_function = true
holds panicked = true
holds p = false

record Inv (b : Bool) (f : ℕ → Place) : Type 0 where
  locked : (i : ℕ) → holds (f i) ≡ true → b ≡ true
  unique : (i j : ℕ) → holds (f i) ≡ true → holds (f j) ≡ true → i ≡ j

module _ {b : Bool} {f : ℕ → Place} (inv : Inv b f) (i : ℕ) where
  Move-locked :
      {b' : Bool} {p p' : Place}
      → Move b p b' p'
      → f i ≡ p
      → (j : ℕ) → holds (update f i p' j) ≡ true
      → b' ≡ true
  Move-locked (take_lock g) e j h = refl
  Move-locked mv e j h = ground (arith, inv.locked i, inv.locked j, inv.unique i j)

  Move-unique :
      {b' : Bool} {p p' : Place}
      → Move b p b' p'
      → f i ≡ p
      → (j k : ℕ) → holds (update f i p' j) ≡ true
      → holds (update f i p' k) ≡ true
      → j ≡ k
  Move-unique (take_lock g) e j k hj hk = ground (arith, g, inv.locked j, inv.locked k)
  Move-unique mv e j k hj hk = ground (arith, inv.unique j k, inv.unique i j, inv.unique i k)

  -- A step of `i` needs the lock free, or in its own hands.
  Move-blocked :
      {b' : Bool} {p p' : Place} (k : ℕ)
      → Move b p b' p'
      → f i ≡ p
      → f k ≡ panicked
      → (p ≡ examining) × (b' ≡ true) × (p' ≡ ended)
  Move-blocked k (take_lock g) e broken = absurd (ground (arith, g, inv.locked k))
  Move-blocked k examined e broken = (refl, ground (arith, inv.locked k), refl)
  Move-blocked k mv e broken = absurd (ground (arith, inv.unique i k))

Reach-Inv : {s : Engine} → Reach s → Inv s.locked s.places
Reach-Inv at_start = record {
  locked = λ i h. absurd (false≢true h);
  unique = λ i j h k. absurd (false≢true h);
}
Reach-Inv (later r (pick i mv)) =
    let inv = Reach-Inv r in
    record { locked = Move-locked inv i mv refl; unique = Move-unique inv i mv refl }

-- In every order of the steps of all log-ins: once the hook's script or its function has panicked in one of them, the
-- lock is never given back. No log-in takes any step then but the last one of a log-in whose hook had returned before.
pub panicked-blocks :
    {s t : Engine}
    → Reach s
    → (k : ℕ) → s.places k ≡ panicked
    → Step s t
    → (i : ℕ) × (s.places i ≡ examining) × (t.locked ≡ true) × (t.places ≡ update s.places i ended)
panicked-blocks {s} r k broken (pick i mv) =
    let (from, shut, to) = Move-blocked (Reach-Inv r) i k mv refl broken in
    (i, from, shut, ap (update s.places i) to)
