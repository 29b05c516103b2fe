-- ===== src/Auth/Jwt/Calls/Safety.antt =====
-- What calls of `GetVerificationKey` (auth/jwt.go) that run at the same time do and return.
use mathlib.Core.Bool.{false≢true}
use servicegateway.Prelude.{
  ℕ, String, ◌≡◌, refl, sym, subst, Bool, true, false, List, ◌⊎◌, inl, inr, Option, none, some,
  arith, Bool-cases, leb,
}
use servicegateway.Auth.Jwt.Calls.{
  Memory, read, Pc, begin, has_key, has_expiration, reading, waiting, again, again_key,
  again_expiration, again_reading, fetching, storing, timing, timed, stored, leaving, finished,
  is_held, Move, no_key, some_key, read_expiration, live, expired, read_key, lock, again_none,
  again_some, again_read_expiration, again_live, again_expired, again_read, fetch_fails, store_key,
  read_clock, store_expiration, return_key, unlock, System, Reach,
}
use servicegateway.Auth.Jwt.Calls.Invariant.{
  critical, is_dead, is_among, is_fetched, Fits, Reach-Inv,
}

-- In every order of the steps of all calls and of the clock: while a call is about to request the key, no key that has
-- not expired is cached, and no other call is between the return of `Lock` and its `Unlock`.
pub fetching_alone :
    {cache_ttl n : ℕ} {s : System}
    → Reach cache_ttl n s
    → (i : ℕ) → s.pc i ≡ fetching
    → (is_dead s.mem ≡ true) × ((j : ℕ) → critical (s.pc j) ≡ true → i ≡ j)
fetching_alone {s} r i at =
    let inv = Reach-Inv r in
    (
      subst (Fits s.mem) at (inv.fits i),
      λ j c. inv.unique i j (subst (λ p. critical p ≡ true) (sym at) refl) c,
    )

fetched_key :
    (bodies : List String) (o : Option String)
    → is_fetched bodies o ≡ true
    → (k : String) × (o ≡ some k) × (is_among k bodies ≡ true)
fetched_key bodies none h = absurd (false≢true h)
fetched_key bodies (some k) h = (k, refl, h)

-- In every order of the steps, a call that has returned without an error returned a key, never nil, and this key was
-- the body of a request for it.
pub finished-is_among :
    {cache_ttl n : ℕ} {s : System}
    → Reach cache_ttl n s
    → (i : ℕ) (o : Option String) → s.pc i ≡ finished (read o)
    → (k : String) × (o ≡ some k) × (is_among k s.mem.fetched ≡ true)
finished-is_among {s} r i o at =
    fetched_key s.mem.fetched o (subst (Fits s.mem) at ((Reach-Inv r).fits i))

-- A next step of the call at `p`.
abbrev pub Moves : ℕ → Memory → Pc → Type 0
Moves cache_ttl m p = (m' : Memory) × (p' : Pc) × Move cache_ttl m p m' p'

expiration-Moves :
    (ttl : ℕ) (m : Memory) (e : ℕ)
    → Moves ttl m (has_expiration e) × Moves ttl m (again_expiration e)
expiration-Moves ttl m e = elim (Bool-cases (leb e m.now)) [
  | inl le ↦ ((m, waiting, expired (ground arith)), (m, fetching, again_expired (ground arith)))
  | inr gt ↦ ((m, reading, live (ground arith)), (m, again_reading, again_live (ground arith)))
]

begin-Moves : (ttl : ℕ) (m : Memory) → Moves ttl m begin × Moves ttl m again
begin-Moves ttl m = elim (Bool-cases (is_held m.key)) [
  | inl there ↦ ((m, has_key, some_key there), (m, again_key, again_some there))
  | inr absent ↦ ((m, waiting, no_key absent), (m, fetching, again_none absent))
]

abbrev is_over : Pc → Bool
is_over waiting = true
is_over (finished a) = true
is_over p = false

running-Moves : (ttl : ℕ) (m : Memory) (p : Pc) → is_over p ≡ false → Moves ttl m p
running-Moves ttl m begin h = (begin-Moves ttl m).0
running-Moves ttl m again h = (begin-Moves ttl m).1
running-Moves ttl m (has_expiration e) h = (expiration-Moves ttl m e).0
running-Moves ttl m (again_expiration e) h = (expiration-Moves ttl m e).1
running-Moves ttl m has_key h = (_, _, read_expiration)
running-Moves ttl m reading h = (_, _, read_key)
running-Moves ttl m waiting h = absurd (false≢true (sym h))
running-Moves ttl m again_key h = (_, _, again_read_expiration)
running-Moves ttl m again_reading h = (_, _, again_read)
running-Moves ttl m fetching h = (_, _, fetch_fails)
running-Moves ttl m (storing b) h = (_, _, store_key)
running-Moves ttl m timing h = (_, _, read_clock)
running-Moves ttl m (timed n) h = (_, _, store_expiration)
running-Moves ttl m stored h = (_, _, return_key)
running-Moves ttl m (leaving a) h = (_, _, unlock)
running-Moves ttl m (finished a) h = absurd (false≢true (sym h))

critical-is_over : (p : Pc) → critical p ≡ true → is_over p ≡ false
critical-is_over p c = ground arith

-- No deadlock: in every state that can be reached, a call that waits for the lock can have it at once, or another call
-- has it and can do its next step.
pub waiting-Moves :
    {cache_ttl n : ℕ} {s : System}
    → Reach cache_ttl n s
    → (i : ℕ) → s.pc i ≡ waiting
    → Move cache_ttl s.mem (s.pc i) (record s.mem { locked = true }) again
      ⊎ ((j : ℕ) × (critical (s.pc j) ≡ true) × Moves cache_ttl s.mem (s.pc j))
waiting-Moves {cache_ttl} {s} r i at = elim (Bool-cases s.mem.locked) [
  | inl shut ↦
      let (j, c) = (Reach-Inv r).owned shut in
      inr (j, c, running-Moves cache_ttl s.mem (s.pc j) (critical-is_over (s.pc j) c))
  | inr free ↦ inl (
      subst (λ p. Move cache_ttl s.mem p (record s.mem { locked = true }) again) (sym at)
        (lock free))
]
