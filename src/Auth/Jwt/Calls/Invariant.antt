-- ===== src/Auth/Jwt/Calls/Invariant.antt =====
-- What holds of the calls of `GetVerificationKey` (auth/jwt.go) after every step.
use servicegateway.Prelude.{
  ℕ, ◌≤◌, ◌<◌, String, ◌≡◌, refl, Bool, true, false, ◌||◌, List, [], ◌∷◌, Option, none, some, arith,
  leb, ◌==◌, eq_refl,
}
use mathlib.Core.Bool.{false≢true}
use servicegateway.Prelude.Family.{update}
use servicegateway.Auth.Jwt.Calls.{
  Memory, read, error, Pc, begin, has_key, has_expiration, reading, waiting, again, again_key,
  again_expiration, again_reading, fetching, storing, timing, timed, stored, leaving, finished,
  is_held, Move, no_key, some_key, live, expired, lock, again_none, again_some, again_live,
  again_expired, fetch, store_key, unlock, System, initial, Step, pick, tick, Reach, at_start,
  later,
}

-- Between the return of `Lock` and the deferred `Unlock`.
abbrev pub critical : Pc → Bool
critical begin = false
critical has_key = false
critical (has_expiration e) = false
critical reading = false
critical waiting = false
critical (finished a) = false
critical _ = true

-- There is no key that could be used.
abbrev pub is_dead : Memory → Bool
is_dead m = elim m.key [ none ↦ true | some k ↦ leb m.expiration m.now ]

abbrev pub is_among : String → List String → Bool
is_among k [] = false
is_among k (b ∷ bs) = b == k || is_among k bs

-- A key that was the body of a request.
abbrev pub is_fetched : List String → Option String → Bool
is_fetched bodies none = false
is_fetched bodies (some k) = is_among k bodies

-- What the place of a call says about the memory.
abbrev pub Fits : Memory → Pc → Type 0
Fits m has_key = is_held m.key ≡ true
Fits m (has_expiration e) = is_held m.key ≡ true
Fits m reading = is_held m.key ≡ true
Fits m again_key = is_held m.key ≡ true
Fits m (again_expiration e) = (is_held m.key ≡ true) × (m.expiration ≡ e)
Fits m again_reading = is_held m.key ≡ true
Fits m fetching = is_dead m ≡ true
Fits m (storing b) = is_among b m.fetched ≡ true
Fits m timing = is_held m.key ≡ true
Fits m (timed n) = is_held m.key ≡ true
Fits m stored = is_held m.key ≡ true
Fits m (leaving (read o)) = is_fetched m.fetched o ≡ true
Fits m (finished (read o)) = is_fetched m.fetched o ≡ true
Fits m _ = Unit

pub record Inv (m : Memory) (pc : ℕ → Pc) : Type 0 where
  pub locked : (i : ℕ) → critical (pc i) ≡ true → m.locked ≡ true
  pub owned : m.locked ≡ true → (i : ℕ) × (critical (pc i) ≡ true)
  pub unique : (i j : ℕ) → critical (pc i) ≡ true → critical (pc j) ≡ true → i ≡ j
  pub fetched : is_held m.key ≡ true → is_fetched m.fetched m.key ≡ true
  pub fits : (i : ℕ) → Fits m (pc i)

-- The premise of a move.
abbrev Guard : {ttl : ℕ} {m m' : Memory} {p p' : Pc} → Move ttl m p m' p' → Type 0
Guard {m} (no_key _) = is_held m.key ≡ false
Guard {m} (some_key _) = is_held m.key ≡ true
Guard {m} (live {e} _) = m.now < e
Guard {m} (expired {e} _) = e ≤ m.now
Guard {m} (lock _) = m.locked ≡ false
Guard {m} (again_none _) = is_held m.key ≡ false
Guard {m} (again_some _) = is_held m.key ≡ true
Guard {m} (again_live {e} _) = m.now < e
Guard {m} (again_expired {e} _) = e ≤ m.now
Guard _ = Unit

guard : {ttl : ℕ} {m m' : Memory} {p p' : Pc} (mv : Move ttl m p m' p') → Guard mv
guard (no_key g) = g
guard (some_key g) = g
guard (live g) = g
guard (expired g) = g
guard (lock g) = g
guard (again_none g) = g
guard (again_some g) = g
guard (again_live g) = g
guard (again_expired g) = g
guard _ = tt

module _ {ttl : ℕ} {m : Memory} {pc : ℕ → Pc} (inv : Inv m pc) (i : ℕ) where
  Move-locked :
      {p p' : Pc} {m' : Memory}
      → Move ttl m p m' p'
      → pc i ≡ p
      → (j : ℕ) → critical (update pc i p' j) ≡ true
      → m'.locked ≡ true
  Move-locked (lock g) e j c = refl
  Move-locked mv e j c = ground (arith, guard mv, inv.locked i, inv.locked j, inv.unique i j)

  Move-unique :
      {p p' : Pc} {m' : Memory}
      → Move ttl m p m' p'
      → pc i ≡ p
      → (j k : ℕ) → critical (update pc i p' j) ≡ true
      → critical (update pc i p' k) ≡ true
      → j ≡ k
  Move-unique (lock g) e j k cj ck = ground (arith, g, inv.locked j, inv.locked k)
  Move-unique mv e j k cj ck =
      ground (
        arith,
        guard mv,
        inv.locked j,
        inv.locked k,
        inv.unique j k,
        inv.unique i j,
        inv.unique i k,
      )

  Move-fetched :
      {p p' : Pc} {m' : Memory}
      → Move ttl m p m' p'
      → pc i ≡ p
      → is_held m'.key ≡ true
      → is_fetched m'.fetched m'.key ≡ true
  Move-fetched store_key e h = ground (arith, inv.fits i)
  Move-fetched (fetch body) e h = ground (arith, inv.fetched)
  Move-fetched mv e h = ground (arith, guard mv, inv.fetched, inv.fits i)

  Move-Fits :
      {p p' : Pc} {m' : Memory}
      → Move ttl m p m' p'
      → pc i ≡ p
      → (j : ℕ) → Fits m' (update pc i p' j)
  Move-Fits (fetch body) e j = ground (arith, inv.fits i, inv.fits j, inv.unique i j, eq_refl body)
  Move-Fits store_key e j = ground (arith, inv.fits i, inv.fits j, inv.unique i j)
  Move-Fits mv e j = ground (arith, guard mv, inv.fits i, inv.fits j, inv.unique i j, inv.fetched)

  -- The owner of the lock is the mover or stays what it is.
  Move-owned :
      {p p' : Pc} {m' : Memory}
      → Move ttl m p m' p'
      → pc i ≡ p
      → m'.locked ≡ true
      → (j : ℕ) × (critical (update pc i p' j) ≡ true)
  Move-owned (lock g) e h = (i, ground arith)
  Move-owned unlock e h = absurd (false≢true h)
  Move-owned mv e h = let (j, c) = inv.owned h in (j, ground (arith, guard mv, inv.unique i j))

  Move-Inv : {p : Pc} {m' : Memory} → Move ttl m (pc i) m' p → Inv m' (update pc i p)
  Move-Inv mv = record {
    locked = Move-locked mv refl;
    owned = Move-owned mv refl;
    unique = Move-unique mv refl;
    fetched = Move-fetched mv refl;
    fits = Move-Fits mv refl;
  }

-- Time that goes on makes no key live again.
tick-is_dead :
    (k : Option String) (e then_now n : ℕ)
    → then_now ≤ n
    → elim k [ none ↦ true | some _ ↦ leb e then_now ] ≡ true
    → elim k [ none ↦ true | some _ ↦ leb e n ] ≡ true
tick-is_dead none e then_now n le h = refl
tick-is_dead (some k) e then_now n le h = ground arith

tick-Fits : (m : Memory) (n : ℕ) (p : Pc) → m.now ≤ n → Fits m p → Fits (record m { now = n }) p
tick-Fits m n fetching le h = tick-is_dead m.key m.expiration m.now n le h
tick-Fits m n begin le h = h
tick-Fits m n has_key le h = h
tick-Fits m n (has_expiration e) le h = h
tick-Fits m n reading le h = h
tick-Fits m n waiting le h = h
tick-Fits m n again le h = h
tick-Fits m n again_key le h = h
tick-Fits m n (again_expiration e) le h = h
tick-Fits m n again_reading le h = h
tick-Fits m n (storing b) le h = h
tick-Fits m n timing le h = h
tick-Fits m n (timed k) le h = h
tick-Fits m n stored le h = h
tick-Fits m n (leaving (read o)) le h = h
tick-Fits m n (leaving error) le h = h
tick-Fits m n (finished (read o)) le h = h
tick-Fits m n (finished error) le h = h

Step-Inv : {ttl : ℕ} {s t : System} → Step ttl s t → Inv s.mem s.pc → Inv t.mem t.pc
Step-Inv (pick i mv) inv = Move-Inv inv i mv
Step-Inv {s} (tick n le) inv = record {
  locked = inv.locked;
  owned = inv.owned;
  unique = inv.unique;
  fetched = inv.fetched;
  fits = λ i. tick-Fits s.mem n (s.pc i) le (inv.fits i);
}

initial-Inv : (n : ℕ) → Inv (initial n).mem (initial n).pc
initial-Inv n = record {
  locked = λ i c. absurd (false≢true c);
  owned = λ h. absurd (false≢true h);
  unique = λ i j c d. absurd (false≢true c);
  fetched = λ h. absurd (false≢true h);
  fits = λ i. tt;
}

pub Reach-Inv : {ttl n : ℕ} {s : System} → Reach ttl n s → Inv s.mem s.pc
Reach-Inv {n} at_start = initial-Inv n
Reach-Inv (later r st) = Step-Inv st (Reach-Inv r)
