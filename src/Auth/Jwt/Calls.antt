-- ===== src/Auth/Jwt/Calls.antt =====
-- Calls of `GetVerificationKey` (auth/jwt.go) that run at the same time: each access to a field of the verifier is a
-- step of its own. A read or a write of a field is atomic here, and all goroutines see them in one order.
pub mod Invariant
pub mod Safety
pub mod Alone
mod Tests
use servicegateway.Prelude.{
  ℕ, ◌+◌, ◌≤◌, ◌<◌, String, ◌≡◌, Bool, true, false, List, [], ◌∷◌, Option, none, some,
}
use servicegateway.Prelude.Family.{update}

-- The fields of the verifier and the clock; `fetched` has the bodies that requests for the key have got, the last first.
pub record Memory : Type 0 where
  pub key : Option String
  pub expiration : ℕ
  pub locked : Bool
  pub now : ℕ
  pub fetched : List String

-- What a call returns: what it reads of `cachedKey`, or an error.
pub data Answer : Type 0 where
  read : Option String → Answer
  error : Answer

-- Where a call stands, with the local values that are live there. Those from `again` to `leaving` are under the lock.
pub data Pc : Type 0 where
  begin : Pc
  has_key : Pc
  has_expiration : ℕ → Pc
  reading : Pc
  waiting : Pc
  again : Pc
  again_key : Pc
  again_expiration : ℕ → Pc
  again_reading : Pc
  fetching : Pc
  storing : String → Pc
  timing : Pc
  timed : ℕ → Pc
  stored : Pc
  leaving : Answer → Pc
  finished : Answer → Pc

abbrev pub is_held : Option String → Bool
is_held none = false
is_held (some k) = true

-- One step of one call. The request for the key may fail or get any body.
pub data Move (cache_ttl : ℕ) (m : Memory) : Pc → Memory → Pc → Type 0 where
  no_key : is_held m.key ≡ false → Move cache_ttl m begin m waiting
  some_key : is_held m.key ≡ true → Move cache_ttl m begin m has_key
  read_expiration : Move cache_ttl m has_key m (has_expiration m.expiration)
  live : {e : ℕ} → m.now < e → Move cache_ttl m (has_expiration e) m reading
  expired : {e : ℕ} → e ≤ m.now → Move cache_ttl m (has_expiration e) m waiting
  read_key : Move cache_ttl m reading m (finished (read m.key))
  lock : m.locked ≡ false → Move cache_ttl m waiting (record m { locked = true }) again
  again_none : is_held m.key ≡ false → Move cache_ttl m again m fetching
  again_some : is_held m.key ≡ true → Move cache_ttl m again m again_key
  again_read_expiration : Move cache_ttl m again_key m (again_expiration m.expiration)
  again_live : {e : ℕ} → m.now < e → Move cache_ttl m (again_expiration e) m again_reading
  again_expired : {e : ℕ} → e ≤ m.now → Move cache_ttl m (again_expiration e) m fetching
  again_read : Move cache_ttl m again_reading m (leaving (read m.key))
  fetch_fails : Move cache_ttl m fetching m (leaving error)
  fetch :
      (body : String)
      → Move cache_ttl m fetching (record m { fetched = body ∷ m.fetched }) (storing body)
  store_key :
      {body : String} → Move cache_ttl m (storing body) (record m { key = some body }) timing
  read_clock : Move cache_ttl m timing m (timed m.now)
  store_expiration :
      {n : ℕ} → Move cache_ttl m (timed n) (record m { expiration = n + cache_ttl }) stored
  return_key : Move cache_ttl m stored m (leaving (read m.key))
  unlock : {a : Answer} → Move cache_ttl m (leaving a) (record m { locked = false }) (finished a)

-- The calls, each with a number; one that has not begun stands at `begin`.
pub record System : Type 0 where
  pub mem : Memory
  pub pc : ℕ → Pc

-- `NewJwtVerifier` at the time `n`.
abbrev pub initial : ℕ → System
initial n = record {
  mem = record { key = none; expiration = 0; locked = false; now = n; fetched = [] };
  pc = λ i. begin;
}

-- Any call does its next step, or time goes on.
pub data Step (cache_ttl : ℕ) (s : System) : System → Type 0 where
  pick :
      (i : ℕ) {m : Memory} {p : Pc}
      → Move cache_ttl s.mem (s.pc i) m p
      → Step cache_ttl s (record { mem = m; pc = update s.pc i p })
  tick :
      (n : ℕ)
      → s.mem.now ≤ n
      → Step cache_ttl s (record { mem = record s.mem { now = n }; pc = s.pc })

pub data Reach (cache_ttl start : ℕ) : System → Type 0 where
  at_start : Reach cache_ttl start (initial start)
  later : {s t : System} → Reach cache_ttl start s → Step cache_ttl s t → Reach cache_ttl start t
