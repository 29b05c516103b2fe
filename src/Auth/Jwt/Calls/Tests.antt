-- ===== src/Auth/Jwt/Calls/Tests.antt =====
-- Two calls of `GetVerificationKey`, of which the first requests the key.
use native.Mathlib.Decide.{ℕ_discrete}
use servicegateway.Prelude.{ℕ, String, ◌≡◌, refl, true, false, ◌⊎◌, [], ◌∷◌, none, some}
use servicegateway.Prelude.Family.{update}
use servicegateway.Auth.Jwt.Calls.{
  read, begin, waiting, again, fetching, storing, timing, timed, stored, leaving, finished, Move,
  no_key, lock, again_none, fetch, store_key, read_clock, store_expiration, return_key, unlock,
  System, pick, Reach, at_start, later,
}
use servicegateway.Auth.Jwt.Calls.Invariant.{critical, is_dead, is_among}
use servicegateway.Auth.Types.{ok}
use servicegateway.Prelude.Int.{pos}
use servicegateway.Auth.Jwt.{get_verification_key}
use servicegateway.Auth.Jwt.Tests.{config}
use servicegateway.Auth.Jwt.Calls.Alone.{Run, unlocked, call_alone}
use servicegateway.Auth.Jwt.Calls.Safety.{fetching_alone, finished-is_among, Moves, waiting-Moves}

-- Both calls have found no key, and the first has the lock.
abbrev contended : System
contended = record {
  mem = record { key = none; expiration = 0; locked = true; now = 7; fetched = [] };
  pc = update (update (update (λ i. begin) 0 waiting) 1 waiting) 0 again;
}

contended-Reach : Reach 5 7 contended
unfolding ℕ_discrete
contended-Reach =
    later (later (later at_start (pick 0 (no_key refl))) (pick 1 (no_key refl)))
      (pick 0 (lock refl))

abbrev asking : System
asking = record { mem = contended.mem; pc = update contended.pc 0 fetching }

asking-Reach : Reach 5 7 asking
unfolding ℕ_discrete
asking-Reach = later contended-Reach (pick 0 (again_none refl))

abbrev answered : System
answered = record {
  mem = record { key = some "pem"; expiration = 12; locked = false; now = 7; fetched = "pem" ∷ [] };
  pc =
      update
        (update
          (update (update (update (update asking.pc 0 (storing "pem")) 0 timing) 0 (timed 7)) 0
            stored)
          0 (leaving (read (some "pem"))))
        0 (finished (read (some "pem")));
}

answered-Reach : Reach 5 7 answered
unfolding ℕ_discrete
answered-Reach =
    later
      (later
        (later
          (later (later (later asking-Reach (pick 0 (fetch "pem"))) (pick 0 store_key))
            (pick 0 read_clock))
          (pick 0 store_expiration))
        (pick 0 return_key))
      (pick 0 unlock)

fetching_alone_example :
    (is_dead asking.mem ≡ true) × ((j : ℕ) → critical (asking.pc j) ≡ true → 0 ≡ j)
unfolding ℕ_discrete
fetching_alone_example = fetching_alone asking-Reach 0 refl

finished-is_among_example :
    (k : String) × (some "pem" ≡ some k) × (is_among k answered.mem.fetched ≡ true)
unfolding ℕ_discrete
finished-is_among_example = finished-is_among answered-Reach 0 (some "pem") refl

waiting-Moves_example :
    Move 5 contended.mem (contended.pc 1) (record contended.mem { locked = true }) again
    ⊎ ((j : ℕ) × (critical (contended.pc j) ≡ true) × Moves 5 contended.mem (contended.pc j))
unfolding ℕ_discrete
waiting-Moves_example = waiting-Moves contended-Reach 1 refl

call_alone_example :
    Run 5
      (unlocked none 0 7 [])
      begin
      (record { key = some "pem"; expiration = 12; locked = false; now = 7; fetched = "pem" ∷ [] })
      (finished (read (some "pem")))
unfolding get_verification_key
call_alone_example =
    call_alone 5 (λ key token n. ok (record { expires_at = pos 9 })) (λ key token n. none)
      (some "pem") config refl none 0 7 []
