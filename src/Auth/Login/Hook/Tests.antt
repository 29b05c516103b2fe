-- ===== src/Auth/Login/Hook/Tests.antt =====
-- Two log-ins that use the engine, and the function `log`.
use native.Mathlib.Decide.{ℕ_discrete}
use servicegateway.Prelude.{ℕ, String, ◌≡◌, refl, true, List, [], ◌∷◌}
use servicegateway.Prelude.Family.{update}
use servicegateway.Effects.{Exec, returned, panicked as panicking}
use servicegateway.Auth.Login.Hook.{
  hook_log, arriving, in_script, in_function, examining, ended, panicked, take_lock, script_runs,
  function_returns, function_panics, examined, Engine, pick, Reach, at_start, later,
}
use servicegateway.Auth.Login.Hook.Blocked.{panicked-blocks}

abbrev log : List String → Exec (List String) String
log args w = hook_log (λ s. s) (λ s. s) (λ format values w'. format ∷ w') "undefined" args w

-- A script may call `log` with a format, and not without one.
log_needs_a_format :
    (log ("a" ∷ []) [] ≡ (returned "undefined", "a" ∷ [])) × (log [] [] ≡ (panicking, []))
unfolding hook_log
log_needs_a_format = (refl, refl)

-- The second call is in the hook's function, and the first reads the result of its own.
abbrev shared : Engine
shared = record {
  locked = true;
  places =
      update
        (update (update (update (update (λ i. arriving) 0 in_script) 0 in_function) 0 examining) 1
          in_script)
        1 in_function;
}

-- Two calls use the engine at the same time, since `Unlock` comes before the result is read.
shared-Reach : Reach shared
unfolding ℕ_discrete
shared-Reach =
    later
      (later
        (later (later (later at_start (pick 0 (take_lock refl))) (pick 0 script_runs))
          (pick 0 function_returns))
        (pick 1 (take_lock refl)))
      (pick 1 script_runs)

abbrev blocked : Engine
blocked = record { locked = true; places = update shared.places 1 panicked }

blocked-Reach : Reach blocked
unfolding ℕ_discrete
blocked-Reach = later shared-Reach (pick 1 function_panics)

panicked-blocks_example :
    (i : ℕ) × (blocked.places i ≡ examining)
    × (true ≡ true)
    × (update blocked.places 0 ended ≡ update blocked.places i ended)
unfolding ℕ_discrete
panicked-blocks_example = panicked-blocks blocked-Reach 1 refl (pick 0 examined)
