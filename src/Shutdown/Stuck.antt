-- ===== src/Shutdown/Stuck.antt =====
-- The process and a deregistration that fails (main.go, monitoring/consul_controller.go).
use mathlib.Core.Bool.{false≢true}
use servicegateway.Prelude.{
  ◌≡◌, refl, subst, Bool, true, false, not, ◌&&◌, ◌||◌, Option, none, some,
}
use servicegateway.Shutdown.{
  SignalLoop, Monitor, completing, complete, Waiter, for_monitor, for_servers, finishing, exited,
  Closer, Servers, State, goroutines, interrupt, Label, consul_integration, step, Reachable,
  initially, interrupted, stepped,
}
use servicegateway.Shutdown.Finite.{
  every, labels, every_state, every_state_lem, every_label_lem, both, implied,
}

abbrev waits : Waiter → Bool
waits for_monitor = true
waits _ = false

abbrev reports : Monitor → Bool
reports completing = true
reports complete = true
reports _ = false

-- Nothing has reached the goroutine that waits for the controller.
abbrev held_up : State → Bool
held_up (goroutines p i m w c s) = waits w && not (reports m)

waits_lem : (w : Waiter) → waits w ≡ true → w ≡ for_monitor
waits_lem for_monitor e = refl
waits_lem for_servers e = absurd (false≢true e)
waits_lem finishing e = absurd (false≢true e)
waits_lem exited e = absurd (false≢true e)

abbrev held_after : Option State → Bool
held_after none = true
held_after (some s) = held_up s

abbrev check_state : Bool → State → Bool
check_state listens s =
    not (held_up s)
    || (held_up (interrupt s)
        && every labels (λ l. held_after (step consul_integration false listens l s)))

checked : (listens : Bool) → every_state (check_state listens) ≡ true
unfolding step
checked true = refl
checked false = refl

step-held_up :
    (listens : Bool) (s s' : State) (l : Label)
    → held_up s ≡ true
    → step consul_integration false listens l s ≡ some s'
    → held_up s' ≡ true
step-held_up listens s s' l held taken =
    let (_, steps) =
      both (held_up (interrupt s)) _
        (implied _ _ (every_state_lem (check_state listens) (checked listens) s) held) in
    subst (λ o. held_after o ≡ true) taken
      (every_label_lem (λ l. held_after (step consul_integration false listens l s)) steps l)

Reachable-held_up :
    (listens : Bool) (s : State) → Reachable consul_integration false listens s → held_up s ≡ true
Reachable-held_up listens s initially = refl
Reachable-held_up listens s (interrupted s₀ r) =
    (both (held_up (interrupt s₀)) _ (
      implied _ _ (every_state_lem (check_state listens) (checked listens) s₀)
        (Reachable-held_up listens s₀ r))).0
Reachable-held_up listens s (stepped l s₀ _ r taken) =
    step-held_up listens s₀ s l (Reachable-held_up listens s₀ r) taken

-- If Consul does not take the deregistration, then the goroutine that waits for the shutdown waits for the
-- controller for ever: in no state that the process can come to has it gone on, so `main` does not return.
pub failed_deregister-waits :
    (listens p : Bool) (i : SignalLoop) (m : Monitor) (w : Waiter) (c : Closer) (s : Servers)
    → Reachable consul_integration false listens (goroutines p i m w c s)
    → w ≡ for_monitor
failed_deregister-waits listens p i m w c s r =
    waits_lem w (both (waits w) _ (Reachable-held_up listens _ r)).0

pub never_exited :
    (listens p : Bool) (i : SignalLoop) (m : Monitor) (c : Closer) (s : Servers)
    → ¬ Reachable consul_integration false listens (goroutines p i m exited c s)
never_exited listens p i m c s r =
    false≢true (both (waits exited) (not (reports m)) (Reachable-held_up listens _ r)).0
