-- ===== src/Shutdown/Deaf.antt =====
-- The process and a server that cannot listen (main.go).
use mathlib.Core.Bool.{false≢true}
use servicegateway.Prelude.{
  ◌≡◌, refl, subst, Bool, true, false, not, ◌&&◌, ◌||◌, Option, none, some, List,
}
use servicegateway.Shutdown.{
  SignalLoop, Monitor, running, deregistering, completing, complete, stopped, Waiter, for_monitor,
  for_servers, finishing, exited, Closer, waiting, closing, Servers, deaf, State, goroutines,
  interrupt, Controller, no_integration, consul_integration, step, Reachable,
}
use servicegateway.Shutdown.Finite.{
  every, labels, every_state, every_state_lem, every_label_lem, both, implied,
}
use servicegateway.Shutdown.Sound.{in_step, belongs, has_exited, Reliable}
use servicegateway.Shutdown.Exit.{Reachable-sound}
use servicegateway.Shutdown.Stuck.{failed_deregister-waits}
use servicegateway.Shutdown.Bound.{Happening, Run, none_yet, after_interrupt, after_step}

abbrev still_closing : Closer → Bool
still_closing waiting = true
still_closing closing = true
still_closing _ = false

abbrev cannot_close : Servers → Bool
cannot_close deaf = true
cannot_close _ = false

abbrev waits : Waiter → Bool
waits for_monitor = true
waits for_servers = true
waits _ = false

-- The goroutine that closes the servers has not done so, and cannot.
abbrev blocked : State → Bool
blocked (goroutines p i m w c s) = waits w && (still_closing c && cannot_close s)

abbrev blocked_after : Option State → Bool
blocked_after none = true
blocked_after (some s) = blocked s

abbrev check_state : Controller → Bool → Bool → State → Bool
check_state controller b listens s =
    not (blocked s)
    || (blocked (interrupt s) && every labels (λ l. blocked_after (step controller b listens l s)))

checked :
    (controller : Controller) (b listens : Bool)
    → every_state (check_state controller b listens) ≡ true
unfolding step
checked no_integration true true = refl
checked no_integration true false = refl
checked no_integration false true = refl
checked no_integration false false = refl
checked consul_integration true true = refl
checked consul_integration true false = refl
checked consul_integration false true = refl
checked consul_integration false false = refl

module _ (controller : Controller) (b listens : Bool) where
  blocked-next :
      (s : State)
      → blocked s ≡ true
      → (blocked (interrupt s) ≡ true)
        × (every labels (λ l. blocked_after (step controller b listens l s)) ≡ true)
  blocked-next s held = both (blocked (interrupt s)) _ (
      implied _ _
        (every_state_lem (check_state controller b listens) (checked controller b listens) s) held)

  Run-blocked :
      (hs : List Happening) (s s' : State)
      → Run controller b listens hs s s'
      → blocked s ≡ true
      → blocked s' ≡ true
  Run-blocked _ s _ (none_yet _) held = held
  Run-blocked _ s s' (after_interrupt hs _ _ r) held =
      Run-blocked hs (interrupt s) s' r (blocked-next s held).0
  Run-blocked _ s end (after_step hs l _ s' _ taken r) held = Run-blocked hs s' end r (
      subst (λ o. blocked_after o ≡ true) taken
        (every_label_lem (λ l. blocked_after (step controller b listens l s))
          (blocked-next s held).1 l))

in_step-waiting : (m : Monitor) (w : Waiter) → in_step m w waiting ≡ true → waits w ≡ true
in_step-waiting m for_monitor e = refl
in_step-waiting m for_servers e = refl
in_step-waiting complete finishing e = absurd (false≢true e)
in_step-waiting stopped finishing e = absurd (false≢true e)
in_step-waiting running finishing e = absurd (false≢true e)
in_step-waiting deregistering finishing e = absurd (false≢true e)
in_step-waiting completing finishing e = absurd (false≢true e)
in_step-waiting complete exited e = absurd (false≢true e)
in_step-waiting stopped exited e = absurd (false≢true e)
in_step-waiting running exited e = absurd (false≢true e)
in_step-waiting deregistering exited e = absurd (false≢true e)
in_step-waiting completing exited e = absurd (false≢true e)

still_waits :
    (controller : Controller) (b listens : Bool)
    → Reliable controller b
    → (p : Bool) (i : SignalLoop) (m : Monitor) (w : Waiter) (s : Servers)
    → Reachable controller b listens (goroutines p i m w waiting s)
    → waits w ≡ true
still_waits controller b listens reliable p i m w s r =
    let (_, rest) =
      both (belongs controller m) _ (Reachable-sound controller b listens reliable _ r) in
    in_step-waiting m w (both (in_step m w waiting) _ rest).0

waits_lem :
    (controller : Controller) (b listens p : Bool) (i : SignalLoop) (m : Monitor) (w : Waiter)
    (s : Servers)
    → Reachable controller b listens (goroutines p i m w waiting s)
    → waits w ≡ true
waits_lem no_integration b listens p i m w s r = still_waits no_integration b listens tt p i m w s r
waits_lem consul_integration true listens p i m w s r =
    still_waits consul_integration true listens refl p i m w s r
waits_lem consul_integration false listens p i m w s r =
    rw (failed_deregister-waits listens p i m w waiting s r) refl

blocked_on : (s : State) → blocked s ≡ true → has_exited s ≡ false
blocked_on (goroutines p i m for_monitor c s) held = refl
blocked_on (goroutines p i m for_servers c s) held = refl
blocked_on (goroutines p i m finishing c s) held = absurd (false≢true held)
blocked_on (goroutines p i m exited c s) held = absurd (false≢true held)

-- One of the servers has not been able to listen, and the servers have not been told to close. Then `main` does not
-- return, with either controller, whatever happens next and however many interrupts come: `shutdownServers` waits
-- in `Close` for a server that does not serve.
pub failed_listen-never_exits :
    (controller : Controller) (b listens p : Bool) (i : SignalLoop) (m : Monitor) (w : Waiter)
    (hs : List Happening) (s : State)
    → Reachable controller b listens (goroutines p i m w waiting deaf)
    → Run controller b listens hs (goroutines p i m w waiting deaf) s
    → has_exited s ≡ false
failed_listen-never_exits controller b listens p i m w hs s r run = blocked_on s (
    Run-blocked controller b listens hs (goroutines p i m w waiting deaf) s run
      (rw (waits_lem controller b listens p i m w deaf r) refl))
