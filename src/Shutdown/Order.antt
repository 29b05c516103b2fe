-- ===== src/Shutdown/Order.antt =====
-- What has been done when the process ends (main.go).
use mathlib.Core.Bool.{false≢true}
use servicegateway.Prelude.{◌≡◌, refl, Bool, true, false, ◌⊎◌, inl, inr}
use servicegateway.Shutdown.{
  SignalLoop, Monitor, running, deregistering, completing, complete, stopped, exited, Closer,
  unborn, waiting, closing, reporting, ended, Servers, goroutines, Controller, no_integration,
  consul_integration, Reachable,
}
use servicegateway.Shutdown.Finite.{both}
use servicegateway.Shutdown.Sound.{in_step, belongs, Reliable}
use servicegateway.Shutdown.Exit.{Reachable-sound}
use servicegateway.Shutdown.Stuck.{never_exited}

in_step-exited :
    (m : Monitor) (c : Closer) → in_step m exited c ≡ true → (m ≡ complete) × (c ≡ ended)
in_step-exited complete ended e = (refl, refl)
in_step-exited complete unborn e = absurd (false≢true e)
in_step-exited complete waiting e = absurd (false≢true e)
in_step-exited complete closing e = absurd (false≢true e)
in_step-exited complete reporting e = absurd (false≢true e)
in_step-exited stopped c e = absurd (false≢true e)
in_step-exited running c e = absurd (false≢true e)
in_step-exited deregistering c e = absurd (false≢true e)
in_step-exited completing c e = absurd (false≢true e)

Reliable-complete :
    (controller : Controller) (b listens : Bool)
    → Reliable controller b
    → (p : Bool) (i : SignalLoop) (m : Monitor) (c : Closer) (s : Servers)
    → Reachable controller b listens (goroutines p i m exited c s)
    → (m ≡ complete) × (c ≡ ended)
Reliable-complete controller b listens reliable p i m c s r =
    let (_, rest) =
      both (belongs controller m) _ (Reachable-sound controller b listens reliable _ r) in
    in_step-exited m c (both (in_step m exited c) _ rest).0

-- When `main` returns, the shutdown of the controller is complete, the goroutine that closes the servers has reported
-- and ended, and with the controller for Consul the deregistration has succeeded.
pub exited-complete :
    (controller : Controller) (b listens p : Bool) (i : SignalLoop) (m : Monitor) (c : Closer)
    (s : Servers)
    → Reachable controller b listens (goroutines p i m exited c s)
    → (m ≡ complete) × (c ≡ ended) × ((controller ≡ no_integration) ⊎ (b ≡ true))
exited-complete no_integration b listens p i m c s r =
    let (done, closed) = Reliable-complete no_integration b listens tt p i m c s r in
    (done, closed, inl refl)
exited-complete consul_integration true listens p i m c s r =
    let (done, closed) = Reliable-complete consul_integration true listens refl p i m c s r in
    (done, closed, inr refl)
exited-complete consul_integration false listens p i m c s r =
    absurd (never_exited listens p i m c s r)
