-- ===== src/Shutdown/Tests.antt =====
-- Runs of the process to its end.
use servicegateway.Prelude.{
  ◌≤◌, ◌≡◌, ◌⊎◌, refl, Bool, true, false, Option, none, some, List, [], ◌∷◌,
}
use servicegateway.Shutdown.{
  idle, telling_monitor, telling_servers, running, deregistering, completing, complete, stopped,
  for_monitor, for_servers, finishing, exited, waiting, closing, reporting, ended, closed, building,
  made, serving, deaf, State, goroutines, initial, interrupt, Label, take_signal, send_shutdown,
  send_server_shutdown, deregister, complete_shutdown, start_closer, start_servers, listen,
  shutdown_servers, complete_server_shutdown, finish, Controller, no_integration,
  consul_integration, step, Reachable, initially, interrupted, stepped,
}
use servicegateway.Shutdown.Sound.{has_exited}
use servicegateway.Shutdown.Exit.{Ends, interrupt-Ends}
use servicegateway.Shutdown.Stuck.{failed_deregister-waits}
use servicegateway.Shutdown.Bound.{
  interrupting, stepping, none_yet, after_interrupt, after_step, steps_bounded,
}
use servicegateway.Shutdown.Deaf.{failed_listen-never_exits}
use servicegateway.Shutdown.Order.{exited-complete}

abbrev run : Controller → Bool → Bool → List Label → State → Option State
unfolding step
run controller b listens [] s = some s
run controller b listens (l ∷ ls) s = elim (step controller b listens l s) [
  | none ↦ none
  | some s' ↦ run controller b listens ls s'
]

-- An interrupt while the servers run.
whole_run :
    run consul_integration true true
      (take_signal ∷ send_shutdown ∷ deregister ∷ complete_shutdown ∷ send_server_shutdown
        ∷ shutdown_servers ∷ complete_server_shutdown ∷ finish ∷ [])
      (goroutines true idle running for_monitor waiting serving)
    ≡ some (goroutines false idle complete exited ended closed)
unfolding run step
whole_run = refl

-- An interrupt while the handlers are built: the process ends with servers that nobody closes.
early_interrupt :
    run no_integration true true
      (start_closer ∷ take_signal ∷ send_shutdown ∷ send_server_shutdown ∷ shutdown_servers
        ∷ start_servers ∷ complete_shutdown ∷ listen ∷ complete_server_shutdown ∷ finish ∷ [])
      (interrupt initial)
    ≡ some (goroutines false idle complete exited ended serving)
unfolding run step
early_interrupt = refl

-- The servers run, and no interrupt has come.
abbrev begun : State
begun = goroutines false idle running for_monitor waiting building

begun-Reachable :
    (controller : Controller) (b listens : Bool) → Reachable controller b listens begun
unfolding step
begun-Reachable controller b listens = stepped start_closer initial begun initially refl

interrupt-Ends_example : Ends consul_integration true true (interrupt begun)
interrupt-Ends_example =
    interrupt-Ends consul_integration true refl begun (begun-Reachable consul_integration true true)

-- An interrupt, and then an error of Consul.
abbrev given_up : State
given_up = goroutines false telling_servers stopped for_monitor waiting building

given_up-Reachable : Reachable consul_integration false true given_up
unfolding step
given_up-Reachable =
    stepped deregister (goroutines false telling_servers deregistering for_monitor waiting building)
      _
      (stepped send_shutdown (goroutines false telling_monitor running for_monitor waiting building)
        _
        (stepped take_signal (interrupt begun) _
          (interrupted begun (begun-Reachable consul_integration false true)) refl)
        refl)
      refl

failed_deregister-waits_example : for_monitor ≡ for_monitor
failed_deregister-waits_example =
    failed_deregister-waits true false telling_servers stopped for_monitor waiting building
      given_up-Reachable

-- Every goroutine has done its part.
abbrev over : State
over = goroutines false idle complete exited ended closed

over-Reachable : Reachable no_integration true true over
unfolding step
over-Reachable =
    stepped finish (goroutines false idle complete finishing ended closed) _
      (stepped complete_server_shutdown
        (goroutines false idle complete for_servers reporting closed) _
        (stepped shutdown_servers (goroutines false idle complete for_servers closing serving) _
          (stepped complete_shutdown (goroutines false idle completing for_monitor closing serving)
            _
            (stepped send_server_shutdown
              (goroutines false telling_servers completing for_monitor waiting serving) _
              (stepped send_shutdown
                (goroutines false telling_monitor running for_monitor waiting serving) _
                (stepped take_signal (goroutines true idle running for_monitor waiting serving) _
                  (interrupted (goroutines false idle running for_monitor waiting serving) (
                    stepped listen (goroutines false idle running for_monitor waiting made) _
                      (stepped start_servers begun _ (begun-Reachable no_integration true true)
                        refl)
                      refl))
                  refl)
                refl)
              refl)
            refl)
          refl)
        refl)
      refl

exited-complete_example :
    (complete ≡ complete) × (ended ≡ ended) × ((no_integration ≡ no_integration) ⊎ (true ≡ true))
exited-complete_example =
    exited-complete no_integration true true false idle complete ended closed over-Reachable

-- A second interrupt comes before the first is passed on.
steps_bounded_example : 3 ≤ 17
unfolding step
steps_bounded_example =
    steps_bounded no_integration true true
      (stepping start_closer
        ∷ interrupting
        ∷ stepping take_signal
        ∷ interrupting
        ∷ stepping send_shutdown
        ∷ [])
      (goroutines true telling_servers completing for_monitor waiting building)
      (after_step _ start_closer initial begun _ refl (
        after_interrupt _ begun _ (
          after_step _ take_signal (interrupt begun) _ _ refl (
            after_interrupt _
              (goroutines false telling_monitor running for_monitor waiting building) _
              (after_step _ send_shutdown
                (goroutines true telling_monitor running for_monitor waiting building) _ _ refl
                (none_yet _))))))

-- A server cannot listen, and then the interrupt comes.
abbrev unheard : State
unheard = goroutines false idle running for_monitor waiting deaf

unheard-Reachable : Reachable no_integration true false unheard
unfolding step
unheard-Reachable =
    stepped listen (goroutines false idle running for_monitor waiting made) _
      (stepped start_servers begun _ (begun-Reachable no_integration true false) refl) refl

failed_listen-never_exits_example :
    has_exited (goroutines false telling_monitor running for_monitor waiting deaf) ≡ false
unfolding step
failed_listen-never_exits_example =
    failed_listen-never_exits no_integration true false false idle running for_monitor
      (interrupting ∷ stepping take_signal ∷ [])
      (goroutines false telling_monitor running for_monitor waiting deaf) unheard-Reachable
      (after_interrupt _ unheard _
        (after_step _ take_signal (interrupt unheard) _ _ refl (none_yet _)))
