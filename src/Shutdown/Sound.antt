-- ===== src/Shutdown/Sound.antt =====
-- The states that the process can come to (main.go), and a check of each.
use servicegateway.Prelude.{
  ℕ, ◌+◌, ◌≡◌, refl, sym, subst, Bool, true, false, not, ◌&&◌, ◌||◌, Option, none, some, ltb,
}
use servicegateway.Shutdown.{
  SignalLoop, idle, telling_monitor, telling_servers, Monitor, running, deregistering, completing,
  complete, stopped, Waiter, for_monitor, for_servers, finishing, exited, Closer, unborn, waiting,
  closing, reporting, ended, Servers, starting, building, made, deaf, State, goroutines, interrupt,
  Label, Controller, no_integration, consul_integration, step,
}
use servicegateway.Shutdown.Finite.{every, labels, every_state}

-- The number of steps that are left; each wait of a goroutine weighs what may follow it.
abbrev pub loop_left : SignalLoop → ℕ
loop_left idle = 2
loop_left telling_monitor = 1
loop_left telling_servers = 0

abbrev pub monitor_left : Monitor → ℕ
monitor_left running = 3
monitor_left deregistering = 2
monitor_left completing = 1
monitor_left _ = 0

abbrev pub waiter_left : Waiter → ℕ
waiter_left for_monitor = 3
waiter_left for_servers = 2
waiter_left finishing = 1
waiter_left exited = 0

abbrev pub closer_left : Closer → ℕ
closer_left unborn = 6
closer_left waiting = 5
closer_left closing = 2
closer_left reporting = 1
closer_left ended = 0

abbrev pub servers_left : Servers → ℕ
servers_left starting = 3
servers_left building = 2
servers_left made = 1
servers_left _ = 0

abbrev pub left : State → ℕ
left (goroutines p i m w c s) =
    loop_left i + monitor_left m + waiter_left w + closer_left c + servers_left s

abbrev pub has_exited : State → Bool
has_exited (goroutines p i m exited c s) = true
has_exited s = false

-- The monitor's shutdown has begun.
abbrev pub told : Monitor → Bool
told running = false
told _ = true

-- How far the three goroutines that meet have come with each other.
abbrev pub in_step : Monitor → Waiter → Closer → Bool
in_step complete for_servers ended = false
in_step complete for_servers c = true
in_step complete finishing ended = true
in_step complete exited ended = true
in_step stopped w c = false
in_step complete w c = false
in_step m for_monitor ended = false
in_step m for_monitor c = true
in_step m w c = false

-- The servers have been told to close, or will be.
abbrev pub passes_on : SignalLoop → Monitor → Closer → Bool
passes_on telling_servers m unborn = told m
passes_on telling_servers m waiting = told m
passes_on telling_servers m c = false
passes_on i running unborn = true
passes_on i running waiting = true
passes_on i running c = false
passes_on i m unborn = false
passes_on i m waiting = false
passes_on i m c = true

abbrev pub born : Closer → Servers → Bool
born unborn starting = true
born unborn s = false
born c starting = false
born c s = true

-- Only the controller for Consul deregisters.
abbrev pub belongs : Controller → Monitor → Bool
belongs no_integration deregistering = false
belongs _ m = true

-- Servers that can listen do.
abbrev pub hears : Bool → Servers → Bool
hears true deaf = false
hears _ s = true

abbrev pub sound : Controller → Bool → State → Bool
sound controller listens (goroutines p i m w c s) =
    belongs controller m && (in_step m w c && (passes_on i m c && (born c s && hears listens s)))

-- An interrupt has come.
abbrev pub signalled : State → Bool
signalled (goroutines true i m w c s) = true
signalled (goroutines p idle m w c s) = told m
signalled s = true

abbrev pub is_some : Option State → Bool
is_some none = false
is_some (some s) = true

module _ (controller : Controller) (deregisters listens : Bool) where
  abbrev pub can_take : State → Label → Bool
  can_take s l = is_some (step controller deregisters listens l s)

  abbrev pub fine_after : State → Option State → Bool
  fine_after s none = true
  fine_after s (some s') =
      ltb (left s') (left s) && (sound controller listens s' && (not (signalled s) || signalled s'))

  -- What is checked of a state; there is a next step only for servers that can listen.
  abbrev pub check_state : State → Bool
  check_state s =
      not (sound controller listens s)
      || (every labels (λ l. fine_after s (step controller deregisters listens l s))
          && (sound controller listens (interrupt s)
              && (not (listens && signalled s)
                  || (has_exited s || not (every labels (λ l. not (can_take s l)))))))

checked_no_integration :
    (b listens : Bool) → every_state (check_state no_integration b listens) ≡ true
unfolding step
checked_no_integration true true = refl
checked_no_integration true false = refl
checked_no_integration false true = refl
checked_no_integration false false = refl

checked_consul : (listens : Bool) → every_state (check_state consul_integration true listens) ≡ true
unfolding step
checked_consul true = refl
checked_consul false = refl

-- `shutdown` does not fail.
abbrev pub Reliable : Controller → Bool → Type 0
Reliable no_integration b = Unit
Reliable consul_integration b = b ≡ true

pub checked :
    (controller : Controller) (b listens : Bool)
    → Reliable controller b
    → every_state (check_state controller b listens) ≡ true
checked no_integration b listens r = checked_no_integration b listens
checked consul_integration b listens r =
    subst (λ x. every_state (check_state consul_integration x listens) ≡ true) (sym r)
      (checked_consul listens)
