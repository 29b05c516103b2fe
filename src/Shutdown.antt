-- ===== src/Shutdown.antt =====
-- The end of the process: the goroutines of main.go and the controllers of monitoring, which speak over
-- channels without buffers. Consul's answer to the deregistration is a parameter, and so is whether the servers can
-- listen at their addresses: `Close` of github.com/braintree/manners waits for the server to serve.
pub mod Finite
pub mod Sound
pub mod Exit
pub mod Stuck
pub mod Order
pub mod Bound
pub mod Deaf
mod Tests
use servicegateway.Prelude.{◌≡◌, Bool, true, false, Option, none, some}

-- The goroutine that waits for interrupts.
pub data SignalLoop : Type 0 where
  idle : SignalLoop
  telling_monitor : SignalLoop
  telling_servers : SignalLoop

-- The goroutine that a controller's `Start` leaves behind for the shutdown; `stopped` is an error of
-- `shutdown`.
pub data Monitor : Type 0 where
  running : Monitor
  deregistering : Monitor
  completing : Monitor
  complete : Monitor
  stopped : Monitor

-- The goroutine that waits for the two shutdowns; with `exited`, `main` has received `done`.
pub data Waiter : Type 0 where
  for_monitor : Waiter
  for_servers : Waiter
  finishing : Waiter
  exited : Waiter

-- The goroutine that closes the servers.
pub data Closer : Type 0 where
  unborn : Closer
  waiting : Closer
  closing : Closer
  reporting : Closer
  ended : Closer

-- The goroutine that builds the handlers and starts the servers, and what its servers do; `made` ones have not begun
-- to serve, and of `deaf` ones, one has not been able to listen.
pub data Servers : Type 0 where
  starting : Servers
  building : Servers
  made : Servers
  serving : Servers
  closed : Servers
  failed : Servers
  deaf : Servers

-- The flag says that the channel of signals, which has room for one, is full.
pub data State : Type 0 where
  goroutines : Bool → SignalLoop → Monitor → Waiter → Closer → Servers → State

abbrev pub initial : State
initial = goroutines false idle running for_monitor unborn starting

-- What the process does next; two goroutines that meet at a channel do one step.
pub data Label : Type 0 where
  take_signal : Label
  send_shutdown : Label
  send_server_shutdown : Label
  deregister : Label
  complete_shutdown : Label
  start_closer : Label
  start_servers : Label
  listen : Label
  fail_build : Label
  shutdown_servers : Label
  complete_server_shutdown : Label
  finish : Label

-- An interrupt; one that comes while another is in the channel is lost.
abbrev pub interrupt : State → State
interrupt (goroutines p i m w c s) = goroutines true i m w c s

pub data Controller : Type 0 where
  no_integration : Controller
  consul_integration : Controller

-- The beginning of `shutdown`.
abbrev pub begin_shutdown : Controller → Monitor
begin_shutdown no_integration = completing
begin_shutdown consul_integration = deregistering

-- `shutdown` of the controller for Consul, by whether `ServiceDeregister` succeeds.
abbrev pub after_deregister : Bool → Monitor
after_deregister true = completing
after_deregister false = stopped

-- `ListenAndServe` of the two servers, by whether both can listen; main.go drops the error.
abbrev pub after_listen : Bool → Servers
after_listen true = serving
after_listen false = deaf

-- `shutdownServers`, where it returns: only servers that have been made are closed.
abbrev pub close_servers : Servers → Servers
close_servers serving = closed
close_servers s = s

module _ (controller : Controller) (deregisters listens : Bool) where
  -- One step, if it can be taken; after `main` has returned there is none.
  unfoldable pub step : Label → State → Option State
  step l (goroutines p i m exited c s) = none
  step take_signal (goroutines true idle m w c s) = some (goroutines false telling_monitor m w c s)
  step send_shutdown (goroutines p telling_monitor running w c s) =
      some (goroutines p telling_servers (begin_shutdown controller) w c s)
  step send_server_shutdown (goroutines p telling_servers m w waiting s) =
      some (goroutines p idle m w closing s)
  step deregister (goroutines p i deregistering w c s) =
      some (goroutines p i (after_deregister deregisters) w c s)
  step complete_shutdown (goroutines p i completing for_monitor c s) =
      some (goroutines p i complete for_servers c s)
  step start_closer (goroutines p i m w unborn starting) =
      some (goroutines p i m w waiting building)
  step start_servers (goroutines p i m w c building) = some (goroutines p i m w c made)
  step listen (goroutines p i m w c made) = some (goroutines p i m w c (after_listen listens))
  step fail_build (goroutines p i m w c building) = some (goroutines p i m w c failed)
  step shutdown_servers (goroutines p i m w closing made) = none
  step shutdown_servers (goroutines p i m w closing deaf) = none
  step shutdown_servers (goroutines p i m w closing s) =
      some (goroutines p i m w reporting (close_servers s))
  step complete_server_shutdown (goroutines p i m for_servers reporting s) =
      some (goroutines p i m finishing ended s)
  step finish (goroutines p i m finishing c s) = some (goroutines p i m exited c s)
  step l s = none

  -- The states that the process can come to.
  pub data Reachable : State → Type 0 where
    initially : Reachable initial
    interrupted : (s : State) → Reachable s → Reachable (interrupt s)
    stepped : (l : Label) (s s' : State) → Reachable s → step l s ≡ some s' → Reachable s'
