-- ===== src/Shutdown/Finite.antt =====
-- Checks of all states of the process at its end.
use mathlib.Core.Bool.{false≢true}
use servicegateway.Prelude.{
  ◌≡◌, refl, Bool, true, false, not, ◌&&◌, ◌||◌, inl, inr, Bool-cases, List, [], ◌∷◌,
}
use servicegateway.Shutdown.{
  SignalLoop, idle, telling_monitor, telling_servers, Monitor, running, deregistering, completing,
  complete, stopped, Waiter, for_monitor, for_servers, finishing, exited, Closer, unborn, waiting,
  closing, reporting, ended, Servers, starting, building, made, serving, closed, failed, deaf,
  State, goroutines, Label, take_signal, send_shutdown, send_server_shutdown, deregister,
  complete_shutdown, start_closer, start_servers, listen, fail_build, shutdown_servers,
  complete_server_shutdown, finish,
}

-- A value of the list.
data In {A : Type 0} (a : A) : List A → Type 0 where
  here : {xs : List A} → In a (a ∷ xs)
  there : {b : A} {xs : List A} → In a xs → In a (b ∷ xs)

abbrev pub every : {A : Type 0} → List A → (A → Bool) → Bool
every [] f = true
every (a ∷ xs) f = f a && every xs f

pub both : (a b : Bool) → a && b ≡ true → (a ≡ true) × (b ≡ true)
both true b e = (refl, e)
both false b e = absurd (false≢true e)

every-In :
    {A : Type 0} (a : A) (xs : List A) (f : A → Bool) → In a xs → every xs f ≡ true → f a ≡ true
every-In a [] f at e = elim at [ ]
every-In a (_ ∷ xs) f here e = (both (f a) (every xs f) e).0
every-In a (b ∷ xs) f (there h) e = every-In a xs f h (both (f b) (every xs f) e).1

pub implied : (a b : Bool) → not a || b ≡ true → a ≡ true → b ≡ true
implied true b e t = e
implied false b e t = absurd (false≢true t)

-- A value that passes, if not all fail.
pub find :
    {A : Type 0} (xs : List A) (f : A → Bool)
    → not (every xs (λ a. not (f a))) ≡ true
    → (a : A) × (f a ≡ true)
find [] f e = absurd (false≢true e)
find (a ∷ xs) f e = elim (Bool-cases (f a)) [ inl t ↦ (a, t) | inr t ↦ find xs f (rw t at e) ]

abbrev pub loops : List SignalLoop
loops = idle ∷ telling_monitor ∷ telling_servers ∷ []

In-loops : (x : SignalLoop) → In x loops
In-loops idle = here
In-loops telling_monitor = there here
In-loops telling_servers = there (there here)

abbrev pub monitors : List Monitor
monitors = running ∷ deregistering ∷ completing ∷ complete ∷ stopped ∷ []

In-monitors : (x : Monitor) → In x monitors
In-monitors running = here
In-monitors deregistering = there here
In-monitors completing = there (there here)
In-monitors complete = there (there (there here))
In-monitors stopped = there (there (there (there here)))

abbrev pub waiters : List Waiter
waiters = for_monitor ∷ for_servers ∷ finishing ∷ exited ∷ []

In-waiters : (x : Waiter) → In x waiters
In-waiters for_monitor = here
In-waiters for_servers = there here
In-waiters finishing = there (there here)
In-waiters exited = there (there (there here))

abbrev pub closers : List Closer
closers = unborn ∷ waiting ∷ closing ∷ reporting ∷ ended ∷ []

In-closers : (x : Closer) → In x closers
In-closers unborn = here
In-closers waiting = there here
In-closers closing = there (there here)
In-closers reporting = there (there (there here))
In-closers ended = there (there (there (there here)))

abbrev pub servers : List Servers
servers = starting ∷ building ∷ serving ∷ closed ∷ failed ∷ made ∷ deaf ∷ []

In-servers : (x : Servers) → In x servers
In-servers starting = here
In-servers building = there here
In-servers serving = there (there here)
In-servers closed = there (there (there here))
In-servers failed = there (there (there (there here)))
In-servers made = there (there (there (there (there here))))
In-servers deaf = there (there (there (there (there (there here)))))

abbrev pub labels : List Label
labels =
    take_signal ∷ send_shutdown ∷ send_server_shutdown ∷ deregister ∷ complete_shutdown
    ∷ start_closer ∷ start_servers ∷ fail_build ∷ shutdown_servers ∷ complete_server_shutdown
    ∷ finish ∷ listen ∷ []

In-labels : (x : Label) → In x labels
In-labels take_signal = here
In-labels send_shutdown = there here
In-labels send_server_shutdown = there (there here)
In-labels deregister = there (there (there here))
In-labels complete_shutdown = there (there (there (there here)))
In-labels start_closer = there (there (there (there (there here))))
In-labels start_servers = there (there (there (there (there (there here)))))
In-labels fail_build = there (there (there (there (there (there (there here))))))
In-labels shutdown_servers = there (there (there (there (there (there (there (there here)))))))
In-labels complete_server_shutdown =
    there (there (there (there (there (there (there (there (there here))))))))
In-labels finish =
    there (there (there (there (there (there (there (there (there (there here)))))))))
In-labels listen =
    there (there (there (there (there (there (there (there (there (there (there here))))))))))

abbrev pub booleans : List Bool
booleans = true ∷ false ∷ []

In-booleans : (x : Bool) → In x booleans
In-booleans true = here
In-booleans false = there here

-- All states pass a test.
abbrev pub every_state : (State → Bool) → Bool
every_state f = every booleans (λ p. every loops (λ i. every monitors (λ m.
    every waiters (λ w. every closers (λ c. every servers (λ s. f (goroutines p i m w c s)))))))

pub every_state_lem : (f : State → Bool) → every_state f ≡ true → (s : State) → f s ≡ true
every_state_lem f e (goroutines p i m w c s) =
    let on_servers : Bool → SignalLoop → Monitor → Waiter → Closer → Bool =
      λ p i m w c. every servers (λ s. f (goroutines p i m w c s)) in
    let on_closers : Bool → SignalLoop → Monitor → Waiter → Bool =
      λ p i m w. every closers (on_servers p i m w) in
    let on_waiters : Bool → SignalLoop → Monitor → Bool =
      λ p i m. every waiters (on_closers p i m) in
    let on_monitors : Bool → SignalLoop → Bool = λ p i. every monitors (on_waiters p i) in
    let on_loops : Bool → Bool = λ p. every loops (on_monitors p) in
    let loops_pass = every-In p booleans on_loops (In-booleans p) e in
    let monitors_pass = every-In i loops (on_monitors p) (In-loops i) loops_pass in
    let waiters_pass = every-In m monitors (on_waiters p i) (In-monitors m) monitors_pass in
    let closers_pass = every-In w waiters (on_closers p i m) (In-waiters w) waiters_pass in
    let servers_pass = every-In c closers (on_servers p i m w) (In-closers c) closers_pass in
    every-In s servers (λ s. f (goroutines p i m w c s)) (In-servers s) servers_pass

pub every_label_lem : (f : Label → Bool) → every labels f ≡ true → (l : Label) → f l ≡ true
every_label_lem f e l = every-In l labels f (In-labels l) e
