-- ===== src/Shutdown/Exit.antt =====
-- Which runs of the process end (main.go).
use mathlib.Core.Bool.{false≢true}
use servicegateway.Prelude.{
  ℕ, zero, suc, ◌<◌, ◌≡◌, refl, sym, subst, Bool, true, false, not, ◌&&◌, ◌||◌, Option, none, some,
  inl, inr, arith, Bool-cases, ltb,
}
use servicegateway.Shutdown.{
  for_monitor, for_servers, finishing, exited, State, goroutines, initial, interrupt, Label,
  Controller, no_integration, consul_integration, step, Reachable, initially, interrupted, stepped,
}
use servicegateway.Shutdown.Finite.{
  every, labels, every_state_lem, every_label_lem, both, implied, find,
}
use servicegateway.Shutdown.Sound.{
  left, has_exited, sound, signalled, is_some, can_take, fine_after, check_state, Reliable, checked,
}

module _ (controller : Controller) (deregisters listens : Bool) where
  abbrev Move : State → Type 0
  Move s = (l : Label) × (s' : State) × (step controller deregisters listens l s ≡ some s')

  -- The process ends, whatever it does next and however many interrupts come: it has ended, or it
  -- can take a step, before and after an interrupt, and the process ends after each that it can take.
  pub data Ends : State → Type 0 where
    ended_now : (s : State) → has_exited s ≡ true → Ends s
    later :
        (s : State)
        → Move s
        → Move (interrupt s)
        → ((l : Label) (s' : State) → step controller deregisters listens l s ≡ some s' → Ends s')
        → ((l : Label) (s' : State)
            → step controller deregisters listens l (interrupt s) ≡ some s'
            → Ends s')
        → Ends s

signalled-interrupt : (s : State) → signalled (interrupt s) ≡ true
signalled-interrupt (goroutines p i m w c s) = refl

pub left-interrupt : (s : State) → left (interrupt s) ≡ left s
left-interrupt (goroutines p i m w c s) = refl

on_interrupted : (s : State) → has_exited s ≡ false → has_exited (interrupt s) ≡ false
on_interrupted (goroutines p i m for_monitor c s) on = refl
on_interrupted (goroutines p i m for_servers c s) on = refl
on_interrupted (goroutines p i m finishing c s) on = refl
on_interrupted (goroutines p i m exited c s) on = on

initial-sound : (controller : Controller) (listens : Bool) → sound controller listens initial ≡ true
initial-sound no_integration true = refl
initial-sound no_integration false = refl
initial-sound consul_integration true = refl
initial-sound consul_integration false = refl

is_some_lem : (o : Option State) → is_some o ≡ true → (s : State) × (o ≡ some s)
is_some_lem none e = absurd (false≢true e)
is_some_lem (some s) e = (s, refl)

module _ (controller : Controller) (deregisters listens : Bool)
    (reliable : Reliable controller deregisters) where
  checks :
      (s : State)
      → sound controller listens s ≡ true
      → (every labels (λ l.
            fine_after controller deregisters listens s (step controller deregisters listens l s))
          ≡ true)
        × (sound controller listens (interrupt s) ≡ true)
        × (not (listens && signalled s)
              || (has_exited s
                  || not (every labels (λ l. not (can_take controller deregisters listens s l))))
            ≡ true)
  checks s ok =
      let all =
        implied _ _
          (every_state_lem (check_state controller deregisters listens)
            (checked controller deregisters listens reliable) s)
          ok in
      let (steps, rest) = both _ _ all in let (int, prog) = both _ _ rest in (steps, int, prog)

  step-sound :
      (s s' : State) (l : Label)
      → sound controller listens s ≡ true
      → step controller deregisters listens l s ≡ some s'
      → (left s' < left s)
        × (sound controller listens s' ≡ true)
        × (signalled s ≡ true → signalled s' ≡ true)
  step-sound s s' l ok taken =
      let fine =
        every_label_lem
          (λ l.
            fine_after controller deregisters listens s (step controller deregisters listens l s))
          (checks s ok).0 l in
      let (less, rest) =
        both (ltb (left s') (left s)) _
          (subst (λ o. fine_after controller deregisters listens s o ≡ true) taken fine) in
      let (ok', signal) = both _ _ rest in (ground (arith, less), ok', implied _ _ signal)

  pub Reachable-sound :
      (s : State) → Reachable controller deregisters listens s → sound controller listens s ≡ true
  Reachable-sound s initially = initial-sound controller listens
  Reachable-sound s (interrupted s₀ r) = (checks s₀ (Reachable-sound s₀ r)).1
  Reachable-sound s (stepped l s₀ _ r taken) = (step-sound s₀ s l (Reachable-sound s₀ r) taken).1

module _ (controller : Controller) (deregisters : Bool)
    (reliable : Reliable controller deregisters) where
  progress :
      (s : State)
      → sound controller true s ≡ true
      → signalled s ≡ true
      → has_exited s ≡ false
      → Move controller deregisters true s
  progress s ok signal on =
      let free = implied _ _ (checks controller deregisters true reliable s ok).2 signal in
      let (l, can) = find labels (can_take controller deregisters true s) (rw on at free) in
      let (s', taken) = is_some_lem (step controller deregisters true l s) can in (l, s', taken)

  Ends-after :
      (n : ℕ)
      → ((s : State)
          → left s < n
          → sound controller true s ≡ true
          → signalled s ≡ true
          → Ends controller deregisters true s)
      → (s : State) → left s < suc n
      → sound controller true s ≡ true
      → signalled s ≡ true
      → (l : Label) (s' : State) → step controller deregisters true l s ≡ some s'
      → Ends controller deregisters true s'
  Ends-after n ends s few ok signal l s' taken =
      let (less, ok', signal') = step-sound controller deregisters true reliable s s' l ok taken in
      ends s' (omega arith) ok' (signal' signal)

  -- Steps are left for at most `n - 1` of them.
  Ends-below :
      (n : ℕ) (s : State)
      → left s < n
      → sound controller true s ≡ true
      → signalled s ≡ true
      → Ends controller deregisters true s
  Ends-below zero s few ok signal = absurd (ground (arith, few))
  Ends-below (suc n) s few ok signal = elim (Bool-cases (has_exited s)) [
    | inl gone ↦ ended_now s gone
    | inr on ↦
        later s (progress s ok signal on)
          (progress (interrupt s) (checks controller deregisters true reliable s ok).1
            (signalled-interrupt s) (on_interrupted s on))
          (Ends-after n (Ends-below n) s few ok signal)
          (Ends-after n (Ends-below n) (interrupt s)
            (subst (λ k. k < suc n) (sym (left-interrupt s)) few)
            (checks controller deregisters true reliable s ok).1 (signalled-interrupt s))
  ]

  -- Both servers can listen, and the shutdown of the controller does not fail. Then the process ends after an interrupt, whatever it has done
  -- before and does next, and however many interrupts follow.
  pub interrupt-Ends :
      (s : State)
      → Reachable controller deregisters true s
      → Ends controller deregisters true (interrupt s)
  interrupt-Ends s r =
      Ends-below (suc (left (interrupt s))) (interrupt s) (omega arith)
        (checks controller deregisters true reliable s
          (Reachable-sound controller deregisters true reliable s r)).1
        (signalled-interrupt s)
