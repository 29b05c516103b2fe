-- ===== src/Shutdown/Bound.antt =====
-- How many steps the process takes (main.go).
use servicegateway.Prelude.{
  ℕ, suc, ◌+◌, ◌≤◌, ◌<◌, ◌≡◌, refl, subst, Bool, true, false, Option, none, some, List, [], ◌∷◌,
  arith, ltb,
}
use servicegateway.Shutdown.{
  State, initial, interrupt, Label, Controller, no_integration, consul_integration, step,
}
use servicegateway.Shutdown.Finite.{every, labels, every_state, every_state_lem, every_label_lem}
use servicegateway.Shutdown.Sound.{left}
use servicegateway.Shutdown.Exit.{left-interrupt}

-- What happens next: an interrupt comes, or the process does a step.
pub data Happening : Type 0 where
  interrupting : Happening
  stepping : Label → Happening

module _ (controller : Controller) (deregisters listens : Bool) where
  -- A run, with all that happens in it, in order.
  pub data Run : List Happening → State → State → Type 0 where
    none_yet : (s : State) → Run [] s s
    after_interrupt :
        (hs : List Happening) (s s' : State)
        → Run hs (interrupt s) s'
        → Run (interrupting ∷ hs) s s'
    after_step :
        (hs : List Happening) (l : Label) (s s' end : State)
        → step controller deregisters listens l s ≡ some s'
        → Run hs s' end
        → Run (stepping l ∷ hs) s end

-- The steps of a run, without the interrupts.
abbrev pub steps : List Happening → ℕ
steps [] = 0
steps (interrupting ∷ hs) = steps hs
steps (stepping l ∷ hs) = suc (steps hs)

abbrev less_after : State → Option State → Bool
less_after s none = true
less_after s (some s') = ltb (left s') (left s)

less_left :
    (controller : Controller) (b listens : Bool)
    → every_state (λ s. every labels (λ l. less_after s (step controller b listens l s))) ≡ true
unfolding step
less_left no_integration true true = refl
less_left no_integration true false = refl
less_left no_integration false true = refl
less_left no_integration false false = refl
less_left consul_integration true true = refl
less_left consul_integration true false = refl
less_left consul_integration false true = refl
less_left consul_integration false false = refl

step-left :
    (controller : Controller) (b listens : Bool) (l : Label) (s s' : State)
    → step controller b listens l s ≡ some s'
    → left s' < left s
step-left controller b listens l s s' taken =
    let lower =
      every_label_lem (λ l. less_after s (step controller b listens l s))
        (every_state_lem (λ s. every labels (λ l. less_after s (step controller b listens l s)))
          (less_left controller b listens) s)
        l in
    ground (arith, subst (λ o. less_after s o ≡ true) taken lower)

steps-left :
    (controller : Controller) (b listens : Bool) (hs : List Happening) (s s' : State)
    → Run controller b listens hs s s'
    → steps hs + left s' ≤ left s
steps-left controller b listens _ s _ (none_yet _) = omega arith
steps-left controller b listens _ s s' (after_interrupt hs _ _ r) =
    subst (λ n. steps hs + left s' ≤ n) (left-interrupt s)
      (steps-left controller b listens hs (interrupt s) s' r)
steps-left controller b listens _ s end (after_step hs l _ s' _ taken r) =
    let rest = steps-left controller b listens hs s' end r in
    let lower = step-left controller b listens l s s' taken in omega arith

-- Of either controller, whatever Consul answers and whether the servers can listen or not, a run from the start of the process has at most 17 steps, however
-- many interrupts come between them.
pub steps_bounded :
    (controller : Controller) (b listens : Bool) (hs : List Happening) (s : State)
    → Run controller b listens hs initial s
    → steps hs ≤ 17
steps_bounded controller b listens hs s r =
    let all = steps-left controller b listens hs initial s r in omega arith
