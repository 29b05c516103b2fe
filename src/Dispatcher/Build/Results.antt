-- ===== src/Dispatcher/Build/Results.antt =====
-- What holds of the result of a build (package dispatcher), if there is one.
use servicegateway.Prelude.{◌≡◌, refl, Bool, true, false, Option, none, some, if◌then◌else◌}
use servicegateway.Dispatcher.Build.{
  Build, built, failed, fatal, panicking, and_then, or_fail, or_fatal,
}

abbrev pub IfBuilt : {A : Type 0} → (A → Type 0) → Build A → Type 0
IfBuilt P (built a) = P a
IfBuilt P failed = Unit
IfBuilt P fatal = Unit
IfBuilt P panicking = Unit

pub and_then-IfBuilt :
    {A B : Type 0} (P : A → Type 0) (Q : B → Type 0) (b : Build A) (f : A → Build B)
    → IfBuilt P b
    → ((a : A) → P a → IfBuilt Q (f a))
    → IfBuilt Q (and_then b f)
and_then-IfBuilt P Q (built a) f p next = next a p
and_then-IfBuilt P Q failed f p next = tt
and_then-IfBuilt P Q fatal f p next = tt
and_then-IfBuilt P Q panicking f p next = tt

pub and_then-always :
    {A B : Type 0} (Q : B → Type 0) (b : Build A) (f : A → Build B)
    → ((a : A) → IfBuilt Q (f a))
    → IfBuilt Q (and_then b f)
and_then-always Q (built a) f next = next a
and_then-always Q failed f next = tt
and_then-always Q fatal f next = tt
and_then-always Q panicking f next = tt

pub IfBuilt-map :
    {A : Type 0} (P Q : A → Type 0)
    → ((a : A) → P a → Q a)
    → (b : Build A) → IfBuilt P b
    → IfBuilt Q b
IfBuilt-map P Q f (built a) p = f a p
IfBuilt-map P Q f failed p = tt
IfBuilt-map P Q f fatal p = tt
IfBuilt-map P Q f panicking p = tt

pub or_fail-IfBuilt : {A : Type 0} (o : Option A) → IfBuilt (λ a. o ≡ some a) (or_fail o)
or_fail-IfBuilt none = tt
or_fail-IfBuilt (some a) = refl

pub or_fatal-IfBuilt : {A : Type 0} (o : Option A) → IfBuilt (λ a. o ≡ some a) (or_fatal o)
or_fatal-IfBuilt none = tt
or_fatal-IfBuilt (some a) = refl

pub if-IfBuilt :
    {A : Type 0} (P : A → Type 0) (b : Bool) (m : Build A)
    → IfBuilt P m
    → IfBuilt P (if b then m else failed)
if-IfBuilt P true m h = h
if-IfBuilt P false m h = tt
