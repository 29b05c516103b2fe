-- ===== src/Effects.antt =====
-- Go functions that read and change shared state and may panic: actions over a world `W`. A panic
-- ends the request (net/http recovers it and drops the connection); the world keeps what was
-- written before it.
use servicegateway.Prelude.{◌≡◌, refl, ◌⊎◌, inl, inr}

pub data Outcome (A : Type 0) : Type 0 where
  returned : A → Outcome A
  panicked : Outcome A

abbrev pub Exec : Type 0 → Type 0 → Type 0
Exec W A = W → Outcome A × W

abbrev pub pure : {W A : Type 0} → A → Exec W A
pure a w = (returned a, w)

abbrev pub panic : {W A : Type 0} → Exec W A
panic w = (panicked, w)

-- An operation of the environment that returns.
abbrev pub call : {W A : Type 0} → (W → A × W) → Exec W A
call f w = let (a, w') = f w in (returned a, w')

abbrev pub continue : {W A B : Type 0} → Outcome A → (A → Exec W B) → Exec W B
continue (returned a) f w = f a w
continue panicked f w = (panicked, w)

infixl 5 ◌>>=◌ ◌>>◌
abbrev pub ◌>>=◌ : {W A B : Type 0} → Exec W A → (A → Exec W B) → Exec W B
◌>>=◌ m f w = continue (m w).0 f (m w).1

abbrev pub ◌>>◌ : {W B : Type 0} → Exec W (Unit {0}) → Exec W B → Exec W B
m >> k = m >>= λ _. k

pub Outcome-cases : {A : Type 0} (o : Outcome A) → ((a : A) × (o ≡ returned a)) ⊎ (o ≡ panicked)
Outcome-cases (returned a) = inl (a, refl)
Outcome-cases panicked = inr refl

-- Changing the result of an action leaves its world.
pub bind-pure_world :
    {W A B : Type 0} (m : Exec W A) (f : A → B) (w : W) → ((m >>= λ a. pure (f a)) w).1 ≡ (m w).1
bind-pure_world m f w = elim (Outcome-cases (m w).0) [ inl (a, e) ↦ rw e | inr e ↦ rw e ]

-- A mutable variable of the program: a field of a shared struct.
pub record Cell (W S : Type 0) : Type 0 where
  pub load : W → S
  pub store : S → W → W

-- What is stored is loaded.
pub record IsCell {W S : Type 0} (c : Cell W S) : Type 0 where
  pub load-store : (s : S) (w : W) → c.load (c.store s w) ≡ s
