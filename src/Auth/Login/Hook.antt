-- ===== src/Auth/Login/Hook.antt =====
-- The hook of auth/handler.go: NewAuthenticationHandler, which compiles it, and the lock of the JavaScript engine that
-- concurrent calls of Authenticate share.
pub mod Blocked
mod Tests
use servicegateway.Prelude.{
  ℕ, String, ◌≡◌, Bool, true, false, List, [], ◌∷◌, map, Option, none, some, ◌==◌, if◌then◌else◌,
}
use servicegateway.Prelude.Family.{update}
use servicegateway.Effects.{Exec, pure, panic}
use servicegateway.Config.{GlobalAuth}

-- `AuthenticationHandler`, as far as its constructor decides it.
pub record AuthenticationHandler (Script : Type 0) : Type 0 where
  pub config : GlobalAuth
  pub hook_pre_auth : Option Script

abbrev pub compiled :
    {Script : Type 0} → GlobalAuth → Option Script → Option (AuthenticationHandler Script)
compiled cfg none = none
compiled cfg (some script) = some (record { config = cfg; hook_pre_auth = some script })

-- `NewAuthenticationHandler`; `set_log` says whether `jsVM.Set` fails, and `compile` is `jsVM.Compile`.
abbrev pub new_authentication_handler :
    {Script : Type 0}
    → Bool
    → (String → Option Script)
    → GlobalAuth
    → Option (AuthenticationHandler Script)
new_authentication_handler set_log compile cfg =
    let hook = cfg.provider_config.pre_authentication_hook in
    if hook == ""
    then some (record { config = cfg; hook_pre_auth = none })
    else if set_log
    then none
    else compiled cfg (compile hook)

-- The function `log` that scripts get. It takes the arguments from the second on as a slice of the list, which
-- panics if the list is empty.
unfoldable pub hook_log :
    {W Value Exported : Type 0}
    → (Value → String)
    → (Value → Exported)
    → (String → List Exported → W → W)
    → Value
    → List Value
    → Exec W Value
hook_log string_of export debugf undefined [] w = panic w
hook_log string_of export debugf undefined (format ∷ args) w =
    pure undefined (debugf (string_of format) (map export args) w)

-- Where a call of `Authenticate` stands with the engine; `examining` reads the fields of the hook's result, after
-- `Unlock`, and `panicked` is a call whose request has ended by a panic.
pub data Place : Type 0 where
  arriving : Place
  in_script : Place
  in_function : Place
  examining : Place
  ended : Place
  panicked : Place

-- One step of one call; the flag is `jsVMLock`.
pub data Move (locked : Bool) : Place → Bool → Place → Type 0 where
  take_lock : locked ≡ false → Move locked arriving true in_script
  script_fails : Move locked in_script false ended
  no_function : Move locked in_script false ended
  script_runs : Move locked in_script locked in_function
  script_panics : Move locked in_script locked panicked
  function_fails : Move locked in_function false ended
  function_returns : Move locked in_function false examining
  function_panics : Move locked in_function locked panicked
  examined : Move locked examining locked ended

pub record Engine : Type 0 where
  pub locked : Bool
  pub places : ℕ → Place

abbrev pub unused : Engine
unused = record { locked = false; places = λ i. arriving }

pub data Step (s : Engine) : Engine → Type 0 where
  pick :
      (i : ℕ) {b : Bool} {p : Place}
      → Move s.locked (s.places i) b p
      → Step s (record { locked = b; places = update s.places i p })

pub data Reach : Engine → Type 0 where
  at_start : Reach unused
  later : {s t : Engine} → Reach s → Step s t → Reach t
