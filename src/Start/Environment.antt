-- ===== src/Start/Environment.antt =====
-- The environment in the template of the configuration (main.go).
use Prim.Native.Char.{Char}
use Prim.Native.String.{[], ◌∷◌}
use text.Mathlib.TextLemmas.{nil-append, cons-append}
use servicegateway.Prelude.{
  String, ◌<>◌, ◌≡◌, ◌≢◌, refl, ◌∙◌, List, [], ◌∷◌, ◌++◌, Option, none, some, arith, eq_iff,
  eq_refl,
}
use servicegateway.Prelude.Lists.{All}
use servicegateway.Text.{of_code, split_two}
use servicegateway.Http.{lookup}
use servicegateway.Auth.TokenStore.RoundTrip.{Lacks}
use servicegateway.Start.{add_entry, environment_from, environment}

abbrev pub equals : Char
equals = of_code b'='

-- An entry of `os.Environ()`.
abbrev pub entry : String → String → String
entry name value = name <> (equals ∷ value)

split_two-entry :
    (name value : String) → Lacks b'=' name → split_two b'=' (entry name value) ≡ (name, some value)
unfolding split_two of_code
split_two-entry [] value h = rw nil-append
split_two-entry (c ∷ s) value (h, hs) = rw cons-append (ground (arith, split_two-entry s value hs))

-- An entry for another name, or for none.
abbrev pub IsOther : String → String → Type 0
IsOther name e = (split_two b'=' e).0 ≢ name

lookup-add_entry :
    (name : String) (env : List (String × String)) (x : String) (v : Option String)
    → x ≢ name
    → lookup name (add_entry env (x, v)) ≡ lookup name env
unfolding lookup
lookup-add_entry name env x none ne = refl
lookup-add_entry name env x (some v) ne = ground (arith, eq_iff x name)

lookup-environment_from :
    (name : String) (env : List (String × String)) (es : List String)
    → All (IsOther name) es
    → lookup name (environment_from env es) ≡ lookup name env
unfolding environment_from
lookup-environment_from name env [] h = refl
lookup-environment_from name env (e ∷ es) (ne, h) =
    lookup-environment_from name (add_entry env (split_two b'=' e)) es h
    ∙ lookup-add_entry name env (split_two b'=' e).0 (split_two b'=' e).1 ne

lookup-added :
    (name value : String) (env : List (String × String)) (before later : List String)
    → Lacks b'=' name
    → All (IsOther name) later
    → lookup name (environment_from env (before ++ entry name value ∷ later)) ≡ some value
unfolding environment_from
lookup-added name value env [] later h others =
    lookup-environment_from name (add_entry env (split_two b'=' (entry name value))) later others
    ∙ rw (split_two-entry name value h) (unfold lookup in rw eq_refl)
lookup-added name value env (e ∷ before) later h others =
    lookup-added name value (add_entry env (split_two b'=' e)) before later h others

-- The name of a variable has no equals sign. Then the template finds its whole value, equals signs included, if
-- the environment has an entry for it and no other entry for the same name behind that one, whatever comes before.
pub environment-lookup :
    (name value : String) (before later : List String)
    → Lacks b'=' name
    → All (IsOther name) later
    → lookup name (environment (before ++ entry name value ∷ later)) ≡ some value
environment-lookup name value before later h others =
    lookup-added name value [] before later h others
