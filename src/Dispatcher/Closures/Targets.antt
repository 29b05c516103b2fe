-- ===== src/Dispatcher/Closures/Targets.antt =====
-- The path that the backend of a `PathClosure` (dispatcher/pathbased.go) sees.
use servicegateway.Prelude.{String, ◌<>◌, ◌≡◌, refl, subst, ap, arith, some}
use Prim.Native.String.{◌∷◌, []}
use text.Mathlib.TextLemmas.{nil-append, cons-append}
use servicegateway.Text.{after?, replace_first}
use servicegateway.Http.{Request}
use servicegateway.Config.{Routing}
use servicegateway.Dispatcher.Closures.{path_target}

after?-append : (p s : String) → after? (p <> s) p ≡ some s
unfolding after?
after?-append [] s = ap some (nil-append s)
after?-append (c ∷ p) s = rw cons-append (ground (arith, after?-append p s))

replace_first-append : (p rest : String) → replace_first p "" (p <> rest) ≡ rest
unfolding replace_first
replace_first-append [] [] = refl
replace_first-append [] (c ∷ rest) =
    unfold after? in rw (nil-append (c ∷ rest)) (nil-append (c ∷ rest))
replace_first-append (c ∷ p) rest =
    let found =
      subst (λ s. after? s (c ∷ p) ≡ some rest) (cons-append c p rest)
        (after?-append (c ∷ p) rest) in
    rw (cons-append, found) (nil-append rest)

-- For a request whose path is the route's path and then something, the backend's path is what
-- follows.
pub path_target-append :
    (url rest : String) (routing : Routing) (req : Request)
    → req.url.path ≡ routing.path <> rest
    → path_target url routing req ≡ url <> rest
unfolding path_target
path_target-append url rest routing req under = rw (under, replace_first-append)
