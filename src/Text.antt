-- ===== src/Text.antt =====
-- The functions of Go's `strings` package that the gateway calls, over the native texts.
use Prim.Native.Nat.{Ordering, compare, ◌/◌, ◌%◌}
use Prim.Native.Char.{Char, char, code}
use Prim.Native.Nat.{pred}
use Prim.Native.String.{String, count, [], ◌∷◌, ◌++◌ as ◌<>◌}
use servicegateway.Prelude.Int.{ℤ, pos, negsuc}
use servicegateway.Prelude.{
  ℕ, zero, suc, ◌+◌, ltb, ◌≡◌, refl, List, [], ◌∷◌, Option, none, some, Bool, true, false, ◌&&◌,
  ◌==◌, eqb, if◌then◌else◌,
}

-- The character with a number that is known to be a scalar value; any other gives `nul`.
char_of : (n : ℕ) (o : Ordering) → compare n 55296 ≡ o → Char
char_of n Ordering.lt e = char n (rw e tt)
char_of n _ e = char 0 tt

unfoldable pub of_code : ℕ → Char
unfolding char_of
of_code n = char_of n (compare n 55296) refl

-- What follows a prefix.
unfoldable pub after? : String → String → Option String
after? s [] = some s
after? [] (p ∷ ps) = none
after? (c ∷ s) (p ∷ ps) = if eqb (code c) (code p) then after? s ps else none

abbrev pub is_some {ℓ} : {A : Type ℓ} → Option A → Bool
is_some none = false
is_some (some _) = true

abbrev pub or_else {ℓ} : {A : Type ℓ} → Option A → A → A
or_else none d = d
or_else (some a) _ = a

-- `strings.HasPrefix(s, prefix)`
unfoldable pub has_prefix : String → String → Bool
unfolding after?
has_prefix s p = is_some (after? s p)

-- `strings.TrimPrefix(s, prefix)`
unfoldable pub trim_prefix : String → String → String
unfolding after?
trim_prefix s p = or_else (after? s p) s

-- A character put in front of the first part.
abbrev onto_first : Char → List String → List String
onto_first c [] = (c ∷ []) ∷ []
onto_first c (part ∷ parts) = (c ∷ part) ∷ parts

-- `strings.Split(s, sep)` for a separator of one character.
unfoldable pub split : ℕ → String → List String
split sep [] = [] ∷ []
split sep (c ∷ s) =
    let parts = split sep s in if eqb (code c) sep then [] ∷ parts else onto_first c parts

-- `strings.Join(parts, sep)` for a separator of one character.
unfoldable pub join : Char → List String → String
join sep [] = []
join sep (part ∷ []) = part
join sep (part ∷ other ∷ parts) = part <> (sep ∷ join sep (other ∷ parts))

-- What stands before the first separator and, if there is one, what stands behind it:
-- `strings.SplitN(s, sep, 2)`.
unfoldable pub split_two : ℕ → String → String × Option String
split_two sep [] = ([], none)
split_two sep (c ∷ s) =
    let rest = split_two sep s in if eqb (code c) sep then ([], some s) else (c ∷ rest.0, rest.1)

-- `strings.TrimRight(s, cutset)` for a cutset of one character.
unfoldable pub trim_right : ℕ → String → String
trim_right cut [] = []
trim_right cut (c ∷ s) =
    let rest = trim_right cut s in if eqb (code c) cut && (rest == []) then [] else c ∷ rest

-- The text `new` before what follows an occurrence, if there is one here.
abbrev pub splice : String → String → Option String → String
splice new later none = later
splice new later (some rest) = new <> rest

-- `strings.Replace(s, old, new, 1)`.
unfoldable pub replace_first : String → String → String → String
unfolding after?
replace_first old new [] = if old == [] then new else []
replace_first old new (c ∷ s) =
    let later : String = c ∷ replace_first old new s in splice new later (after? (c ∷ s) old)

-- The rounds of `strings.Replace(s, old, new, -1)` for a text `old` that is not empty; the first
-- argument counts the characters of the last occurrence that are still to be passed over.
replace_from : ℕ → String → String → String → String
replace_from skip old new [] = []
replace_from (suc skip) old new (c ∷ s) = replace_from skip old new s
replace_from zero old new (c ∷ s) =
    let later : String = c ∷ replace_from 0 old new s in
    let hit = new <> replace_from (pred (count old)) old new s in
    if has_prefix (c ∷ s) old then hit else later

-- `strings.Replace(s, old, new, -1)`, `old` not empty.
unfoldable pub replace_all : String → String → String → String
unfolding replace_from has_prefix
replace_all old new s = replace_from 0 old new s

-- The decimal digits of a number put in front of a text; the first argument is fuel.
digits : ℕ → ℕ → String → String
unfolding of_code
digits zero n out = out
digits (suc fuel) n out =
    let longer : String = of_code (b'0' + n % 10) ∷ out in
    let rest = digits fuel (n / 10) longer in if ltb n 10 then longer else rest

-- `strconv.Itoa(n)` of a number that is not negative: a number below 10 ^ n has at most n digits.
unfoldable pub itoa : ℕ → String
unfolding digits
itoa n = digits (suc n) n ""

-- `strconv.Itoa(n)`
unfoldable pub itoa_ℤ : ℤ → String
unfolding itoa
itoa_ℤ (pos n) = itoa n
itoa_ℤ (negsuc n) = "-" <> itoa (suc n)

prints : itoa 1204 ≡ "1204"
unfolding itoa
prints = refl

splits : split b';' "a;;b" ≡ "a" ∷ "" ∷ "b" ∷ []
unfolding split
splits = refl

replaces_all : replace_all ":id" "x" "/:id/:id2" ≡ "/x/x2"
unfolding replace_all
replaces_all = refl

trims : trim_right b'/' "/one//" ≡ "/one"
unfolding trim_right
trims = refl

replaces_first : replace_first "/one" "" "/one/one" ≡ "/one"
unfolding replace_first
replaces_first = refl

splits_two : split_two b' ' "Bearer a b" ≡ ("Bearer", some "a b")
unfolding split_two
splits_two = refl
