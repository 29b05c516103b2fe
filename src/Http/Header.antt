-- ===== src/Http/Header.antt =====
-- `http.Header`: a map from names to values. `get`, `set`, `add` and `del` put the name in canonical
-- form first; `values_at` and `assign` index the map as it is. The order of the entries is the order
-- in which a `range` over the map meets them.
use Prim.Native.Char.{Char, code}
use Prim.Native.String.{[], ◌∷◌}
use servicegateway.Text.{of_code}
use servicegateway.Prelude.{
  ◌+◌, ◌-◌, String, ◌≡◌, refl, Bool, true, false, List, [], ◌∷◌, ◌++◌, arith, ◌==◌, ◌&&◌, ◌||◌,
  eq_iff, eq_refl, leb, eqb, if◌then◌else◌,
}

abbrev pub HeaderMap : Type 0
HeaderMap = List (String × List String)

upper : Char → Char
unfolding of_code
upper c = if leb b'a' (code c) && leb (code c) b'z' then of_code (code c - 32) else c

lower : Char → Char
unfolding of_code
lower c = if leb b'A' (code c) && leb (code c) b'Z' then of_code (code c + 32) else c

-- The characters that RFC 7230 allows in a header's name.
is_token : Char → Bool
is_token c =
    let n = code c in
    (leb b'a' n && leb n b'z')
    || (leb b'A' n && leb n b'Z')
    || (leb b'0' n && leb n b'9')
    || eqb n b'!'
    || (leb b'#' n && leb n b'\'')
    || eqb n b'*'
    || eqb n b'+'
    || eqb n b'-'
    || eqb n b'.'
    || (leb b'^' n && leb n b'`')
    || eqb n b'|'
    || eqb n b'~'

all_tokens : String → Bool
all_tokens [] = true
all_tokens (c ∷ s) = is_token c && all_tokens s

-- The flag says that the next letter begins a word.
capitalize : Bool → String → String
capitalize start [] = []
capitalize start (c ∷ s) = (if start then upper c else lower c) ∷ capitalize (eqb (code c) b'-') s

-- `textproto.CanonicalMIMEHeaderKey`
unfoldable pub canonical : String → String
unfolding capitalize upper lower is_token all_tokens of_code
canonical k = if all_tokens k then capitalize true k else k

-- The values that the map holds at a key, as `h[k]` reads them.
unfoldable pub values_at : String → HeaderMap → List String
values_at k [] = []
values_at k ((j, vs) ∷ h) = if j == k then vs else values_at k h

-- `_, ok := h[k]`
unfoldable pub has_key : String → HeaderMap → Bool
has_key k [] = false
has_key k ((j, vs) ∷ h) = j == k || has_key k h

-- `h[k] = vs`
unfoldable pub put : String → List String → HeaderMap → HeaderMap
put k vs [] = (k, vs) ∷ []
put k vs ((j, ws) ∷ h) = if j == k then (k, vs) ∷ h else (j, ws) ∷ put k vs h

-- `delete(h, k)`
unfoldable pub remove : String → HeaderMap → HeaderMap
remove k [] = []
remove k ((j, ws) ∷ h) = let rest = remove k h in if j == k then rest else (j, ws) ∷ rest

abbrev pub first : List String → String
first [] = ""
first (v ∷ vs) = v

-- `h.Get(k)`
unfoldable pub get : String → HeaderMap → String
unfolding values_at canonical
get k h = first (values_at (canonical k) h)

-- `h.Set(k, v)`
unfoldable pub set : String → String → HeaderMap → HeaderMap
unfolding put canonical
set k v h = put (canonical k) (v ∷ []) h

-- `h.Add(k, v)`
unfoldable pub add : String → String → HeaderMap → HeaderMap
unfolding put values_at canonical
add k v h = put (canonical k) (values_at (canonical k) h ++ v ∷ []) h

-- `h.Del(k)`
unfoldable pub del : String → HeaderMap → HeaderMap
unfolding remove canonical
del k h = remove (canonical k) h

pub values_at-put :
    (j k : String) (vs : List String) (h : HeaderMap)
    → values_at j (put k vs h) ≡ (if k == j then vs else values_at j h)
unfolding values_at put
values_at-put j k vs [] = refl
values_at-put j k vs ((i, ws) ∷ h) =
    ground (arith, values_at-put j k vs h, eq_iff i k, eq_iff i j, eq_iff k j)

pub values_at-remove :
    (j k : String) (h : HeaderMap)
    → values_at j (remove k h) ≡ (if k == j then [] else values_at j h)
unfolding values_at remove
values_at-remove j k [] = ground arith
values_at-remove j k ((i, ws) ∷ h) =
    ground (arith, values_at-remove j k h, eq_iff i k, eq_iff i j, eq_iff k j)

-- Reading one name after another was set.
pub get-set :
    (j k v : String) (h : HeaderMap)
    → get j (set k v h) ≡ (if canonical k == canonical j then v else get j h)
get-set j k v h = unfold get set in rw values_at-put (ground arith)

pub get-set_self : (k v : String) (h : HeaderMap) → get k (set k v h) ≡ v
get-set_self k v h = simp (get-set, eq_refl)

pub get-del_self : (k : String) (h : HeaderMap) → get k (del k h) ≡ ""
get-del_self k h = unfold get del in simp (values_at-remove, eq_refl)

canonical_tests :
    (canonical "x-jWT" ≡ "X-Jwt")
    × (canonical "Content-Type" ≡ "Content-Type")
    × (canonical "a b" ≡ "a b")
unfolding canonical
canonical_tests = (refl, refl, refl)
