-- ===== src/Cache/Tests.antt =====
-- A cache that never evicts, and runs of the middleware over it.
use servicegateway.Prelude.{
  ℕ, String, ◌≡◌, ◌≢◌, refl, inl, List, [], ◌∷◌, Option, none, some, arith, ◌==◌, eq_iff, eq_refl,
  if◌then◌else◌,
}
use servicegateway.Effects.{pure, returned}
use servicegateway.Http.{Request, Handler, Event, add, write_header, write, lookup}
use servicegateway.Http.Header
use servicegateway.Http.Tests.{request}
use servicegateway.Cache.{
  Item, Lookup, found, key_not_found, Gcache, buffer, filled, dump, identifier_for_request,
  allows_cache, decorate_handler, decorate_unsafe_handler,
}
use servicegateway.Http.Recorder.{sent}
use mathlib.Core.Bool.{false≢true}
use servicegateway.Cache.Store.{IsCache}
use servicegateway.Cache.Replay.{miss_then_hit}
use servicegateway.Cache.Policy.{IsClean, decorate_handler-IsClean, decorate_unsafe_handler-purges}
use servicegateway.Cache.Transparency.{dump-filled-sent}

abbrev Memory : Type 0
Memory = List (String × Item)

abbrev shown : Option Item → Lookup
shown none = key_not_found
shown (some i) = found i

abbrev view : String → Memory → Lookup
view k m = shown (lookup k m)

abbrev without : String → Memory → Memory
without k [] = []
without k ((j, i) ∷ m) = let rest = without k m in if j == k then rest else (j, i) ∷ rest

abbrev memory : Gcache Memory
memory = record {
  get_item = λ k m. (view k m, m);
  set_item = λ k i m. (k, i) ∷ m;
  remove_item = without;
}

lookup-without :
    (j k : String) (m : Memory) → lookup j (without k m) ≡ (if k == j then none else lookup j m)
unfolding lookup
lookup-without j k [] = ground arith
lookup-without j k ((i, x) ∷ m) =
    ground (arith, lookup-without j k m, eq_iff i k, eq_iff i j, eq_iff k j)

view-set_ne : (j k : String) (i : Item) (m : Memory) → k ≢ j → view j ((k, i) ∷ m) ≡ view j m
unfolding lookup
view-set_ne j k i m ne = ground (arith, eq_iff k j)

view-set_self : (k : String) (i : Item) (m : Memory) → view k ((k, i) ∷ m) ≡ found i
unfolding lookup
view-set_self k i m = rw eq_refl

view-without_self : (k : String) (m : Memory) → view k (without k m) ≡ key_not_found
view-without_self k m = simp (lookup-without, eq_refl)

view-without_ne : (j k : String) (m : Memory) → k ≢ j → view j (without k m) ≡ view j m
view-without_ne j k m ne = ground (arith, lookup-without j k m, eq_iff k j)

memory-IsCache : IsCache memory view
memory-IsCache = record {
  get_view = λ k w. refl;
  get_keeps = λ j k w. refl;
  set_self = view-set_self;
  set_other = λ j k i w ne. inl (view-set_ne j k i w ne);
  remove_self = view-without_self;
  remove_other = view-without_ne;
}

abbrev reply : ℕ → String → List Event
reply n body = add "A" "1" ∷ write_header n ∷ write body ∷ []

abbrev answers : List Event → Handler Memory
answers events req params = pure events

abbrev head_request : Request
head_request = request "HEAD" "/a" []

abbrev get_request : Request
get_request = request "GET" "/a" []

-- A HEAD request fills the entry that a GET request then gets.
miss_then_hit_example :
    ((decorate_handler memory (answers (reply 200 "")) head_request [] []).0
      ≡ returned (add "X-Cache" "MISS" ∷ dump (filled (reply 200 ""))))
    × (decorate_handler memory
          (answers (reply 200 "page"))
          get_request
          []
          (decorate_handler memory (answers (reply 200 "")) head_request [] []).1
        ≡ (
          returned (add "X-Cache" "HIT" ∷ dump (filled (reply 200 ""))),
          (decorate_handler memory (answers (reply 200 "")) head_request [] []).1,
        ))
unfolding allows_cache identifier_for_request filled lookup Header.get
miss_then_hit_example =
    miss_then_hit memory view memory-IsCache (answers (reply 200 "")) (answers (reply 200 "page"))
      head_request get_request [] [] [] []
      (decorate_handler memory (answers (reply 200 "")) head_request [] []).1 (reply 200 "") refl
      refl refl refl refl refl refl

empty-IsClean : IsClean view []
unfolding lookup
empty-IsClean = record { at_key = λ k i e. cc }

decorate_handler-IsClean_example :
    IsClean view (decorate_handler memory (answers (reply 404 "no")) get_request [] []).1
decorate_handler-IsClean_example =
    decorate_handler-IsClean memory view memory-IsCache (answers (reply 404 "no")) (λ r p w h. h)
      get_request [] [] empty-IsClean

abbrev json_entry : Memory
json_entry = ("/a_application/json", buffer (filled (reply 200 "{}"))) ∷ []

decorate_unsafe_handler-purges_example :
    (view "/a" (decorate_unsafe_handler memory (answers (reply 200 "")) get_request [] json_entry).1
      ≡ key_not_found)
    × (view "/a_application/json"
          (decorate_unsafe_handler memory (answers (reply 200 "")) get_request [] json_entry).1
        ≡ found (buffer (filled (reply 200 "{}"))))
unfolding identifier_for_request Header.get lookup
decorate_unsafe_handler-purges_example =
    decorate_unsafe_handler-purges memory view memory-IsCache (answers (reply 200 "")) get_request
      [] json_entry "/a_application/json" (λ k v. refl)
      (λ e. false≢true ((eq_iff "/a" "/a_application/json").1 e))

dump-filled-sent_example :
    ((sent (dump (filled (add "A" "1" ∷ write_header 200 ∷ write "x" ∷ write "y" ∷ [])))).code
      ≡ 200)
    × ((sent (dump (filled (add "A" "1" ∷ write_header 200 ∷ write "x" ∷ write "y" ∷ [])))).body
        ≡ "xy")
    × ((sent (add "A" "1" ∷ write_header 200 ∷ write "x" ∷ write "y" ∷ [])).code ≡ 200)
    × ((sent (add "A" "1" ∷ write_header 200 ∷ write "x" ∷ write "y" ∷ [])).body ≡ "xy")
dump-filled-sent_example = dump-filled-sent (add "A" "1" ∷ []) 200 ("x" ∷ "y" ∷ []) (tt, tt)
