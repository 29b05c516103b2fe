-- ===== src/Proxy/Rewriter/Walk.antt =====
-- The errors of `walkJson` in proxy/hostrewriter.go.
use servicegateway.Prelude.{
  ◌≡◌, refl, Bool, true, false, String, List, ◌||◌, ◌==◌, arith, if◌then◌else◌,
}
use servicegateway.Http.{Url}
use servicegateway.Proxy.Json.{Json, str, arr, obj, Items, nil, cons, Fields, end, field}
use servicegateway.Proxy.Rewriter.{
  UrlLib, Mapping, Walked, kept, removed, failed, FieldStep, delete, put, fail, child_step,
  then_rest, then_items, finish_list, finish_object, href_step, walk_json, walk_items, walk_fields,
}

-- No error but `RemoveElement`.
abbrev NoError : {A : Type 0} → Walked A → Type 0
NoError (failed e) = ⊥
NoError _ = Unit

abbrev NoFail : FieldStep → Type 0
NoFail (fail e) = ⊥
NoFail _ = Unit

then_rest-NoError :
    (key : String) (s : FieldStep) (rest : Walked Fields)
    → NoFail s
    → NoError rest
    → NoError (then_rest key s rest)
then_rest-NoError key s rest h k = ground arith

then_items-NoError :
    (v : Walked Json) (rest : Walked Items) → NoError v → NoError rest → NoError (then_items v rest)
then_items-NoError v rest h k = ground arith

finish_list-NoError : (vs : Items) (w : Walked Items) → NoError w → NoError (finish_list vs w)
finish_list-NoError vs w h = ground arith

finish_object-NoError : (w : Walked Fields) → NoError w → NoError (finish_object w)
finish_object-NoError w h = ground arith

-- A list that is walked outside of links keeps its elements.
abbrev SameLength : Items → Walked Items → Type 0
SameLength nil (kept nil) = Unit
SameLength (cons _ vs) (kept (cons _ ws)) = Unit
SameLength _ _ = ⊥

abbrev IsKept : {A : Type 0} → Walked A → Type 0
IsKept (kept a) = Unit
IsKept _ = ⊥

abbrev StaysOrGoes : FieldStep → Type 0
StaysOrGoes (put v) = Unit
StaysOrGoes delete = Unit
StaysOrGoes _ = ⊥

then_items-SameLength :
    (w : Walked Json) (v : Json) (vs : Items) (rest : Walked Items)
    → IsKept w
    → SameLength vs rest
    → SameLength (cons v vs) (then_items w rest)
then_items-SameLength (kept x) v vs (kept ws) h k = tt
then_items-SameLength (kept x) v nil removed h k = k
then_items-SameLength (kept x) v (cons _ _) removed h k = k
then_items-SameLength (kept x) v nil (failed e) h k = k
then_items-SameLength (kept x) v (cons _ _) (failed e) h k = k
then_items-SameLength removed v vs rest h k = absurd h
then_items-SameLength (failed e) v vs rest h k = absurd h

finish_list-IsKept : (vs : Items) (w : Walked Items) → SameLength vs w → IsKept (finish_list vs w)
finish_list-IsKept nil (kept nil) h = tt
finish_list-IsKept nil (kept (cons _ _)) h = tt
finish_list-IsKept (cons _ _) (kept (cons _ _)) h = tt
finish_list-IsKept (cons _ _) (kept nil) h = h
finish_list-IsKept nil removed h = h
finish_list-IsKept (cons _ _) removed h = h
finish_list-IsKept nil (failed e) h = h
finish_list-IsKept (cons _ _) (failed e) h = h

then_rest-IsKept :
    (key : String) (s : FieldStep) (rest : Walked Fields)
    → StaysOrGoes s
    → IsKept rest
    → IsKept (then_rest key s rest)
then_rest-IsKept key s rest h k = ground arith

finish_object-IsKept : (w : Walked Fields) → IsKept w → IsKept (finish_object w)
finish_object-IsKept w h = ground arith

IsKept-eq-kept : {A : Type 0} (w : Walked A) → IsKept w → (a : A) × (w ≡ kept a)
IsKept-eq-kept (kept a) h = (a, refl)
IsKept-eq-kept removed h = absurd h
IsKept-eq-kept (failed e) h = absurd h

module _ (urls : UrlLib) (mappings : List Mapping) (req_url : Url) where
  href_step-NoFail : (l : Bool) (v : Json) → NoFail (href_step urls mappings req_url l v)
  unfolding href_step
  href_step-NoFail l (str s) = ground arith
  href_step-NoFail l _ = tt

  field_step-NoFail :
      (b l : Bool) (v : Json) (child : Walked Json)
      → NoError child
      → NoFail (if b then href_step urls mappings req_url l v else child_step child)
  field_step-NoFail true l v child h = href_step-NoFail l v
  field_step-NoFail false l v child h = ground arith

  mutual
    unfolding walk_json

    walk_json-NoError : (v : Json) (l : Bool) → NoError (walk_json urls mappings req_url v l)
    walk_json-NoError (obj fs) l = finish_object-NoError _ (walk_fields-NoError fs l)
    walk_json-NoError (arr vs) l = finish_list-NoError vs _ (walk_items-NoError vs l)
    walk_json-NoError _ l = tt

    walk_items-NoError : (vs : Items) (l : Bool) → NoError (walk_items urls mappings req_url vs l)
    walk_items-NoError nil l = tt
    walk_items-NoError (cons v vs) l =
        then_items-NoError _ _ (walk_json-NoError v l) (walk_items-NoError vs l)

    walk_fields-NoError :
        (fs : Fields) (l : Bool) → NoError (walk_fields urls mappings req_url fs l)
    walk_fields-NoError end l = tt
    walk_fields-NoError (field key v fs) l =
        then_rest-NoError key _ _
          (field_step-NoFail (key == "href") l v _
            (walk_json-NoError v (l || (key == "links" || key == "_links"))))
          (walk_fields-NoError fs l)

  href_step-StaysOrGoes : (v : Json) → StaysOrGoes (href_step urls mappings req_url false v)
  unfolding href_step
  href_step-StaysOrGoes (str s) = ground arith
  href_step-StaysOrGoes _ = tt

  field_step-StaysOrGoes :
      (b : Bool) (v : Json) (child : Walked Json)
      → NoError child
      → StaysOrGoes (if b then href_step urls mappings req_url false v else child_step child)
  field_step-StaysOrGoes true v child h = href_step-StaysOrGoes v
  field_step-StaysOrGoes false v child h = ground arith

  mutual
    unfolding walk_json

    walk_json-IsKept : (v : Json) → IsKept (walk_json urls mappings req_url v false)
    walk_json-IsKept (obj fs) = finish_object-IsKept _ (walk_fields-IsKept fs)
    walk_json-IsKept (arr vs) = finish_list-IsKept vs _ (walk_items-SameLength vs)
    walk_json-IsKept _ = tt

    walk_items-SameLength : (vs : Items) → SameLength vs (walk_items urls mappings req_url vs false)
    walk_items-SameLength nil = tt
    walk_items-SameLength (cons v vs) =
        then_items-SameLength _ v vs _ (walk_json-IsKept v) (walk_items-SameLength vs)

    walk_fields-IsKept : (fs : Fields) → IsKept (walk_fields urls mappings req_url fs false)
    walk_fields-IsKept end = tt
    walk_fields-IsKept (field key v fs) =
        then_rest-IsKept key _ _
          (field_step-StaysOrGoes (key == "href") v _
            (walk_json-NoError v (key == "links" || key == "_links")))
          (walk_fields-IsKept fs)

  -- The walk from the root, outside of links, always yields a value: neither `RemoveElement` nor
  -- another error can reach `Rewrite`.
  pub walk_json-eq-kept :
      (v : Json) → (v' : Json) × (walk_json urls mappings req_url v false ≡ kept v')
  walk_json-eq-kept v =
      IsKept-eq-kept (walk_json urls mappings req_url v false) (walk_json-IsKept v)
