-- ===== src/Proxy/Rewriter/Hrefs.antt =====
-- The links in documents that `walkJson` of proxy/hostrewriter.go has walked.
use servicegateway.Prelude.{
  ◌≡◌, refl, subst, Bool, true, false, String, List, ◌||◌, ◌==◌, if◌then◌else◌,
}
use servicegateway.Http.{Url}
use servicegateway.Proxy.Json.{Json, null, str, arr, obj, Items, nil, cons, Fields, end, field}
use servicegateway.Proxy.Rewriter.{
  UrlLib, Mapping, Rewritten, mapped, unmappable, bad_url, Walked, kept, removed, failed, FieldStep,
  delete, put, give_up, fail, child_step, then_rest, then_items, finish_list, finish_object,
  rewrite_url, href_result, href_step, walk_json, walk_items, walk_fields,
}

-- A text under `href` satisfies `P`; any other value under `href` is free.
abbrev pub IsHref : (String → Type 0) → Json → Type 0
IsHref P (str s) = P s
IsHref P _ = Unit

-- Every text under a key `href` satisfies `P`, wherever the object stands but inside another value
-- under `href`, which the walk does not enter.
unfoldable mutual
  pub AllHrefs : (String → Type 0) → Json → Type 0
  AllHrefs P (obj fs) = AllHrefsFields P fs
  AllHrefs P (arr vs) = AllHrefsItems P vs
  AllHrefs P _ = Unit

  pub AllHrefsItems : (String → Type 0) → Items → Type 0
  AllHrefsItems P nil = Unit
  AllHrefsItems P (cons v vs) = AllHrefs P v × AllHrefsItems P vs

  pub AllHrefsFields : (String → Type 0) → Fields → Type 0
  AllHrefsFields P end = Unit
  AllHrefsFields P (field key v fs) =
      (if key == "href" then IsHref P v else AllHrefs P v) × AllHrefsFields P fs

-- If the walk yields a value, it satisfies `Q`.
abbrev IfKept : {A : Type 0} → (A → Type 0) → Walked A → Type 0
IfKept Q (kept a) = Q a
IfKept Q _ = Unit

-- If the round puts a value under the key, it may stand there.
abbrev StepIs : (Json → Type 0) → FieldStep → Type 0
StepIs Q (put v) = Q v
StepIs Q _ = Unit

module _ (P : String → Type 0) where
  then_rest-AllHrefs :
      (key : String) (s : FieldStep) (rest : Walked Fields)
      → StepIs (λ v. if key == "href" then IsHref P v else AllHrefs P v) s
      → IfKept (AllHrefsFields P) rest
      → IfKept (AllHrefsFields P) (then_rest key s rest)
  unfolding AllHrefs
  then_rest-AllHrefs key give_up rest h k = tt
  then_rest-AllHrefs key (fail e) rest h k = tt
  then_rest-AllHrefs key delete (kept fs) h k = k
  then_rest-AllHrefs key delete removed h k = tt
  then_rest-AllHrefs key delete (failed e) h k = tt
  then_rest-AllHrefs key (put v) (kept fs) h k = (h, k)
  then_rest-AllHrefs key (put v) removed h k = tt
  then_rest-AllHrefs key (put v) (failed e) h k = tt

  then_items-AllHrefs :
      (w : Walked Json) (rest : Walked Items)
      → IfKept (AllHrefs P) w
      → IfKept (AllHrefsItems P) rest
      → IfKept (AllHrefsItems P) (then_items w rest)
  unfolding AllHrefs
  then_items-AllHrefs (kept v) (kept vs) h k = (h, k)
  then_items-AllHrefs (kept v) removed h k = tt
  then_items-AllHrefs (kept v) (failed e) h k = tt
  then_items-AllHrefs removed (kept vs) h k = k
  then_items-AllHrefs removed removed h k = tt
  then_items-AllHrefs removed (failed e) h k = tt
  then_items-AllHrefs (failed e) rest h k = tt

  finish_list-AllHrefs :
      (vs : Items) (w : Walked Items)
      → IfKept (AllHrefsItems P) w
      → IfKept (AllHrefs P) (finish_list vs w)
  unfolding AllHrefs
  finish_list-AllHrefs nil (kept ws) h = h
  finish_list-AllHrefs (cons _ _) (kept nil) h = tt
  finish_list-AllHrefs (cons _ _) (kept (cons _ _)) h = h
  finish_list-AllHrefs nil removed h = tt
  finish_list-AllHrefs (cons _ _) removed h = tt
  finish_list-AllHrefs nil (failed e) h = tt
  finish_list-AllHrefs (cons _ _) (failed e) h = tt

  finish_object-AllHrefs :
      (w : Walked Fields) → IfKept (AllHrefsFields P) w → IfKept (AllHrefs P) (finish_object w)
  unfolding AllHrefs
  finish_object-AllHrefs (kept fs) h = h
  finish_object-AllHrefs removed h = tt
  finish_object-AllHrefs (failed e) h = tt

href_result-IsHref :
    (P : String → Type 0) (l : Bool) (r : Rewritten)
    → ((s : String) → r ≡ mapped s → P s)
    → StepIs (IsHref P) (href_result l r)
href_result-IsHref P l (mapped s) h = h s refl
href_result-IsHref P true unmappable h = tt
href_result-IsHref P false unmappable h = tt
href_result-IsHref P l bad_url h = tt

module _ (urls : UrlLib) (mappings : List Mapping) (req_url : Url) where
  -- The text is what `RewriteUrl` makes of some URL.
  pub IsMapped : String → Type 0
  IsMapped s = (u : String) × (rewrite_url urls mappings req_url u ≡ mapped s)

  href_step-IsHref :
      (l : Bool) (v : Json) → StepIs (IsHref IsMapped) (href_step urls mappings req_url l v)
  unfolding href_step IsMapped
  href_step-IsHref l (str s) =
      href_result-IsHref IsMapped l (rewrite_url urls mappings req_url s) (λ u e. (s, e))
  href_step-IsHref l _ = tt

  child_step-AllHrefs :
      (child : Walked Json)
      → IfKept (AllHrefs IsMapped) child
      → StepIs (AllHrefs IsMapped) (child_step child)
  child_step-AllHrefs (kept v) h = h
  child_step-AllHrefs removed h = tt
  child_step-AllHrefs (failed e) h = tt

  field_step-AllHrefs :
      (b l : Bool) (v : Json) (child : Walked Json)
      → IfKept (AllHrefs IsMapped) child
      → StepIs
          (λ v'. if b then IsHref IsMapped v' else AllHrefs IsMapped v')
          (if b then href_step urls mappings req_url l v else child_step child)
  field_step-AllHrefs true l v child h = href_step-IsHref l v
  field_step-AllHrefs false l v child h = child_step-AllHrefs child h

  mutual
    unfolding walk_json AllHrefs

    walk_json-IfKept :
        (v : Json) (l : Bool) → IfKept (AllHrefs IsMapped) (walk_json urls mappings req_url v l)
    walk_json-IfKept (obj fs) l = finish_object-AllHrefs IsMapped _ (walk_fields-IfKept fs l)
    walk_json-IfKept (arr vs) l = finish_list-AllHrefs IsMapped vs _ (walk_items-IfKept vs l)
    walk_json-IfKept _ l = tt

    walk_items-IfKept :
        (vs : Items) (l : Bool)
        → IfKept (AllHrefsItems IsMapped) (walk_items urls mappings req_url vs l)
    walk_items-IfKept nil l = tt
    walk_items-IfKept (cons v vs) l =
        then_items-AllHrefs IsMapped _ _ (walk_json-IfKept v l) (walk_items-IfKept vs l)

    walk_fields-IfKept :
        (fs : Fields) (l : Bool)
        → IfKept (AllHrefsFields IsMapped) (walk_fields urls mappings req_url fs l)
    walk_fields-IfKept end l = tt
    walk_fields-IfKept (field key v fs) l =
        then_rest-AllHrefs IsMapped key _ _
          (field_step-AllHrefs (key == "href") l v _
            (walk_json-IfKept v (l || (key == "links" || key == "_links"))))
          (walk_fields-IfKept fs l)

  -- In a value that the walk yields, inside or outside of links, every text that stands directly under `href` is a URL
  -- that `RewriteUrl` made. This is said of the objects that the walk enters: it leaves a value under `href` that is
  -- not a text as it is, with all that stands in it.
  pub walk_json-AllHrefs :
      (v v' : Json) (l : Bool)
      → walk_json urls mappings req_url v l ≡ kept v'
      → AllHrefs IsMapped v'
  walk_json-AllHrefs v v' l e = subst (IfKept (AllHrefs IsMapped)) e (walk_json-IfKept v l)

  keeps_field :
      (key : String) (b l : Bool) (v : Json) (fs : Fields) (child : Walked Json)
      (rest : Walked Fields)
      → (AllHrefs (λ s. ⊥) v → child ≡ kept v)
      → (if b then IsHref (λ s. ⊥) v else AllHrefs (λ s. ⊥) v)
      → rest ≡ kept fs
      → then_rest key (if b then href_step urls mappings req_url l v else child_step child) rest
        ≡ kept (field key v fs)
  unfolding href_step
  keeps_field key false l v fs child rest same h e = rw (same h, e)
  keeps_field key true l (str s) fs child rest same h e = absurd h
  keeps_field key true l null fs child rest same h e = rw e
  keeps_field key true l _ fs child rest same h e = rw e

  mutual
    unfolding walk_json AllHrefs

    keeps_json :
        (v : Json) (l : Bool) → AllHrefs (λ s. ⊥) v → walk_json urls mappings req_url v l ≡ kept v
    keeps_json (obj fs) l h = rw (keeps_fields fs l h)
    keeps_json (arr nil) l h = refl
    keeps_json (arr (cons v vs)) l (h, hs) = rw (keeps_json v l h, keeps_items vs l hs)
    keeps_json null l h = refl
    keeps_json _ l h = refl

    keeps_items :
        (vs : Items) (l : Bool)
        → AllHrefsItems (λ s. ⊥) vs
        → walk_items urls mappings req_url vs l ≡ kept vs
    keeps_items nil l h = refl
    keeps_items (cons v vs) l (h, hs) = rw (keeps_json v l h, keeps_items vs l hs)

    keeps_fields :
        (fs : Fields) (l : Bool)
        → AllHrefsFields (λ s. ⊥) fs
        → walk_fields urls mappings req_url fs l ≡ kept fs
    keeps_fields end l h = refl
    keeps_fields (field key v fs) l (h, hs) =
        keeps_field key (key == "href") l v fs _ _
          (λ k. keeps_json v (l || (key == "links" || key == "_links")) k) h (keeps_fields fs l hs)

  -- A document without a text under `href` is left as it is, inside or outside of links.
  pub walk_json-eq_self :
      (v : Json) (l : Bool) → AllHrefs (λ s. ⊥) v → walk_json urls mappings req_url v l ≡ kept v
  walk_json-eq_self v l h = keeps_json v l h
