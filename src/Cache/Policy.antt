-- ===== src/Cache/Policy.antt =====
-- What cache/cache.go stores and purges.
use servicegateway.Prelude.{
  String, ◌≡◌, ◌≢◌, refl, ◌∙◌, ◌⊎◌, inl, inr, Bool, true, false, not, List, ◌∷◌, arith, leb, ◌||◌,
  Bool-cases, text_cases, subst,
}
use servicegateway.Effects.{returned, Outcome-cases}
use servicegateway.Http.{Request, Params, Handler, Event, add}
use servicegateway.Cache.{
  Item, Lookup, found, key_not_found, buffer, foreign, Gcache, identifier_for_request, allows_cache,
  filled, dump, keep, refresh, is_missing, decorate_handler, decorate_unsafe_handler,
}
use servicegateway.Cache.Store.{IsCache}

-- A completed buffer with a status below 400.
abbrev pub IsStorable : Item → Type 0
IsStorable (buffer b) = (leb 400 b.status ≡ false) × (b.complete ≡ true)
IsStorable foreign = ⊥

filled-complete : (events : List Event) → (filled events).complete ≡ true
unfolding filled
filled-complete events = refl

-- Everything that the cache shows is storable.
pub record IsClean {W : Type 0} (view : String → W → Lookup) (w : W) : Type 0 where
  pub at_key : (k : String) (i : Item) → view k w ≡ found i → IsStorable i

module _ {W : Type 0} (c : Gcache W) (view : String → W → Lookup) (laws : IsCache c view) where
  get-IsClean : (k : String) (w : W) → IsClean view w → IsClean view (c.get_item k w).1
  get-IsClean k w h = record { at_key = λ j i e. h.at_key j i (rw (laws.get_keeps j k w) at e) }

  remove-IsClean : (k : String) (w : W) → IsClean view w → IsClean view (c.remove_item k w)
  remove-IsClean k w h = record {
    at_key = λ j i e. elim (text_cases k j) [
      | inl same ↦
          let gone : view j (c.remove_item k w) ≡ key_not_found =
            rw (← same) (laws.remove_self k w) in
          cc (e, gone)
      | inr other ↦ h.at_key j i (rw (laws.remove_other j k w other) at e)
    ];
  }

  set-IsClean :
      (k : String) (i : Item) (w : W)
      → IsStorable i
      → IsClean view w
      → IsClean view (c.set_item k i w)
  set-IsClean k i w ok h = record {
    at_key = λ j i' e. elim (text_cases k j) [
      | inl same ↦
          let there : view j (c.set_item k i w) ≡ found i = rw (← same) (laws.set_self k i w) in
          let p : i ≡ i' = cc (e, there) in subst IsStorable p ok
      | inr other ↦ elim (laws.set_other j k i w other) [
        | inl kept ↦ h.at_key j i' (rw kept at e)
        | inr gone ↦ cc (e, gone)
      ]
    ];
  }

  keep-IsClean :
      (k : String) (use_cache : Bool) (events : List Event) (w : W)
      → IsClean view w
      → IsClean view (keep c k use_cache (filled events) w).1
  unfolding keep
  keep-IsClean k use_cache events w h = elim (Bool-cases (leb 400 (filled events).status)) [
    | inl bad ↦ rw bad (elim (Bool-cases use_cache) [ inl e ↦ rw e h | inr e ↦ rw e h ])
    | inr good ↦ elim (Bool-cases use_cache) [
      | inl e ↦
          rw (e, good) (set-IsClean k (buffer (filled events)) w (good, filled-complete events) h)
      | inr e ↦ rw e h
    ]
  ]

  refresh-IsClean :
      (handler : Handler W) (req : Request) (params : Params) (k : String) (use_cache : Bool)
      (w : W)
      → IsClean view (handler req params w).1
      → IsClean view (refresh c handler req params k use_cache w).1
  unfolding refresh
  refresh-IsClean handler req params k use_cache w h =
      elim (Outcome-cases (handler req params w).0) [
        | inl (events, e) ↦ rw e (keep-IsClean k use_cache events (handler req params w).1 h)
        | inr e ↦ rw e h
      ]

  -- The cache only ever shows completed responses with a status below 400: if that holds and the
  -- wrapped handler preserves it, then it holds after a safe request, whatever its headers and
  -- whether the handler returns or panics.
  pub decorate_handler-IsClean :
      (handler : Handler W)
      → ((req : Request) (params : Params) (w : W)
          → IsClean view w
          → IsClean view (handler req params w).1)
      → (req : Request) (params : Params) (w : W) → IsClean view w
      → IsClean view (decorate_handler c handler req params w).1
  unfolding decorate_handler
  decorate_handler-IsClean handler keeps req params w h =
      let k = identifier_for_request req in
      let w' = (c.get_item k w).1 in
      let h' = get-IsClean k w h in
      elim (Bool-cases (not (allows_cache req) || is_missing (c.get_item k w).0)) [
        | inl run ↦
            rw run
              (refresh-IsClean handler req params k (allows_cache req) w' (keeps req params w' h'))
        | inr answered ↦ rw answered h'
      ]

  -- So it does after an unsafe request.
  pub decorate_unsafe_handler-IsClean :
      (handler : Handler W)
      → ((req : Request) (params : Params) (w : W)
          → IsClean view w
          → IsClean view (handler req params w).1)
      → (req : Request) (params : Params) (w : W) → IsClean view w
      → IsClean view (decorate_unsafe_handler c handler req params w).1
  unfolding decorate_unsafe_handler
  decorate_unsafe_handler-IsClean handler keeps req params w h =
      let k = identifier_for_request req in
      let h' = keeps req params (c.remove_item k w) (remove-IsClean k w h) in
      elim (Outcome-cases (handler req params (c.remove_item k w)).0) [
        | inl (events, e) ↦ rw e h'
        | inr e ↦ rw e h'
      ]

  -- A request that forbids caching, or one without an entry whose handler answers with a status of
  -- 400 or more: the client gets `X-Cache: PASS` and the buffered response, and the world is the one
  -- that the look-up and the handler leave.
  pub decorate_handler-pass :
      (handler : Handler W) (req : Request) (params : Params) (w w₁ : W) (events : List Event)
      → handler req params (c.get_item (identifier_for_request req) w).1 ≡ (returned events, w₁)
      → (allows_cache req ≡ false)
        ⊎ ((view (identifier_for_request req) w ≡ key_not_found)
            × (leb 400 (filled events).status ≡ true))
      → decorate_handler c handler req params w
        ≡ (returned (add "X-Cache" "PASS" ∷ dump (filled events)), w₁)
  unfolding decorate_handler refresh keep
  decorate_handler-pass handler req params w w₁ events ran (inl forbidden) = ground arith
  decorate_handler-pass handler req params w w₁ events ran (inr (missing, bad)) =
      ground (arith, laws.get_view (identifier_for_request req) w)

  decorate_unsafe_handler-view :
      (handler : Handler W) (req : Request) (params : Params) (w : W)
      → ((k : String) (v : W) → view k (handler req params v).1 ≡ view k v)
      → (j : String)
      → view j (decorate_unsafe_handler c handler req params w).1
        ≡ view j (c.remove_item (identifier_for_request req) w)
  unfolding decorate_unsafe_handler
  decorate_unsafe_handler-view handler req params w keeps j =
      let w' = c.remove_item (identifier_for_request req) w in
      elim (Outcome-cases (handler req params w').0) [
        | inl (events, e) ↦ rw e (keeps j w')
        | inr e ↦ rw e (keeps j w')
      ]

  -- An unsafe request, whose handler does not touch the cache itself: afterwards there is no entry
  -- under the request's identifier, and every other identifier shows what it showed before, that of
  -- the same URI with another `Accept` header included.
  pub decorate_unsafe_handler-purges :
      (handler : Handler W) (req : Request) (params : Params) (w : W) (j : String)
      → ((k : String) (v : W) → view k (handler req params v).1 ≡ view k v)
      → identifier_for_request req ≢ j
      → (view (identifier_for_request req) (decorate_unsafe_handler c handler req params w).1
          ≡ key_not_found)
        × (view j (decorate_unsafe_handler c handler req params w).1 ≡ view j w)
  decorate_unsafe_handler-purges handler req params w j keeps ne =
      let k = identifier_for_request req in
      let after = decorate_unsafe_handler-view handler req params w keeps in
      (after k ∙ laws.remove_self k w, after j ∙ laws.remove_other j k w ne)
