-- ===== src/Cache/Replay.antt =====
-- Two requests after each other through `DecorateHandler` of cache/cache.go.
use servicegateway.Prelude.{String, ◌≡◌, ◌∙◌, true, false, List, ◌∷◌, arith, leb}
use servicegateway.Effects.{returned}
use servicegateway.Http.{Request, Params, Handler, Event, add}
use servicegateway.Cache.{
  Lookup, found, key_not_found, buffer, Gcache, ResponseBuffer, identifier_for_request,
  allows_cache, filled, dump, keep, refresh, answer, decorate_handler,
}
use servicegateway.Cache.Store.{IsCache}

module _ {W : Type 0} (c : Gcache W) (view : String → W → Lookup) (laws : IsCache c view) where
  decorate_handler-miss :
      (handler : Handler W) (req : Request) (params : Params) (w w₁ : W) (events : List Event)
      → allows_cache req ≡ true
      → view (identifier_for_request req) w ≡ key_not_found
      → handler req params (c.get_item (identifier_for_request req) w).1 ≡ (returned events, w₁)
      → leb 400 (filled events).status ≡ false
      → decorate_handler c handler req params w ≡ (
        returned (add "X-Cache" "MISS" ∷ dump (filled events)),
        c.set_item (identifier_for_request req) (buffer (filled events)) w₁,
      )
  unfolding decorate_handler refresh keep
  decorate_handler-miss handler req params w w₁ events fresh missing ran fine =
      ground (arith, laws.get_view (identifier_for_request req) w)

  decorate_handler-hit :
      (handler : Handler W) (req : Request) (params : Params) (w : W) (b : ResponseBuffer)
      → allows_cache req ≡ true
      → view (identifier_for_request req) w ≡ found (buffer b)
      → decorate_handler c handler req params w
        ≡ (returned (add "X-Cache" "HIT" ∷ dump b), (c.get_item (identifier_for_request req) w).1)
  unfolding decorate_handler answer
  decorate_handler-hit handler req params w b fresh there =
      ground (arith, laws.get_view (identifier_for_request req) w)

  -- Let a request that allows caching find no entry, and its handler return events whose buffered
  -- status is below 400. The client gets `X-Cache: MISS` and the dump of the buffer. In every later
  -- world that still shows for this key what the world right after the miss shows, a request that
  -- allows caching and has the same identifier gets `X-Cache: HIT` and the same dump, and its own
  -- handler does not run: the world only sees the look-up. Nothing is asked of the two methods,
  -- credentials and handlers.
  pub miss_then_hit :
      (handler other : Handler W) (req again : Request) (params ps : Params) (w w₁ later : W)
      (events : List Event)
      → allows_cache req ≡ true
      → allows_cache again ≡ true
      → identifier_for_request again ≡ identifier_for_request req
      → view (identifier_for_request req) w ≡ key_not_found
      → handler req params (c.get_item (identifier_for_request req) w).1 ≡ (returned events, w₁)
      → leb 400 (filled events).status ≡ false
      → view (identifier_for_request req) later
        ≡ view (identifier_for_request req) (decorate_handler c handler req params w).1
      → ((decorate_handler c handler req params w).0
          ≡ returned (add "X-Cache" "MISS" ∷ dump (filled events)))
        × (decorate_handler c other again ps later ≡ (
          returned (add "X-Cache" "HIT" ∷ dump (filled events)),
          (c.get_item (identifier_for_request again) later).1,
        ))
  miss_then_hit handler other req again params ps w w₁ later events a b same missing ran fine kept =
      let miss = decorate_handler-miss handler req params w w₁ events a missing ran fine in
      let here : view (identifier_for_request again) later ≡ found (buffer (filled events)) =
        rw same (
          kept
          ∙ rw miss (laws.set_self (identifier_for_request req) (buffer (filled events)) w₁)) in
      (rw miss, decorate_handler-hit other again ps later (filled events) b here)
