-- ===== src/Ratelimit/Bounds.antt =====
-- The count of tokens that a client sees (ratelimit/ratelimiting.go), whatever Redis replies.
use servicegateway.Prelude.{ℕ, ◌⊎◌, ◌≤◌, String, ◌≡◌, List, ◌++◌, Option}
use servicegateway.Prelude.Int.{pos}
use servicegateway.Effects.{Outcome, returned, panicked}
use servicegateway.Http.{Request, Params, Handler, Event}
use servicegateway.Ratelimit.{
  Redis, Throttler, Taken, tokens, no_tokens, unavailable, limit_headers, limit_exceeded,
}

module _ {W : Type 0} (redis : Redis W) (resolve : String → Option String) (t : Throttler)
    (handler : Handler W) (req : Request) (params : Params) where
  -- The answer for a count of tokens.
  abbrev pub Counted : List Event → W → Type 0
  Counted events w' =
      (events ≡ unavailable)
      ⊎ ((events ≡ limit_headers t.burst_size (pos 0) ++ limit_exceeded)
          ⊎ ((n : ℕ) × (inner : List Event) × (w : W) × (1 ≤ n)
              × (handler req params w ≡ (returned inner, w'))
              × (events ≡ limit_headers t.burst_size (pos n) ++ inner)))

  abbrev IfCounted : Outcome (List Event) × W → Type 0
  IfCounted (returned events, w') = Counted events w'
  IfCounted (panicked, w') = Unit

  abbrev Limited : Outcome Taken → Type 0
  Limited (returned (tokens n limit)) = limit ≡ t.burst_size
  Limited (returned no_tokens) = Unit
  Limited panicked = Unit
