-- ===== src/Ratelimit/Passing.antt =====
-- What the limiter (ratelimit/ratelimiting.go) leaves to the handler behind it.
use servicegateway.Prelude.{
  ◌⊎◌, inl, inr, String, ◌≡◌, refl, List, [], ◌∷◌, ◌++◌, Option, none, some, Bool-cases,
}
use servicegateway.Prelude.Int.{ℤ, pos, leb_ℤ}
use servicegateway.Effects.{Outcome, returned, panicked, pure, continue}
use servicegateway.Http.{Request, Params, Handler, Event}
use servicegateway.Http.Recorder.{sent}
use servicegateway.Ratelimit.{
  Command, set_ex_nx, decr, bucket_key, int, status, nil, redis_error, ExecResult, replies, failed,
  Redis, Throttler, Taken, tokens, no_tokens, unavailable, limit_headers, limit_exceeded,
  identify_client, after_exec, take_token, throttle, throttle_client, at_least_zero,
  decorate_handler,
}

-- The handler behind has not been called: the client gets 429 or 503, or the connection is dropped.
abbrev pub Stopped : Outcome (List Event) → Type 0
Stopped o =
    (o ≡ panicked)
    ⊎ ((events : List Event) × (o ≡ returned events)
        × (((sent events).code ≡ 429) ⊎ ((sent events).code ≡ 503)))

module _ {W : Type 0} (redis : Redis W) (resolve : String → Option String) (t : Throttler)
    (handler : Handler W) (req : Request) (params : Params) where
  -- The handler is called in the world `w`, and the client gets its events behind the limiter's headers.
  abbrev pub Forwarded : W → Outcome (List Event) × W → Type 0
  Forwarded w o =
      (limit : ℤ) × (remaining : ℤ) × (o
        ≡ continue (handler req params w).0
            (λ events. pure (limit_headers limit remaining ++ events)) (handler req params w).1)

  -- What `throttle` makes of a world.
  abbrev Passed : W → Outcome (List Event) × W → Type 0
  Passed w o = (Stopped o.0 × (o.1 ≡ w)) ⊎ Forwarded w o

  limited-Stopped :
      (limit remaining : ℤ) → Stopped (returned (limit_headers limit remaining ++ limit_exceeded))
  unfolding sent
  limited-Stopped limit remaining = inr (_, refl, inl refl)

  unavailable-Stopped : Stopped (returned unavailable)
  unfolding sent
  unavailable-Stopped = inr (_, refl, inr refl)

  throttle-Passed :
      (taken : Taken) (w : W) → Passed w (throttle redis resolve t handler req params taken w)
  unfolding throttle
  throttle-Passed no_tokens w = inl (unavailable-Stopped, refl)
  throttle-Passed (tokens n limit) w =
      elim (Bool-cases (leb_ℤ (at_least_zero redis resolve t n) (pos 0))) [
        | inl over ↦ rw over (inl (limited-Stopped limit (at_least_zero redis resolve t n), refl))
        | inr under ↦ rw under (inr (limit, at_least_zero redis resolve t n, refl))
      ]

  exec-Passed :
      (x : ExecResult) (w : W)
      → Passed w (
          continue
            (after_exec redis resolve t x w).0
            (throttle redis resolve t handler req params)
            (after_exec redis resolve t x w).1)
  unfolding after_exec
  exec-Passed failed w = throttle-Passed no_tokens w
  exec-Passed (replies []) w = inl (inl refl, refl)
  exec-Passed (replies (a ∷ [])) w = inl (inl refl, refl)
  exec-Passed (replies (a ∷ int n ∷ rest)) w = throttle-Passed (tokens n t.burst_size) w
  exec-Passed (replies (a ∷ status s ∷ rest)) w = inl (inl refl, refl)
  exec-Passed (replies (a ∷ nil ∷ rest)) w = inl (inl refl, refl)
  exec-Passed (replies (a ∷ redis_error s ∷ rest)) w = inl (inl refl, refl)

  -- The world after what the limiter has sent to Redis.
  abbrev pub AfterLimit : W → W → Type 0
  AfterLimit w w' = (w' ≡ w) ⊎ ((commands : List Command) × (w' ≡ (redis.transaction commands w).1))

  -- The limiter stops a request, or calls the handler behind it once, after a transaction in Redis.
  pub decorate_handler-passes :
      (w : W)
      → (w₁ : W) × AfterLimit w w₁
        × ((Stopped (decorate_handler redis resolve t handler req params w).0
              × ((decorate_handler redis resolve t handler req params w).1 ≡ w₁))
            ⊎ Forwarded w₁ (decorate_handler redis resolve t handler req params w))
  unfolding decorate_handler throttle_client take_token
  decorate_handler-passes w = go (identify_client redis resolve t req)
    where
      go :
          (o : Option String)
          → (w₁ : W) × AfterLimit w w₁
            × Passed w₁ (throttle_client redis resolve t handler req params o w)
      go none = (w, inl refl, inl (inl refl, refl))
      go (some user) =
          let commands =
            set_ex_nx (bucket_key user) t.burst_size (redis.write_seconds t.window)
            ∷ decr (bucket_key user)
            ∷ [] in
          let tx = redis.transaction commands w in
          (tx.1, inr (commands, refl), exec-Passed tx.0 tx.1)
