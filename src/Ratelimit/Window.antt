-- ===== src/Ratelimit/Window.antt =====
-- The requests of one client in one window of ratelimit/ratelimiting.go.
use servicegateway.Prelude.{
  ℕ, zero, suc, ◌-◌, ◌⊎◌, inl, inr, ◌≤◌, ◌<◌, String, ◌≡◌, ◌∙◌, [], ◌∷◌, ◌++◌, Option, none, some,
  arith, ap, ltb, Bool-cases, if◌then◌else◌,
}
use servicegateway.Prelude.Int.{ℤ, pos, sub_ℕ, pred_ℤ}
use servicegateway.Text.{itoa}
use servicegateway.Effects.{bind-pure_world, returned, pure, ◌>>=◌}
use servicegateway.Http.{Request, Params, Handler}
use servicegateway.Ratelimit.{
  set_ex_nx, decr, int, status, nil, ExecResult, replies, Redis, Throttler, tokens, limit_headers,
  limit_exceeded, bucket_key, identify_client, after_exec, take_token, throttle, decorate_handler,
}
use native.Mathlib.Decide.{dec_le}

le_or_lt : (a b : ℕ) → (a ≤ b) ⊎ (b < a)
le_or_lt a b = elim (dec_le a b) [ yes p ↦ inl p | no p ↦ inr (omega arith) ]

-- A text that Redis takes for an expiry: a positive number of seconds, in digits only. The bound is that of the float64
-- numbers that are written without an exponent.
abbrev pub IsSeconds : String → Type 0
IsSeconds x = (s : ℕ) × (0 < s) × (s < 1000000) × (x ≡ itoa s)

-- What the throttler relies on of Redis, where the expiry is one that Redis takes: `bucket` is the counter that a key holds. `SET … NX` writes
-- only a key that holds nothing, `DECR` takes one from what is there and replies with the rest, and
-- the two run as one transaction. No key of the transaction expires inside it.
pub record IsRedis {W : Type 0} (redis : Redis W) (bucket : String → W → Option ℤ) : Type 0 where
  pub fresh :
      (k : String) (b : ℤ) (s : String) (w : W)
      → IsSeconds s
      → bucket k w ≡ none
      → ((redis.transaction (set_ex_nx k b s ∷ decr k ∷ []) w).0
          ≡ replies (status "OK" ∷ int (pred_ℤ b) ∷ []))
        × (bucket k (redis.transaction (set_ex_nx k b s ∷ decr k ∷ []) w).1 ≡ some (pred_ℤ b))
  pub held :
      (k : String) (b n : ℤ) (s : String) (w : W)
      → IsSeconds s
      → bucket k w ≡ some n
      → ((redis.transaction (set_ex_nx k b s ∷ decr k ∷ []) w).0
          ≡ replies (nil ∷ int (pred_ℤ n) ∷ []))
        × (bucket k (redis.transaction (set_ex_nx k b s ∷ decr k ∷ []) w).1 ≡ some (pred_ℤ n))

-- The counter after `n` requests of a window that began with none.
abbrev pub count_after : ℕ → ℕ → Option ℤ
count_after b zero = none
count_after b (suc n) = some (sub_ℕ b (suc n))

pred_ℤ-sub_ℕ : (a b : ℕ) → pred_ℤ (sub_ℕ a b) ≡ sub_ℕ a (suc b)
pred_ℤ-sub_ℕ a b = ground arith

module _ {W : Type 0} (redis : Redis W) (resolve : String → Option String) (t : Throttler)
    (bucket : String → W → Option ℤ) (laws : IsRedis redis bucket)
    (whole : IsSeconds (redis.write_seconds t.window)) (handler : Handler W)
    (keeps : (k : String) (req : Request) (params : Params) (w : W)
      → bucket k (handler req params w).1 ≡ bucket k w)
    (user : String) (reqs : ℕ → Request) (params : ℕ → Params)
    (same : (n : ℕ) → identify_client redis resolve t (reqs n) ≡ some user) (b : ℕ)
    (size : t.burst_size ≡ pos b) where
  -- The world after `n` requests of the client, from a world `w`.
  unfoldable pub after_requests : ℕ → W → W
  after_requests zero w = w
  after_requests (suc n) w =
      (decorate_handler redis resolve t handler (reqs n) (params n) (after_requests n w)).1

  -- The transaction of `takeToken` for the client.
  abbrev pub transaction : W → ExecResult × W
  transaction = redis.transaction (
      set_ex_nx (bucket_key user) t.burst_size (redis.write_seconds t.window)
      ∷ decr (bucket_key user)
      ∷ [])

  take_token-tokens :
      (n : ℕ) (w : W)
      → bucket (bucket_key user) w ≡ count_after b n
      → (take_token redis resolve t user w
          ≡ (returned (tokens (sub_ℕ b (suc n)) (pos b)), (transaction w).1))
        × (bucket (bucket_key user) (transaction w).1 ≡ count_after b (suc n))
  unfolding take_token after_exec
  take_token-tokens zero w e =
      ground
        (arith, laws.fresh (bucket_key user) t.burst_size (redis.write_seconds t.window) w whole e)
  take_token-tokens (suc n) w e = ground (
    arith,
    laws.held (bucket_key user) t.burst_size (sub_ℕ b (suc n)) (redis.write_seconds t.window) w
        whole e,
    pred_ℤ-sub_ℕ b (suc n),
  )

  decorate_handler-throttle :
      (m n : ℕ) (w : W)
      → bucket (bucket_key user) w ≡ count_after b n
      → decorate_handler redis resolve t handler (reqs m) (params m) w
        ≡ throttle redis resolve t handler
            (reqs m)
            (params m)
            (tokens (sub_ℕ b (suc n)) (pos b))
            (transaction w).1
  unfolding decorate_handler
  decorate_handler-throttle m n w e = rw (same m, (take_token-tokens n w e).0)

  throttle-forwards :
      (m n : ℕ) (w : W)
      → suc n < b
      → throttle redis resolve t handler (reqs m) (params m) (tokens (sub_ℕ b (suc n)) (pos b)) w
        ≡ (handler (reqs m) (params m) >>= λ events.
              pure (limit_headers (pos b) (pos (b - suc n)) ++ events))
            w
  unfolding throttle
  throttle-forwards m n w h = ground arith

  throttle-limits :
      (m n : ℕ) (w : W)
      → b ≤ suc n
      → throttle redis resolve t handler (reqs m) (params m) (tokens (sub_ℕ b (suc n)) (pos b)) w
        ≡ (returned (limit_headers (pos b) (pos 0) ++ limit_exceeded), w)
  unfolding throttle
  throttle-limits m n w h = ground arith

  bucket-throttle :
      (k : String) (m n : ℕ) (w : W)
      → bucket k
          (throttle redis resolve t handler
            (reqs m)
            (params m)
            (tokens (sub_ℕ b (suc n)) (pos b))
            w).1
        ≡ bucket k w
  bucket-throttle k m n w = elim (le_or_lt b (suc n)) [
    | inl refused ↦ rw (throttle-limits m n w refused)
    | inr passed ↦ rw (throttle-forwards m n w passed) (
        ap (bucket k) (bind-pure_world (handler (reqs m) (params m)) _ w)
        ∙ keeps k (reqs m) (params m) w)
  ]

  -- The effect of a request of the client on its bucket.
  pub bucket-decorate_handler :
      (m n : ℕ) (w : W)
      → bucket (bucket_key user) w ≡ count_after b n
      → bucket (bucket_key user) (decorate_handler redis resolve t handler (reqs m) (params m) w).1
        ≡ count_after b (suc n)
  bucket-decorate_handler m n w e =
      ap (λ r. bucket (bucket_key user) r.1) (decorate_handler-throttle m n w e)
      ∙ bucket-throttle (bucket_key user) m n (transaction w).1
      ∙ (take_token-tokens n w e).1

  -- And on a bucket that the transaction leaves alone.
  pub other-decorate_handler :
      (k : String) (m n : ℕ) (w : W)
      → bucket (bucket_key user) w ≡ count_after b n
      → bucket k (transaction w).1 ≡ bucket k w
      → bucket k (decorate_handler redis resolve t handler (reqs m) (params m) w).1 ≡ bucket k w
  other-decorate_handler k m n w e kept =
      ap (λ r. bucket k r.1) (decorate_handler-throttle m n w e)
      ∙ bucket-throttle k m n (transaction w).1
      ∙ kept

  -- The answer to a request of the client.
  pub decorate_handler-counted :
      (m n : ℕ) (w : W)
      → bucket (bucket_key user) w ≡ count_after b n
      → decorate_handler redis resolve t handler (reqs m) (params m) w ≡ (
          if ltb (suc n) b
          then (handler (reqs m) (params m) >>= λ events.
                pure (limit_headers (pos b) (pos (b - suc n)) ++ events))
              (transaction w).1
          else (returned (limit_headers (pos b) (pos 0) ++ limit_exceeded), (transaction w).1))
  decorate_handler-counted m n w e =
      decorate_handler-throttle m n w e ∙ elim (Bool-cases (ltb (suc n) b)) [
        | inl passed ↦ rw passed (throttle-forwards m n (transaction w).1 (ground arith))
        | inr refused ↦ rw refused (throttle-limits m n (transaction w).1 (ground arith))
      ]

  bucket-after_requests :
      (n : ℕ) (w : W)
      → bucket (bucket_key user) w ≡ none
      → bucket (bucket_key user) (after_requests n w) ≡ count_after b n
  unfolding after_requests
  bucket-after_requests zero w e = e
  bucket-after_requests (suc n) w e =
      bucket-decorate_handler n n (after_requests n w) (bucket-after_requests n w e)

  -- Requests of one client, from a world in which Redis holds no bucket for it, with a handler that
  -- leaves the buckets alone and no expiry in between. Of a limit `b`, the request that comes after
  -- `n` others is passed to the handler, with the headers `b` and `b - (n + 1)`, exactly if
  -- `n + 1 < b`; otherwise it is answered by 429 without a call of the handler. So `b - 1` requests
  -- pass.
  pub decorate_handler-window :
      (n : ℕ) (w : W)
      → bucket (bucket_key user) w ≡ none
      → decorate_handler redis resolve t handler (reqs n) (params n) (after_requests n w) ≡ (
          if ltb (suc n) b
          then (handler (reqs n) (params n) >>= λ events.
                pure (limit_headers (pos b) (pos (b - suc n)) ++ events))
              (transaction (after_requests n w)).1
          else (
            returned (limit_headers (pos b) (pos 0) ++ limit_exceeded),
            (transaction (after_requests n w)).1,
          ))
  decorate_handler-window n w e =
      decorate_handler-counted n n (after_requests n w) (bucket-after_requests n w e)
