-- ===== src/Ratelimit/Clients.antt =====
-- The requests of several clients in one window of ratelimit/ratelimiting.go, in any order.
use text.Mathlib.TextLemmas.{append_cancel_left}
use servicegateway.Prelude.{
  ℕ, zero, suc, ◌-◌, inl, inr, String, ◌≡◌, ◌≢◌, ◌∙◌, subst, [], ◌∷◌, ◌++◌, Option, none, some,
  arith, ltb, ◌==◌, eq_iff, Bool-cases, if◌then◌else◌,
}
use servicegateway.Prelude.Int.{ℤ, pos}
use servicegateway.Effects.{returned, pure, ◌>>=◌}
use servicegateway.Http.{Request, Params, Handler}
use servicegateway.Ratelimit.{
  set_ex_nx, decr, Redis, Throttler, limit_headers, limit_exceeded, bucket_key, identify_client,
  decorate_handler,
}
use servicegateway.Ratelimit.Window.{
  IsSeconds, IsRedis, count_after, decorate_handler-counted, bucket-decorate_handler,
  other-decorate_handler,
}

module _ {W : Type 0} (redis : Redis W) (resolve : String → Option String) (t : Throttler)
    (bucket : String → W → Option ℤ) (laws : IsRedis redis bucket)
    (whole : IsSeconds (redis.write_seconds t.window))
    (apart : (j k : String) (v : ℤ) (s : String) (w : W)
      → j ≢ k
      → bucket j (redis.transaction (set_ex_nx k v s ∷ decr k ∷ []) w).1 ≡ bucket j w)
    (handler : Handler W)
    (keeps : (k : String) (req : Request) (params : Params) (w : W)
      → bucket k (handler req params w).1 ≡ bucket k w)
    (users : ℕ → String) (reqs : ℕ → Request) (params : ℕ → Params)
    (sent_by : (n : ℕ) → identify_client redis resolve t (reqs n) ≡ some (users n)) (b : ℕ)
    (size : t.burst_size ≡ pos b) where
  -- The world after `n` requests.
  unfoldable pub after_all : ℕ → W → W
  after_all zero w = w
  after_all (suc n) w =
      (decorate_handler redis resolve t handler (reqs n) (params n) (after_all n w)).1

  -- How many of the first `n` requests a client has sent.
  abbrev pub sent_before : String → ℕ → ℕ
  sent_before user zero = 0
  sent_before user (suc n) =
      if users n == user then suc (sent_before user n) else sent_before user n

  own_bucket :
      (n k : ℕ) (w : W)
      → bucket (bucket_key (users n)) w ≡ count_after b k
      → bucket
          (bucket_key (users n))
          (decorate_handler redis resolve t handler (reqs n) (params n) w).1
        ≡ count_after b (suc k)
  own_bucket n k w e =
      bucket-decorate_handler redis resolve t bucket laws whole handler keeps (users n)
        (λ _. reqs n) (λ _. params n) (λ _. sent_by n) b size n k w e

  other_bucket :
      (n k : ℕ) (user : String) (w : W)
      → user ≢ users n
      → bucket (bucket_key (users n)) w ≡ count_after b k
      → bucket (bucket_key user) (decorate_handler redis resolve t handler (reqs n) (params n) w).1
        ≡ bucket (bucket_key user) w
  other_bucket n k user w ne e =
      other-decorate_handler redis resolve t bucket laws whole handler keeps (users n) (λ _. reqs n)
        (λ _. params n) (λ _. sent_by n) b size (bucket_key user) n k w e
        (apart (bucket_key user) (bucket_key (users n)) t.burst_size (redis.write_seconds t.window)
          w (λ same. ne (append_cancel_left "RL_BUCKET_" user (users n) same)))

  bucket-after_all :
      (n : ℕ) (user : String) (w : W)
      → ((u : String) → bucket (bucket_key u) w ≡ none)
      → bucket (bucket_key user) (after_all n w) ≡ count_after b (sent_before user n)
  unfolding after_all
  bucket-after_all zero user w none_yet = none_yet user
  bucket-after_all (suc n) user w none_yet = elim (Bool-cases (users n == user)) [
    | inl same ↦ rw same (
        subst
          (λ u. bucket (bucket_key u) (after_all (suc n) w) ≡ count_after b (suc (sent_before u n)))
          ((eq_iff (users n) user).0 same)
          (own_bucket n (sent_before (users n) n) (after_all n w)
            (bucket-after_all n (users n) w none_yet)))
    | inr other ↦ rw other (
        other_bucket n (sent_before (users n) n) user (after_all n w)
          (λ same. ground (arith, other, eq_iff (users n) user))
          (bucket-after_all n (users n) w none_yet)
        ∙ bucket-after_all n user w none_yet)
  ]

  -- The window is a whole number of seconds from 1 to 999999, as redigo writes it. Requests of any clients, one after the other in any order, from a world in which Redis holds no bucket, with a
  -- handler that leaves the buckets alone, a transaction that leaves those of other clients alone, and no
  -- expiry in between. Of a limit `b`, a request is passed to the handler, with the headers `b` and
  -- `b - (k + 1)`, exactly if `k + 1 < b` for the `k` earlier requests of its own client; otherwise it is
  -- answered by 429 without a call of the handler. No client uses up what is another's.
  pub decorate_handler-clients :
      (n : ℕ) (w : W)
      → ((u : String) → bucket (bucket_key u) w ≡ none)
      → decorate_handler redis resolve t handler (reqs n) (params n) (after_all n w) ≡ (
          if ltb (suc (sent_before (users n) n)) b
          then (handler (reqs n) (params n) >>= λ events.
                pure (limit_headers (pos b) (pos (b - suc (sent_before (users n) n))) ++ events))
              (redis.transaction
                (set_ex_nx (bucket_key (users n)) t.burst_size (redis.write_seconds t.window)
                  ∷ decr (bucket_key (users n))
                  ∷ [])
                (after_all n w)).1
          else (
            returned (limit_headers (pos b) (pos 0) ++ limit_exceeded),
            (redis.transaction
                (set_ex_nx (bucket_key (users n)) t.burst_size (redis.write_seconds t.window)
                  ∷ decr (bucket_key (users n))
                  ∷ [])
                (after_all n w)).1,
          ))
  decorate_handler-clients n w none_yet =
      decorate_handler-counted redis resolve t bucket laws whole handler keeps (users n)
        (λ _. reqs n) (λ _. params n) (λ _. sent_by n) b size n (sent_before (users n) n)
        (after_all n w) (bucket-after_all n (users n) w none_yet)
