-- ===== src/Ratelimit/Tests.antt =====
-- A Redis that holds counters, and a client with a limit of three.
use servicegateway.Prelude.{
  ℕ, zero, suc, sym, ◌≢◌, false, ◌==◌, eq_iff, arith, String, ◌≡◌, refl, List, [], ◌∷◌, ◌++◌,
  Option, none, some, eq_refl,
}
use servicegateway.Prelude.Int.{ℤ, pos, pred_ℤ}
use servicegateway.Text.{itoa}
use servicegateway.Effects.{returned, pure}
use servicegateway.Http.{Request, Handler, write, lookup}
use servicegateway.Http.Tests.{request}
use servicegateway.Ratelimit.{
  Command, set_ex_nx, decr, int, status, nil, ExecResult, replies, failed, Redis, Throttler,
  bucket_key, limit_headers, identify_client, take_token, throttle, decorate_handler,
}
use servicegateway.Ratelimit.Window.{IsRedis}
use servicegateway.Ratelimit.Clients.{after_all, decorate_handler-clients}

abbrev Counters : Type 0
Counters = List (String × ℤ)

abbrev bucket : String → Counters → Option ℤ
bucket k w = lookup k w

abbrev counted : String → ℤ → Option ℤ → Counters → ExecResult × Counters
counted k b none w = (replies (status "OK" ∷ int (pred_ℤ b) ∷ []), (k, pred_ℤ b) ∷ w)
counted k b (some n) w = (replies (nil ∷ int (pred_ℤ n) ∷ []), (k, pred_ℤ n) ∷ w)

abbrev run : List Command → Counters → ExecResult × Counters
run (set_ex_nx k b s ∷ decr j ∷ []) w = counted k b (bucket k w) w
run _ w = (failed, w)

abbrev redis : Redis Counters
redis = record { write_seconds = λ d. itoa 60; transaction = run }

lookup_self : (k : String) (n : ℤ) (w : Counters) → lookup k ((k, n) ∷ w) ≡ some n
unfolding lookup
lookup_self k n w = rw eq_refl

redis-IsRedis : IsRedis redis bucket
redis-IsRedis = record {
  fresh = λ k b s w whole absent. rw absent (refl, lookup_self k (pred_ℤ b) w);
  held = λ k b n s w whole there. rw there (refl, lookup_self k (pred_ℤ n) w);
}

abbrev throttler : Throttler
throttler = record { burst_size = pos 3; window = pos 60000000000 }

abbrev resolve : String → Option String
resolve a = some a

abbrev page : Handler Counters
page req params = pure (write "page" ∷ [])

abbrev user : String
user = "10.0.0.1:5000"

abbrev get_request : Request
get_request = request "GET" "/a" []

client : identify_client redis resolve throttler get_request ≡ some user
unfolding identify_client
client = refl

unequal : (j k : String) → j ≢ k → (j == k) ≡ false
unequal j k ne = ground (arith, ne, eq_iff j k)

-- Transactions on one counter leave the others alone.
counted_apart :
    (j k : String) (b : ℤ) (held : Option ℤ) (w : Counters)
    → j ≢ k
    → lookup j (counted k b held w).1 ≡ lookup j w
unfolding lookup
counted_apart j k b none w ne = rw (unequal k j (λ e. ne (sym e)))
counted_apart j k b (some n) w ne = rw (unequal k j (λ e. ne (sym e)))

abbrev other_user : String
other_user = "10.0.0.2"

-- The second request says who sends it.
abbrev reqs : ℕ → Request
reqs zero = get_request
reqs (suc zero) = request "GET" "/a" (("Authorization", other_user ∷ []) ∷ [])
reqs (suc (suc n)) = get_request

abbrev users : ℕ → String
users zero = user
users (suc zero) = other_user
users (suc (suc n)) = user

clients : (n : ℕ) → identify_client redis resolve throttler (reqs n) ≡ some (users n)
unfolding identify_client
clients zero = refl
clients (suc zero) = refl
clients (suc (suc n)) = refl

-- The third request is its client's second, and has one token left.
decorate_handler-clients_example :
    decorate_handler redis resolve throttler page get_request []
      (decorate_handler redis resolve throttler page
        (reqs 1)
        []
        (decorate_handler redis resolve throttler page get_request [] []).1).1
    ≡ (
      returned (limit_headers (pos 3) (pos 1) ++ write "page" ∷ []),
      (bucket_key user, pos 1) ∷ (bucket_key other_user, pos 2) ∷ (bucket_key user, pos 2) ∷ [],
    )
unfolding after_all decorate_handler lookup identify_client take_token throttle
decorate_handler-clients_example =
    decorate_handler-clients redis resolve throttler bucket redis-IsRedis
      (60, omega arith, omega arith, refl) (λ j k v s w ne. counted_apart j k v (bucket k w) w ne)
      page (λ k req params w. refl) users reqs (λ n. []) clients 3 refl 2 [] (λ u. refl)
