-- ===== src/Auth/Jwt/Calls/Alone.antt =====
-- A call of `GetVerificationKey` (auth/jwt.go) while no other runs: its steps do what the function does.
use servicegateway.Prelude.{
  ℕ, ◌+◌, String, ◌≡◌, refl, sym, subst, true, false, List, ◌∷◌, Option, none, some, ◌==◌, eq_iff,
  arith, ltb, Bool-cases, inl, inr,
}
use servicegateway.Effects.{Outcome, returned, panicked}
use servicegateway.Config.{GlobalAuth}
use servicegateway.Auth.Types.{Result, ok, err, plain, StandardClaims, Error}
use servicegateway.Auth.Jwt.{
  JwtEnv, live_key, get_verification_key, cached_key, read_key as read_live_key, locked_key,
  store_key as store_fetched,
}
use servicegateway.Auth.Jwt.Calls.{
  Memory, Answer, read, error, Pc, begin, waiting, fetching, finished, Move, no_key, some_key,
  read_expiration, live, expired, read_key, lock, again_none, again_some, again_read_expiration,
  again_expired, fetch_fails, fetch, store_key, read_clock, store_expiration, return_key, unlock,
}

-- Any number of steps of one call.
pub data Run (cache_ttl : ℕ) : Memory → Pc → Memory → Pc → Type 0 where
  stop : {m : Memory} {p : Pc} → Run cache_ttl m p m p
  step :
      {m m₁ m₂ : Memory} {p p₁ p₂ : Pc}
      → Move cache_ttl m p m₁ p₁
      → Run cache_ttl m₁ p₁ m₂ p₂
      → Run cache_ttl m p m₂ p₂

-- The answer of a request for the key.
abbrev pub fetched_by : Option String → Memory → Option String × Memory
fetched_by none m = (none, m)
fetched_by (some body) m = (some body, record m { fetched = body ∷ m.fetched })

-- The environment of the function over this memory; the request for the key is answered by `answer`.
abbrev pub env_of :
    (String → String → ℕ → Result StandardClaims)
    → (String → String → ℕ → Option Error)
    → Option String
    → JwtEnv Memory
env_of standard other answer = record {
  now = λ m. (m.now, m);
  http_get = λ url m. fetched_by answer m;
  lock = λ m. m;
  cached = record {
    load = λ m. record { key = m.key; expiration = m.expiration };
    store = λ c m. record m { key = c.key; expiration = c.expiration };
  };
  parse_with_standard_claims = standard;
  parse_with_map_claims = other;
}

abbrev pub answer_of : Outcome (Result String) → Answer
answer_of (returned (ok k)) = read (some k)
answer_of (returned (err e)) = error
answer_of panicked = error

-- A memory in which nobody has the lock.
abbrev pub unlocked : Option String → ℕ → ℕ → List String → Memory
unlocked k e n bodies = record {
  key = k;
  expiration = e;
  locked = false;
  now = n;
  fetched = bodies;
}

module _ (cache_ttl : ℕ) where
  -- The steps from the request on, under the lock.
  abbrev after_fetch : Option String → Memory → Memory
  after_fetch none m = m
  after_fetch (some body) m = record {
    key = some body;
    expiration = m.now + cache_ttl;
    locked = m.locked;
    now = m.now;
    fetched = body ∷ m.fetched;
  }

  abbrev answered : Option String → Answer
  answered none = error
  answered (some body) = read (some body)

  fetching-Run :
      (answer : Option String) (m : Memory)
      → Run cache_ttl
          (record m { locked = true })
          fetching
          (after_fetch answer (record m { locked = false }))
          (finished (answered answer))
  fetching-Run none m = step fetch_fails (step unlock stop)
  fetching-Run (some body) m = step (fetch body) (
      step store_key (step read_clock (step store_expiration (step return_key (step unlock stop)))))

  waiting-Run :
      (k : Option String) (answer : Option String) (e n : ℕ) (bodies : List String)
      → live_key (record { key = k; expiration = e }) n ≡ none
      → Run cache_ttl
          (unlocked k e n bodies)
          waiting
          (after_fetch answer (unlocked k e n bodies))
          (finished (answered answer))
  unfolding live_key
  waiting-Run none answer e n bodies dead =
      step (lock refl) (step (again_none refl) (fetching-Run answer (unlocked none e n bodies)))
  waiting-Run (some k) answer e n bodies dead = step (lock refl) (
      step (again_some refl) (
        step again_read_expiration (
          step (again_expired (ground (arith, dead)))
            (fetching-Run answer (unlocked (some k) e n bodies)))))

  module _ (standard : String → String → ℕ → Result StandardClaims)
      (other : String → String → ℕ → Option Error) (answer : Option String) (config : GlobalAuth)
      (asks : config.verification_key ≡ "") where
    -- What the function does in a memory.
    abbrev result : Memory → Outcome (Result String) × Memory
    result m = get_verification_key (env_of standard other answer) config cache_ttl m

    not_configured : (config.verification_key == "") ≡ true
    not_configured = (eq_iff config.verification_key "").1 asks

    -- The call can take steps to the end of the function.
    abbrev Follows : Memory → Outcome (Result String) × Memory → Type 0
    Follows m o = Run cache_ttl m begin o.1 (finished (answer_of o.0))

    after_miss : Option String → Memory → Outcome (Result String) × Memory
    after_miss none m = (returned (err (plain "could not retrieve key")), m)
    after_miss (some body) m = (returned (ok body), after_fetch (some body) m)

    store_fetched-fetched_by :
        (o : Option String) (m : Memory)
        → store_fetched
            (env_of standard other answer)
            config
            cache_ttl
            (fetched_by o m).0
            (fetched_by o m).1
          ≡ after_miss o m
    unfolding store_fetched after_miss
    store_fetched-fetched_by none m = refl
    store_fetched-fetched_by (some body) m = refl

    after_miss-Run :
        (o : Option String) (p : Pc) (m : Memory)
        → Run cache_ttl m p (after_fetch o m) (finished (answered o))
        → Run cache_ttl m p (after_miss o m).1 (finished (answer_of (after_miss o m).0))
    unfolding after_miss
    after_miss-Run none p m run = run
    after_miss-Run (some body) p m run = run

    result-dead :
        (k : Option String) (e n : ℕ) (bodies : List String)
        → live_key (record { key = k; expiration = e }) n ≡ none
        → result (unlocked k e n bodies) ≡ after_miss answer (unlocked k e n bodies)
    unfolding get_verification_key locked_key cached_key read_live_key
    result-dead none e n bodies dead =
        rw not_configured (store_fetched-fetched_by answer (unlocked none e n bodies))
    result-dead (some k) e n bodies dead =
        rw (not_configured, dead, dead)
          (store_fetched-fetched_by answer (unlocked (some k) e n bodies))

    result-live :
        (k : String) (e n : ℕ) (bodies : List String)
        → ltb n e ≡ true
        → result (unlocked (some k) e n bodies) ≡ (returned (ok k), unlocked (some k) e n bodies)
    unfolding get_verification_key cached_key read_live_key live_key
    result-live k e n bodies alive = rw (not_configured, alive)

    begin-Run :
        (k : Option String) (e n : ℕ) (bodies : List String)
        → live_key (record { key = k; expiration = e }) n ≡ none
        → Run cache_ttl
            (unlocked k e n bodies)
            begin
            (after_fetch answer (unlocked k e n bodies))
            (finished (answered answer))
    unfolding live_key
    begin-Run none e n bodies dead = step (no_key refl) (waiting-Run none answer e n bodies dead)
    begin-Run (some k) e n bodies dead = step (some_key refl) (
        step read_expiration
          (step (expired (ground (arith, dead))) (waiting-Run (some k) answer e n bodies dead)))

    dead-Follows :
        (k : Option String) (e n : ℕ) (bodies : List String)
        → live_key (record { key = k; expiration = e }) n ≡ none
        → Follows (unlocked k e n bodies) (result (unlocked k e n bodies))
    dead-Follows k e n bodies dead =
        subst (Follows (unlocked k e n bodies)) (sym (result-dead k e n bodies dead))
          (after_miss-Run answer begin (unlocked k e n bodies) (begin-Run k e n bodies dead))

    -- No key is configured, nobody has the lock, and nothing else happens meanwhile. Then the steps of a call lead from
    -- its begin to the memory and the answer of `get_verification_key`, whatever is cached, whatever the clock shows
    -- and however a request for the key is answered.
    pub call_alone :
        (k : Option String) (e n : ℕ) (bodies : List String)
        → Follows (unlocked k e n bodies) (result (unlocked k e n bodies))
    unfolding live_key
    call_alone none e n bodies = dead-Follows none e n bodies refl
    call_alone (some k) e n bodies = elim (Bool-cases (ltb n e)) [
      | inl alive ↦
          subst (Follows (unlocked (some k) e n bodies)) (sym (result-live k e n bodies alive)) (
            step (some_key refl)
              (step read_expiration (step (live (ground (arith, alive))) (step read_key stop))))
      | inr old ↦ dead-Follows (some k) e n bodies (rw old)
    ]
