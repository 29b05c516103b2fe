-- ===== src/Ratelimit.antt =====
-- ratelimit/ratelimiting.go: a token bucket per client in Redis. Redis and the resolution of the
-- client's address are parameters.
pub mod Window
pub mod Clients
pub mod Bounds
pub mod Passing
mod Tests
use servicegateway.Prelude.{
  String, ◌<>◌, List, [], ◌∷◌, ◌++◌, Option, none, some, ◌==◌, if◌then◌else◌,
}
use servicegateway.Prelude.Int.{ℤ, pos, ltb_ℤ, leb_ℤ}
use servicegateway.Text.{replace_all, itoa_ℤ}
use servicegateway.Effects.{Exec, pure, panic, call, ◌>>=◌}
use servicegateway.Http.{Request, Params, Handler, Event, add, set, write_header, write}
use servicegateway.Http.Header.{get}
use servicegateway.Config.{RateLimiting}

-- The commands that the throttler sends: `SET key value EX seconds NX`, with the text of the seconds, and
-- `DECR key`.
pub data Command : Type 0 where
  set_ex_nx : String → ℤ → String → Command
  decr : String → Command

-- A reply as redigo decodes it.
pub data Reply : Type 0 where
  int : ℤ → Reply
  status : String → Reply
  nil : Reply
  redis_error : String → Reply

-- The result of `MULTI`, the commands and `EXEC`; `failed` is an error of any of these calls.
pub data ExecResult : Type 0 where
  replies : List Reply → ExecResult
  failed : ExecResult

-- Redis behind redigo; `write_seconds` is the text in which redigo sends the float64 that `Seconds()` of a
-- `time.Duration`, an integer of nanoseconds, is.
pub record Redis (W : Type 0) : Type 0 where
  pub write_seconds : ℤ → String
  pub transaction : List Command → W → ExecResult × W

-- `RedisSimpleRateThrottler`, its window a `time.Duration` in nanoseconds.
pub record Throttler : Type 0 where
  pub burst_size : ℤ
  pub window : ℤ

-- `NewRateLimiter`, where `parse_duration` is `time.ParseDuration`.
abbrev pub new_rate_limiter : (String → Option ℤ) → RateLimiting → Option Throttler
new_rate_limiter parse_duration cfg = elim (parse_duration cfg.window) [
  | none ↦ none
  | some w ↦ some (record { burst_size = cfg.burst; window = w })
]

-- The results of `takeToken`: the remaining tokens and the limit, or an error.
pub data Taken : Type 0 where
  tokens : ℤ → ℤ → Taken
  no_tokens : Taken

-- `val[1].(int64)` panics unless there is a second reply and it is an integer.
abbrev pub second_int : {W : Type 0} → ℤ → List Reply → Exec W Taken
second_int limit (_ ∷ int n ∷ _) = pure (tokens n limit)
second_int limit _ = panic

abbrev pub unavailable : List Event
unavailable =
    set "Content-Type" "application/json"
    ∷ write_header 503
    ∷ write "{\"msg\":\"service unavailable\"}"
    ∷ []

abbrev pub limit_exceeded : List Event
limit_exceeded =
    set "Content-Type" "application/json"
    ∷ write_header 429
    ∷ write "{\"msg\":\"rate limit exceeded\"}"
    ∷ []

abbrev pub limit_headers : ℤ → ℤ → List Event
limit_headers limit remaining =
    add "X-RateLimit" (itoa_ℤ limit) ∷ add "X-RateLimit-Remaining" (itoa_ℤ remaining) ∷ []

abbrev pub bucket_key : String → String
bucket_key user = "RL_BUCKET_" <> user

-- `resolve` is the text of the address that `net.ResolveTCPAddr` finds; where it finds none, the
-- source dereferences a nil pointer.
module _ {W : Type 0} (redis : Redis W) (resolve : String → Option String) (t : Throttler) where
  -- `identifyClient`; `none` is the panic.
  pub identify_client : Request → Option String
  unfolding get replace_all
  identify_client req =
      let auth = get "Authorization" req.header in
      if auth == "" then resolve req.remote_addr else some (replace_all " " "" auth)

  pub after_exec : ExecResult → Exec W Taken
  after_exec failed = pure no_tokens
  after_exec (replies vals) = second_int t.burst_size vals

  -- `takeToken`
  pub take_token : String → Exec W Taken
  unfolding after_exec
  take_token user =
      call (
        redis.transaction (
          set_ex_nx (bucket_key user) t.burst_size (redis.write_seconds t.window)
          ∷ decr (bucket_key user)
          ∷ []))
      >>= after_exec

  -- `if remaining < 0 { remaining = 0 }`
  abbrev pub at_least_zero : ℤ → ℤ
  at_least_zero n = if ltb_ℤ n (pos 0) then pos 0 else n

  -- What follows `takeToken`.
  pub throttle : Handler W → Request → Params → Taken → Exec W (List Event)
  throttle handler req params no_tokens = pure unavailable
  throttle handler req params (tokens n limit) =
      let remaining = at_least_zero n in
      let limited : Exec W (List Event) = pure (limit_headers limit remaining ++ limit_exceeded) in
      let forwarded : Exec W (List Event) =
        handler req params >>= λ events. pure (limit_headers limit remaining ++ events) in
      if leb_ℤ remaining (pos 0) then limited else forwarded

  pub throttle_client : Handler W → Request → Params → Option String → Exec W (List Event)
  throttle_client handler req params none = panic
  throttle_client handler req params (some user) = take_token user >>= throttle handler req params

  -- The function that `DecorateHandler` returns.
  pub decorate_handler : Handler W → Handler W
  unfolding throttle_client
  decorate_handler handler req params = throttle_client handler req params (identify_client req)
