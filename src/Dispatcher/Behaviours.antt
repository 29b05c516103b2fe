-- ===== src/Dispatcher/Behaviours.antt =====
-- dispatcher/behaviours.go and the interfaces of the packages cache, auth and ratelimit that it uses.
use servicegateway.Prelude.{String, not, List, [], ◌∷◌, ◌++◌, Option, if◌then◌else◌}
use servicegateway.Http.{Handler, Route}
use servicegateway.Config.{Application, Configuration, GlobalAuth}
use servicegateway.Cache.{Gcache}
use servicegateway.Cache
use servicegateway.Auth.Rest.{RestEnv}
use servicegateway.Auth.Rest
use servicegateway.Auth.Login.Routes.{Service}
use servicegateway.Auth.Login.Routes
use servicegateway.Ratelimit.{Redis, Throttler}
use servicegateway.Ratelimit

-- `CacheMiddleware`
pub record CacheMiddleware (W : Type 0) : Type 0 where
  pub decorate_safe : Handler W → Handler W
  pub decorate_unsafe : Handler W → Handler W

-- `AuthDecorator`, with the routes that `RegisterRoutes` adds.
pub record AuthDecorator (W : Type 0) : Type 0 where
  pub decorate : Handler W → String → Application → Configuration → Handler W
  pub routes : List (Route W)

-- `RateLimitingMiddleware`
pub record RateLimitingMiddleware (W : Type 0) : Type 0 where
  pub limit : Handler W → Handler W

-- The implementations.
abbrev pub cache_middleware : {W : Type 0} → Gcache W → CacheMiddleware W
cache_middleware c = record {
  decorate_safe = Cache.decorate_handler c;
  decorate_unsafe = Cache.decorate_unsafe_handler c;
}

unfoldable pub rest_decorator : {W : Type 0} → RestEnv W → Service W → GlobalAuth → AuthDecorator W
unfolding Routes.post_handler
rest_decorator env service cfg = record {
  decorate = Rest.decorate_handler env;
  routes = Routes.register_routes service cfg;
}

abbrev pub rate_limiter :
    {W : Type 0} → Redis W → (String → Option String) → Throttler → RateLimitingMiddleware W
rate_limiter redis resolve t = record { limit = Ratelimit.decorate_handler redis resolve t }

-- The implementations of `Behavior`.
pub data Behavior (W : Type 0) : Type 0 where
  caching_behaviour : CacheMiddleware W → Behavior W
  auth_behaviour : AuthDecorator W → Behavior W
  ratelimit_behaviour : RateLimitingMiddleware W → Behavior W

-- `Apply`: from a safe and an unsafe handler. None of the three returns an error.
unfoldable pub apply :
    {W : Type 0}
    → Behavior W
    → String
    → Application
    → Configuration
    → Handler W × Handler W
    → Handler W × Handler W
apply (caching_behaviour c) name app cfg (safe, unsafe) =
    if app.caching.enabled
    then (c.decorate_safe safe, if app.caching.auto_flush then c.decorate_unsafe unsafe else unsafe)
    else (safe, unsafe)
apply (auth_behaviour a) name app cfg (safe, unsafe) =
    if not app.auth.disable
    then (a.decorate safe name app cfg, a.decorate unsafe name app cfg)
    else (safe, unsafe)
apply (ratelimit_behaviour r) name app cfg (safe, unsafe) =
    if app.rate_limiting then (r.limit safe, r.limit unsafe) else (safe, unsafe)

-- The loop over the behaviours, the first one innermost.
unfoldable pub apply_all :
    {W : Type 0}
    → List (Behavior W)
    → String
    → Application
    → Configuration
    → Handler W × Handler W
    → Handler W × Handler W
unfolding apply
apply_all [] name app cfg hs = hs
apply_all (b ∷ bs) name app cfg hs = apply_all bs name app cfg (apply b name app cfg hs)

-- `AddBehaviour`
abbrev pub add_behaviour : {W : Type 0} → List (Behavior W) → Behavior W → List (Behavior W)
add_behaviour bs b = bs ++ b ∷ []

-- `AddRoutes`, which only the behaviour for authentication has.
abbrev pub add_routes : {W : Type 0} → Behavior W → List (Route W)
add_routes (caching_behaviour c) = []
add_routes (auth_behaviour a) = a.routes
add_routes (ratelimit_behaviour r) = []

-- The behaviours that `BuildNoIntegrationDispatcher` and `BuildConsulDispatcher` add.
abbrev pub build_behaviours :
    {W : Type 0}
    → CacheMiddleware W
    → AuthDecorator W
    → RateLimitingMiddleware W
    → List (Behavior W)
build_behaviours c a r =
    add_behaviour (add_behaviour (add_behaviour [] (caching_behaviour c)) (auth_behaviour a))
      (ratelimit_behaviour r)
