-- ===== src/Dispatcher/Routes/Guards.antt =====
-- What stands between a client and a backend on each route.
use servicegateway.Prelude.{
  String, ◌≡◌, refl, ap, subst, inl, inr, Bool-cases, Bool, true, false, not, List, [], ◌∷◌, Option,
  none, some, ◌==◌, if◌then◌else◌,
}
use servicegateway.Prelude.Lists.{All, All-append}
use servicegateway.Http.{Route, Handler}
use servicegateway.Config.{Application, Configuration}
use servicegateway.Proxy.Rewriter.{Mapping, new_host_rewriter}
use servicegateway.Proxy.Rewriter.Decorate.{decorate}
use servicegateway.Dispatcher.Behaviours.{
  CacheMiddleware, AuthDecorator, RateLimitingMiddleware, apply_all, build_behaviours,
}
use servicegateway.Dispatcher.Routes.{
  Dispatcher, routes_of, options_handler, methods, register, register_all, register_application,
}

pair_if :
    {A B : Type 0} (b : Bool) (x u : A) (y v : B)
    → ◌≡◌ {A = A × B} (if b then (x, y) else (u, v)) (if b then x else u, if b then y else v)
pair_if true x u y v = refl
pair_if false x u y v = refl

if_not : {A : Type 0} (b : Bool) (x y : A) → (if not b then x else y) ≡ (if b then y else x)
if_not true x y = refl
if_not false x y = refl

if_false : {A : Type 0} (b : Bool) (x y : A) → b ≡ false → (if b then x else y) ≡ y
if_false b x y e = rw e

module _ {W : Type 0} (d : Dispatcher W) (c : CacheMiddleware W) (a : AuthDecorator W)
    (r : RateLimitingMiddleware W) (name : String) (app : Application) (cfg : Configuration)
    (built : d.behaviors ≡ build_behaviours c a r) where
  -- Rate limiting outermost, if the application asks for it.
  abbrev limited : Handler W → Handler W
  limited h = if app.rate_limiting then r.limit h else h

  -- Then the check of tokens, unless it is disabled.
  abbrev guarded : Handler W → Handler W
  guarded h = if app.auth.disable then h else a.decorate h name app cfg

  -- Innermost the cache, for safe methods.
  abbrev cached : Handler W → Handler W
  cached h = if app.caching.enabled then c.decorate_safe h else h

  -- And its flush, for the others.
  abbrev purged : Handler W → Handler W
  purged h =
      if app.caching.enabled then if app.caching.auto_flush then c.decorate_unsafe h else h else h

  -- The handler that a method gets over the handler for the backend.
  abbrev pub chain : String → Handler W → Handler W
  chain method h =
      if method == "GET"
      then limited (guarded (cached h))
      else if method == "HEAD"
      then limited (guarded (cached h))
      else if method == "OPTIONS"
      then options_handler d (limited (guarded (cached h)))
      else limited (guarded (purged h))

  -- The route's handler is the chain of its method over the rewriter around a handler.
  abbrev pub IsChained : Route W → Type 0
  IsChained route =
      (mappings : List Mapping) × (h : Handler W) × (route.handler
        ≡ chain route.method (decorate d.urls d.json mappings d.detect h))

  limited-guarded :
      (h : Handler W)
      → app.auth.disable ≡ false
      → limited (guarded h) ≡ limited (a.decorate h name app cfg)
  limited-guarded h enabled =
      ap limited (if_false app.auth.disable h (a.decorate h name app cfg) enabled)

  -- Behind the limiter and the check of tokens, for every method but `OPTIONS`, if the application does not disable it.
  pub chain-guarded :
      (method : String) (h : Handler W)
      → (method == "OPTIONS") ≡ false
      → app.auth.disable ≡ false
      → (inner : Handler W) × (chain method h ≡ (
          if app.rate_limiting
          then r.limit (a.decorate inner name app cfg)
          else a.decorate inner name app cfg))
  chain-guarded method h other enabled = elim (Bool-cases (method == "GET")) [
    | inl e ↦ (cached h, rw e (limited-guarded (cached h) enabled))
    | inr e ↦ elim (Bool-cases (method == "HEAD")) [
      | inl e' ↦ (cached h, rw (e, e') (limited-guarded (cached h) enabled))
      | inr e' ↦ (purged h, rw (e, e', other) (limited-guarded (purged h) enabled))
    ]
  ]

  applied :
      (h : Handler W)
      → apply_all d.behaviors name app cfg (h, h)
        ≡ (limited (guarded (cached h)), limited (guarded (purged h)))
  unfolding apply_all
  applied h = rw (built, pair_if, if_not, pair_if, pair_if) refl

  methods-IsChained :
      (mappings : List Mapping) (path : String) (h : Handler W)
      → All IsChained (
          methods d path (
            apply_all d.behaviors name app cfg (
              decorate d.urls d.json mappings d.detect h,
              decorate d.urls d.json mappings d.detect h,
            )))
  unfolding methods
  methods-IsChained mappings path h = rw applied (
    (mappings, h, refl),
    (
      (mappings, h, refl),
      (
        (mappings, h, refl),
        (
          (mappings, h, refl),
          ((mappings, h, refl), ((mappings, h, refl), ((mappings, h, refl), tt))),
        ),
      ),
    ),
  )

  register-IsChained :
      (mappings : List Mapping) (rs : List (String × Handler W))
      → All IsChained (register d mappings name app cfg rs)
  unfolding register
  register-IsChained mappings [] = tt
  register-IsChained mappings ((path, handler) ∷ rs) =
      let decorated : Handler W = decorate d.urls d.json mappings d.detect handler in
      All-append IsChained
        (methods d path (apply_all d.behaviors name app cfg (decorated, decorated)))
        (register d mappings name app cfg rs) (methods-IsChained mappings path handler)
        (register-IsChained mappings rs)

  abbrev Chained : Option (List (Route W)) → Type 0
  Chained none = Unit
  Chained (some routes) = All IsChained routes

  register_all-Chained :
      (rs : List (String × Handler W)) (o : Option (List Mapping))
      → Chained (register_all d name app cfg rs o)
  unfolding register_all
  register_all-Chained rs none = tt
  register_all-Chained rs (some mappings) = register-IsChained mappings rs

  register_application-Chained : Chained (register_application d name app cfg)
  unfolding register_application
  register_application-Chained =
      register_all-Chained (routes_of d app).0
        (new_host_rewriter d.patterns.compile (routes_of d app).1)

  -- The behaviours are those that the gateway is built with. Then for every route that an application
  -- registers there is a handler around which stand, from inside to outside, the rewriter; the
  -- cache for `GET`, `HEAD` and `OPTIONS`, or its flush for the other methods; the check of tokens;
  -- rate limiting; and for `OPTIONS` its own handler: each as it is configured.
  pub register_application-IsChained :
      (routes : List (Route W))
      → register_application d name app cfg ≡ some routes
      → All IsChained routes
  register_application-IsChained routes registered =
      subst Chained registered register_application-Chained
