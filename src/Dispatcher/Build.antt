-- ===== src/Dispatcher/Build.antt =====
-- `BuildNoIntegrationDispatcher` and `BuildConsulDispatcher` of package dispatcher, and what they call of
-- its sister packages. The router of httprouter is a parameter, as are servers and loggers.
pub mod Results
pub mod Guarded
pub mod Protected
mod Tests
use servicegateway.Prelude.{
  String, Bool, List, [], ◌∷◌, ◌++◌, Option, none, some, ◌==◌, if◌then◌else◌,
}
use servicegateway.Prelude.Int.{ℤ}
use servicegateway.Http.{Request, Route}
use servicegateway.Config.{Application, Configuration, GlobalAuth, ProxyConfiguration, Startup}
use servicegateway.Proxy.Json.{JsonLib}
use servicegateway.Proxy.Rewriter.{UrlLib}
use servicegateway.Proxy.Upstream.{Client}
use servicegateway.Ratelimit.{Throttler, new_rate_limiter}
use servicegateway.Dispatcher.Behaviours.{
  CacheMiddleware, AuthDecorator, RateLimitingMiddleware, Behavior, add_routes, build_behaviours,
}
use servicegateway.Dispatcher.Routes.{Patterns, Dispatcher, register_application}
use servicegateway.Dispatcher.Consul.{ConfigJson, Loaded, load}

-- `AuthRequestListener`
abbrev pub Listener : Type 0 → Type 0
Listener W = Request → String → W → W

-- `HttpLogger`; `listener` is the logger itself, if it is an `AuthRequestListener`.
pub record HttpLogger (W Server : Type 0) : Type 0 where
  pub listener : Option (Listener W)
  pub wrap : Server → Option Server

-- How a build ends: with a result, with an error, with `logger.Fatalf`, or with a panic.
pub data Build (A : Type 0) : Type 0 where
  built : A → Build A
  failed : Build A
  fatal : Build A
  panicking : Build A

-- The results of a build: the handler for requests and that of the admin API, and the routes behind the
-- first.
pub record Gateway (W Server : Type 0) : Type 0 where
  pub routes : List (Route W)
  pub server : Server
  pub admin : Server

-- What a build gets and calls. `check_auth_handler` says whether `NewAuthenticationHandler` succeeds,
-- `rest_auth` is `NewRestAuthDecorator` with the listeners that are added later, `router` is the router with
-- its routes, or a panic for routes in conflict, and `admin_logger` says whether `logging.GetLogger` succeeds.
pub record BuildEnv (W Server : Type 0) : Type 1 where
  pub client : Client W
  pub urls : UrlLib
  pub json : JsonLib
  pub patterns : Patterns
  pub detect : String → String
  pub check_auth_handler : GlobalAuth → Bool
  pub rest_auth : GlobalAuth → List (Listener W) → AuthDecorator W
  pub cache : CacheMiddleware W
  pub parse_duration : String → Option ℤ
  pub limiter : Throttler → RateLimitingMiddleware W
  pub router : List (Route W) → Option Server
  pub admin_logger : Bool
  pub admin_server : Server

abbrev pub and_then : {A B : Type 0} → Build A → (A → Build B) → Build B
and_then (built a) f = f a
and_then failed f = failed
and_then fatal f = fatal
and_then panicking f = panicking

abbrev pub or_panic : {A : Type 0} → Option A → Build A
or_panic none = panicking
or_panic (some a) = built a

abbrev pub or_fail : {A : Type 0} → Option A → Build A
or_fail none = failed
or_fail (some a) = built a

abbrev pub or_fatal : {A : Type 0} → Option A → Build A
or_fatal none = fatal
or_fatal (some a) = built a

module _ {W Server : Type 0} (env : BuildEnv W Server) where
  abbrev pub listeners_of : List (HttpLogger W Server) → List (Listener W)
  listeners_of [] = []
  listeners_of (l ∷ ls) = elim l.listener [
    | none ↦ listeners_of ls
    | some listener ↦ listener ∷ listeners_of ls
  ]

  -- The loop over the loggers.
  abbrev pub wrap_all : List (HttpLogger W Server) → Server → Build Server
  wrap_all [] server = built server
  wrap_all (l ∷ ls) server = and_then (or_fail (l.wrap server)) (wrap_all ls)

  -- `NewAuthDecorator`
  abbrev pub new_auth_decorator : GlobalAuth → List (Listener W) → Option (AuthDecorator W)
  new_auth_decorator cfg listeners =
      if cfg.mode == "rest" then some (env.rest_auth cfg listeners) else none

  -- The dispatcher with its three behaviours.
  abbrev pub dispatcher_for : ProxyConfiguration → AuthDecorator W → Throttler → Dispatcher W
  dispatcher_for proxy a t = record {
    client = env.client;
    urls = env.urls;
    json = env.json;
    patterns = env.patterns;
    detect = env.detect;
    proxy = proxy;
    behaviors = build_behaviours env.cache a (env.limiter t);
  }

  -- A loop over applications.
  unfoldable pub register_each :
      Dispatcher W → Configuration → List (String × Application) → Build (List (Route W))
  unfolding register_application
  register_each d cfg [] = built []
  register_each d cfg ((name, app) ∷ apps) =
      let rest = register_each d cfg apps in
      and_then (or_panic (register_application d name app cfg))
        (λ routes. and_then rest (λ others. built (routes ++ others)))

  -- `Initialize`
  unfoldable pub initialize : List (Behavior W) → List (Route W)
  initialize [] = []
  initialize (b ∷ bs) = add_routes b ++ initialize bs

  -- The end of a build: the admin API and the loggers.
  abbrev pub finish :
      List (HttpLogger W Server) → List (Route W) → Server → Build (Gateway W Server)
  finish loggers routes router =
      if env.admin_logger
      then and_then (wrap_all loggers router)
          (λ server. built (record { routes = routes; server = server; admin = env.admin_server }))
      else failed

  abbrev pub serve : List (HttpLogger W Server) → List (Route W) → Build (Gateway W Server)
  serve loggers routes = and_then (or_panic (env.router routes)) (finish loggers routes)

  abbrev pub register_and_serve :
      List (HttpLogger W Server)
      → Configuration
      → List (String × Application)
      → Dispatcher W
      → Build (Gateway W Server)
  unfolding register_each initialize
  register_and_serve loggers cfg apps d =
      and_then (register_each d cfg apps)
        (λ routes. serve loggers (routes ++ initialize d.behaviors))

  -- What both builds do once the configuration `local` and the applications are known.
  unfoldable pub assemble :
      List (HttpLogger W Server)
      → Configuration
      → Configuration
      → List (String × Application)
      → Build (Gateway W Server)
  unfolding register_each initialize
  assemble loggers cfg local apps =
      if env.check_auth_handler local.authentication
      then and_then (or_fail (new_auth_decorator local.authentication (listeners_of loggers))) (λ a.
        and_then (or_fatal (new_rate_limiter env.parse_duration local.rate_limiting))
          (λ t. register_and_serve loggers cfg apps (dispatcher_for local.proxy a t)))
      else failed

  -- `BuildNoIntegrationDispatcher`
  unfoldable pub build_no_integration_dispatcher :
      Startup → Configuration → List (HttpLogger W Server) → Build (Gateway W Server)
  unfolding assemble
  build_no_integration_dispatcher startup cfg loggers =
      if startup.dispatching_mode == "path"
      then assemble loggers cfg cfg cfg.applications
      else failed

  abbrev pub assemble_loaded :
      Configuration → List (HttpLogger W Server) → Loaded → Build (Gateway W Server)
  unfolding assemble
  assemble_loaded cfg loggers l =
      assemble loggers cfg (record cfg { rate_limiting = l.rate_limiting })
        (l.applications ++ cfg.applications)

  -- `BuildConsulDispatcher`, with the result of Consul's `List`.
  unfoldable pub build_consul_dispatcher :
      ConfigJson
      → Startup
      → Configuration
      → Option (List (String × String))
      → List (HttpLogger W Server)
      → Build (Gateway W Server)
  unfolding assemble load
  build_consul_dispatcher json startup cfg pairs loggers =
      if startup.dispatching_mode == "path"
      then and_then (or_fail pairs) (λ kvs.
        and_then
          (or_fail (
            load json startup kvs
              (record { rate_limiting = cfg.rate_limiting; applications = [] })))
          (assemble_loaded cfg loggers))
      else failed
