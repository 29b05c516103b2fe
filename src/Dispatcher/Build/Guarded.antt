-- ===== src/Dispatcher/Build/Guarded.antt =====
-- The routes of a gateway that has been built (package dispatcher).
use servicegateway.Prelude.{
  String, ◌≡◌, refl, subst, ◌⊎◌, inl, inr, List, [], ◌∷◌, ◌++◌, Option, some, ◌==◌, Option-cases,
}
use servicegateway.Prelude.Lists.{All, All-append, All-map, Some, Member, All-Member}
use servicegateway.Http.{Route}
use servicegateway.Config.{Application, Configuration, ProxyConfiguration, Startup}
use servicegateway.Ratelimit.{Throttler, new_rate_limiter}
use servicegateway.Dispatcher.Behaviours.{AuthDecorator}
use servicegateway.Dispatcher.Routes.{register_application}
use servicegateway.Dispatcher.Routes.Guards.{IsChained, register_application-IsChained}
use servicegateway.Dispatcher.Build.Results.{
  IfBuilt, and_then-IfBuilt, and_then-always, IfBuilt-map, or_fail-IfBuilt, or_fatal-IfBuilt,
  if-IfBuilt,
}
use servicegateway.Dispatcher.Build.{
  HttpLogger, Build, built, Gateway, BuildEnv, and_then, or_panic, or_fail, or_fatal, listeners_of,
  wrap_all, new_auth_decorator, dispatcher_for, register_each, initialize, finish, serve,
  register_and_serve, assemble, build_no_integration_dispatcher,
}

module _ {W Server : Type 0} (env : BuildEnv W Server) where
  module _ (cfg : Configuration) (proxy : ProxyConfiguration) (a : AuthDecorator W)
      (t : Throttler) where
    -- The route is one of an application's, with the handlers in their order.
    abbrev pub OfApplication : Route W → String × Application → Type 0
    OfApplication route (name, app) =
        IsChained (dispatcher_for env proxy a t) env.cache a (env.limiter t) name app cfg refl route

    register_each-IfBuilt :
        (apps : List (String × Application))
        → IfBuilt
            (λ routes. All (λ route. Some (OfApplication route) apps) routes)
            (register_each env (dispatcher_for env proxy a t) cfg apps)
    unfolding register_each
    register_each-IfBuilt [] = tt
    register_each-IfBuilt ((name, app) ∷ apps) =
        elim (Option-cases (register_application (dispatcher_for env proxy a t) name app cfg)) [
          | inl bad ↦ rw bad tt
          | inr (routes, good) ↦ rw good (
              and_then-IfBuilt (All (λ route. Some (OfApplication route) apps))
                (All (λ route. Some (OfApplication route) ((name, app) ∷ apps)))
                (register_each env (dispatcher_for env proxy a t) cfg apps)
                (λ others. built (routes ++ others)) (register_each-IfBuilt apps)
                (λ others rest.
                  All-append (λ route. Some (OfApplication route) ((name, app) ∷ apps)) routes
                    others
                    (All-map (λ route chained. inl chained) routes
                      (register_application-IsChained (dispatcher_for env proxy a t) env.cache a
                        (env.limiter t) name app cfg refl routes good))
                    (All-map (λ route some_app. inr some_app) others rest)))
        ]

    -- The route is one of an application's, or one for the log-in.
    abbrev pub IsKnown : List (String × Application) → Route W → Type 0
    IsKnown apps route = Some (OfApplication route) apps ⊎ Member route a.routes

    serve-IfBuilt :
        (loggers : List (HttpLogger W Server)) (apps : List (String × Application))
        (routes : List (Route W))
        → All (IsKnown apps) routes
        → IfBuilt (λ g. All (IsKnown apps) g.routes) (serve env loggers routes)
    serve-IfBuilt loggers apps routes known =
        and_then-always Known (or_panic (env.router routes)) (finish env loggers routes) (λ router.
          if-IfBuilt Known env.admin_logger (and_then (wrap_all env loggers router) (result router))
            (and_then-always Known (wrap_all env loggers router) (result router) (λ server. known)))
      where
        Known : Gateway W Server → Type 0
        Known g = All (IsKnown apps) g.routes

        result : Server → Server → Build (Gateway W Server)
        result router server =
            built (record { routes = routes; server = server; admin = env.admin_server })

    initialize-IsKnown :
        (apps : List (String × Application))
        → All (IsKnown apps) (initialize env (dispatcher_for env proxy a t).behaviors)
    unfolding initialize
    initialize-IsKnown apps =
        All-append (IsKnown apps) a.routes []
          (All-map (λ route m. inr m) a.routes (All-Member a.routes)) tt

    register_and_serve-IfBuilt :
        (loggers : List (HttpLogger W Server)) (apps : List (String × Application))
        → IfBuilt
            (λ g. All (IsKnown apps) g.routes)
            (register_and_serve env loggers cfg apps (dispatcher_for env proxy a t))
    unfolding register_and_serve
    register_and_serve-IfBuilt loggers apps =
        and_then-IfBuilt (All (λ route. Some (OfApplication route) apps))
          (λ g. All (IsKnown apps) g.routes)
          (register_each env (dispatcher_for env proxy a t) cfg apps)
          (λ routes.
            serve env loggers (routes ++ initialize env (dispatcher_for env proxy a t).behaviors))
          (register_each-IfBuilt apps)
          (λ routes all.
            serve-IfBuilt loggers apps
              (routes ++ initialize env (dispatcher_for env proxy a t).behaviors)
              (All-append (IsKnown apps) routes
                (initialize env (dispatcher_for env proxy a t).behaviors)
                (All-map (λ route m. inl m) routes all) (initialize-IsKnown apps)))

  -- A gateway for the configuration `local` and the applications `apps`: its authentication and its rate
  -- limiting are those of `local`, and every route is known.
  abbrev pub IsGuarded :
      List (HttpLogger W Server)
      → Configuration
      → Configuration
      → List (String × Application)
      → Gateway W Server
      → Type 0
  IsGuarded loggers cfg local apps g =
      (a : AuthDecorator W) × (t : Throttler) × (new_auth_decorator env local.authentication
          (listeners_of env loggers)
        ≡ some a)
      × (new_rate_limiter env.parse_duration local.rate_limiting ≡ some t)
      × All (IsKnown cfg local.proxy a t apps) g.routes

  assemble-IfBuilt :
      (loggers : List (HttpLogger W Server)) (cfg local : Configuration)
      (apps : List (String × Application))
      → IfBuilt (IsGuarded loggers cfg local apps) (assemble env loggers cfg local apps)
  unfolding assemble
  assemble-IfBuilt loggers cfg local apps =
      if-IfBuilt (IsGuarded loggers cfg local apps) (env.check_auth_handler local.authentication) _
        (and_then-IfBuilt (λ a. auth ≡ some a) (IsGuarded loggers cfg local apps) (or_fail auth) _
          (or_fail-IfBuilt auth)
          (λ a ea.
            and_then-IfBuilt (λ t. limiter ≡ some t) (IsGuarded loggers cfg local apps)
              (or_fatal limiter) _ (or_fatal-IfBuilt limiter)
              (λ t et.
                IfBuilt-map (λ g. All (IsKnown cfg local.proxy a t apps) g.routes)
                  (IsGuarded loggers cfg local apps) (λ g known. (a, t, ea, et, known))
                  (register_and_serve env loggers cfg apps (dispatcher_for env local.proxy a t))
                  (register_and_serve-IfBuilt cfg local.proxy a t loggers apps))))
    where
      auth : Option (AuthDecorator W)
      auth = new_auth_decorator env local.authentication (listeners_of env loggers)

      limiter : Option Throttler
      limiter = new_rate_limiter env.parse_duration local.rate_limiting

  -- The same of `BuildNoIntegrationDispatcher`, for the applications that are configured.
  pub build_no_integration_dispatcher-IsGuarded :
      (startup : Startup) (cfg : Configuration) (loggers : List (HttpLogger W Server))
      (g : Gateway W Server)
      → build_no_integration_dispatcher env startup cfg loggers ≡ built g
      → IsGuarded loggers cfg cfg cfg.applications g
  unfolding build_no_integration_dispatcher
  build_no_integration_dispatcher-IsGuarded startup cfg loggers g done =
      subst (IfBuilt (IsGuarded loggers cfg cfg cfg.applications)) done (
        if-IfBuilt (IsGuarded loggers cfg cfg cfg.applications) (startup.dispatching_mode == "path")
          _ (assemble-IfBuilt loggers cfg cfg cfg.applications))
