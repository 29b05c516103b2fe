-- ===== src/Dispatcher/Build/Protected.antt =====
-- Which requests reach a backend through a gateway that has been built (package dispatcher).
use servicegateway.Prelude.{ℕ, String, ◌⊎◌, ◌≡◌, true, List, Option}
use servicegateway.Prelude.Int.{ℤ}
use servicegateway.Http.{Request, Params, Handler, Route}
use servicegateway.Config.{Application, Configuration, GlobalAuth}
use servicegateway.Ratelimit.{Redis, Command, Throttler}
use servicegateway.Auth.Handler.{ExpItem, HandlerEnv, is_authenticated}
use servicegateway.Auth.Handler.Expiry.{IsSoundEnv}
use servicegateway.Auth.Rest.{RestEnv, is_provider}
use servicegateway.Auth.Login.Routes.{Service}
use servicegateway.Dispatcher.Behaviours.{rest_decorator, rate_limiter}
use servicegateway.Dispatcher.Access.{Checked}
use servicegateway.Dispatcher.Build.{HttpLogger, BuildEnv, Listener, listeners_of}
use servicegateway.Dispatcher.Build.Guarded.{OfApplication}

module _ {W Server : Type 0} (build_env : BuildEnv W Server) (redis : Redis W)
    (resolve : String → Option String) (rest : RestEnv W) (service : Service W)
    (Signed : String → ℤ → Type 0) (clock : W → ℕ) (cfg : Configuration)
    (loggers : List (HttpLogger W Server)) (req : Request) (p : Params) (w : W) where
  -- The decorator's environment, once the loggers listen.
  abbrev pub listening : RestEnv W
  listening = record rest { listeners = listeners_of build_env loggers }

  -- The route is one of this application's, and its handler lets a request through for a token only, unless this
  -- application does not ask for one or hands them out.
  abbrev pub IsProtected : Throttler → Route W → String × Application → Type 0
  IsProtected t route (name, app) =
      OfApplication build_env cfg cfg.proxy (rest_decorator listening service cfg.authentication) t
        route (name, app)
      × ((app.auth.disable ≡ true)
          ⊎ ((is_provider cfg name ≡ true)
              ⊎ ((inner : Handler W) × Checked redis resolve t listening clock Signed name app inner
                    req p w (route.handler req p w))))

module _ {W Server : Type 0} (build_env : BuildEnv W Server) (redis : Redis W)
    (resolve : String → Option String) (rest : RestEnv W) (service : Service W)
    (handler_env : HandlerEnv W) (view : String → W → Option ExpItem) (Signed : String → ℤ → Type 0)
    (clock : W → ℕ) (good : IsSoundEnv handler_env view Signed clock)
    (uses : rest.is_authenticated ≡ is_authenticated handler_env)
    (apart : (j : String) (commands : List Command) (w : W)
      → view j (redis.transaction commands w).1 ≡ view j w)
    (decorators : (auth : GlobalAuth) (listeners : List (Listener W))
      → build_env.rest_auth auth listeners
        ≡ rest_decorator (record rest { listeners = listeners }) service auth)
    (limiters : (t : Throttler) → build_env.limiter t ≡ rate_limiter redis resolve t)
    (cfg : Configuration) (loggers : List (HttpLogger W Server)) (req : Request) (p : Params)
    (w : W) where
  abbrev attached : RestEnv W
  attached = listening build_env redis resolve rest service Signed clock cfg loggers req p w

  abbrev Guards : Throttler → Route W → String × Application → Type 0
  Guards = IsProtected build_env redis resolve rest service Signed clock cfg loggers req p w
