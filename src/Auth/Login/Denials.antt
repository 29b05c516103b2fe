-- ===== src/Auth/Login/Denials.antt =====
-- What the client of a log-in that is not granted gets from `RegisterRoutes` (auth/rest.go).
use servicegateway.Prelude.{ℕ, String, ◌≡◌, refl, List, some}
use servicegateway.Effects.{returned}
use servicegateway.Http.{Request, Params, Event}
use servicegateway.Http.Recorder.{sent}
use servicegateway.Config.{GlobalAuth}
use servicegateway.Auth.Login.{
  Object, LoginError, invalid_credentials, incomplete, bad_content_type, failure, denied,
}
use servicegateway.Auth.Login.Replies.{error-sent, incomplete-sent, forbidden-sent}
use servicegateway.Auth.Login.Routes.{Service, after_login, post_handler}

module _ {W : Type 0} (service : Service W) (cfg : GlobalAuth) where
  -- The status for an outcome of `Authenticate` that is not granted.
  abbrev pub status_of : LoginError → ℕ
  status_of invalid_credentials = 403
  status_of (incomplete more) = 202
  status_of (bad_content_type text) = 500
  status_of (failure text) = 500

  -- The body can be decoded, and `Authenticate` does not grant the log-in. Then no token is added, and
  -- the client gets 403 for bad credentials, 202 if another factor is needed, and 500 otherwise.
  pub post_handler-denied :
      (req : Request) (params : Params) (username password : String) (body : Object)
      (e : LoginError) (w w' : W)
      → service.unmarshal_request req.body ≡ some (username, password)
      → service.unmarshal_map req.body ≡ some body
      → service.authenticate username password body w ≡ (returned (denied e), w')
      → (events : List Event) × (post_handler service cfg req params w ≡ (returned events, w'))
        × ((sent events).code ≡ status_of e)
  unfolding post_handler after_login
  post_handler-denied req params username password body invalid_credentials w w' read decoded
        refused =
      (
        _,
        rw (read, decoded, refused) refl,
        forbidden-sent service cfg "{\"msg\":\"invalid credentials\"}",
      )
  post_handler-denied req params username password body (incomplete more) w w' read decoded
        refused =
      (_, rw (read, decoded, refused) refl, incomplete-sent service cfg (service.marshal_map more))
  post_handler-denied req params username password body (bad_content_type t) w w' read decoded
        refused =
      (_, rw (read, decoded, refused) refl, error-sent service cfg)
  post_handler-denied req params username password body (failure t) w w' read decoded refused =
      (_, rw (read, decoded, refused) refl, error-sent service cfg)
