-- ===== src/Auth/Login/Plain.antt =====
-- What `Authenticate` (auth/handler.go) sends if no hook is configured.
use servicegateway.Prelude.{
  String, ◌<>◌, ◌≡◌, refl, ◌∙◌, ap, true, false, [], ◌∷◌, some, arith, ◌==◌, eq_iff, if◌then◌else◌,
}
use servicegateway.Effects.{returned}
use servicegateway.Http.{lookup}
use servicegateway.Config.{ProviderAuthConfig}
use servicegateway.Proxy.Json.{Json, str}
use servicegateway.Proxy.Upstream.{Response}
use servicegateway.Auth.Login.{
  Object, LoginEnv, put_value, run_hook, read_response, login_request, send_login, with_parameters,
  authenticate,
}
use servicegateway.Auth.Login.Provider.{credentials}

lookup-put_value :
    (j k : String) (v : Json) (m : Object)
    → lookup j (put_value k v m) ≡ (if k == j then some v else lookup j m)
unfolding lookup put_value
lookup-put_value j k v [] = refl
lookup-put_value j k v ((i, u) ∷ m) =
    ground (arith, lookup-put_value j k v m, eq_iff i k, eq_iff i j, eq_iff k j)

module _ {W : Type 0} (env : LoginEnv W) (username password : String) (properties : Object) where
  -- No hook is configured, the provider's parameters can be copied, and encoding/json and net/http
  -- take the object and the URL. Then the provider is asked once, at `/authenticate`, and its answer
  -- alone decides. The object holds the credentials env username password properties under `username` and `password`, and under every
  -- other key what the parameters hold.
  pub authenticate-send :
      (cfg : ProviderAuthConfig) (parameters : Object) (body key : String) (res : Response)
      (w w' : W)
      → env.hook ≡ false
      → env.copy_parameters cfg.parameters ≡ some parameters
      → env.marshal_map (credentials env username password properties parameters) ≡ some body
      → env.valid_url (cfg.url <> "/authenticate") ≡ true
      → env.send
          (login_request env username password properties (cfg.url <> "/authenticate") body)
          w
        ≡ (some res, w')
      → (authenticate env username password properties cfg w
          ≡ (returned (read_response env username password properties [] res), w'))
        × (lookup key (credentials env username password properties parameters) ≡ (
            if "password" == key
            then some (str password)
            else if "username" == key
            then some (str username)
            else lookup key parameters))
  unfolding authenticate with_parameters run_hook send_login login_request
  authenticate-send cfg parameters body key res w w' plain copied printed valid asked = (
    rw (copied, plain, printed, valid, asked) refl,
    lookup-put_value key "password" (str password) (put_value "username" (str username) parameters)
        ∙ ap (λ o. if "password" == key then some (str password) else o)
            (lookup-put_value key "username" (str username) parameters),
  )
