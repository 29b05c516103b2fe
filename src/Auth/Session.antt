-- ===== src/Auth/Session.antt =====
-- A log-in (auth/rest.go, RegisterRoutes) and a request with its token, over the store of auth/tokenstore.go
-- and the reader of auth/reader.go.
mod Tests
use servicegateway.Prelude.{String, ◌≡◌, refl, ◌∙◌, ap, sym, true, false, List, Option, some, ◌==◌}
use servicegateway.Prelude.Int.{ℤ}
use servicegateway.Effects.{returned}
use servicegateway.Http.{Request, Params, Handler, Event}
use servicegateway.Http.Header.{get}
use servicegateway.Http.Recorder.{recorded, sent}
use servicegateway.Config.{GlobalAuth, Application, Configuration}
use servicegateway.Auth.Types.{JwtResponse, ok}
use servicegateway.Auth.TokenStore.{TokenStore, LocalItem, cached, Lru, cache_decorator}
use servicegateway.Auth.TokenStore.LocalCache.{IsLru, view-add_token, decorated_get_token-hit}
use servicegateway.Auth.Reader.{token_from_request}
use servicegateway.Auth.Reader.Sources.{token_string-written}
use servicegateway.Auth.Writer.{
  authorization_token_writer, header_name, header_value, write_token_to_request,
}
use servicegateway.Auth.Handler.{HandlerEnv, accepted, authenticate_token, is_authenticated}
use servicegateway.Auth.Rest.{RestEnv, writer_of, is_provider, is_allowed, notify}
use servicegateway.Auth.Rest.Access.{decorated, delivered}
use servicegateway.Auth.Login.{Object, granted}
use servicegateway.Auth.Login.Routes.{Service, post_handler, after_login}
use servicegateway.Auth.Login.Replies.{response-sent}

-- A request with a token, and that request as a backend gets it.
abbrev pub with_token : String → Request → Request
with_token token req = write_token_to_request authorization_token_writer token req

abbrev pub passed_on : Application → String → JwtResponse → Request → Request
passed_on app token r req =
    write_token_to_request (writer_of app.auth.writer) r.jwt (with_token token req)

module _ {W : Type 0} (service : Service W) (cfg : GlobalAuth) where
  -- A log-in that is granted, stored and encoded is answered by its token.
  granted-answered :
      (req : Request) (params : Params) (username password : String) (body : Object)
      (r : JwtResponse) (token text : String) (exp : ℤ) (w w₁ w₂ : W)
      → service.unmarshal_request req.body ≡ some (username, password)
      → service.unmarshal_map req.body ≡ some body
      → service.authenticate username password body w ≡ (returned (granted r), w₁)
      → service.add_token r w₁ ≡ (returned (ok (token, exp)), w₂)
      → service.marshal_response token (service.format_time exp) ≡ some text
      → (events : List Event) × (post_handler service cfg req params w ≡ (returned events, w₂))
        × ((sent events).code ≡ 200)
        × ((sent events).body ≡ text)
  unfolding post_handler after_login
  granted-answered req params username password body r token text exp w w₁ w₂ read decoded login
        stored answer =
      (
        _,
        rw (read, decoded, login, stored, answer) refl,
        (response-sent service cfg text).0,
        (response-sent service cfg text).1,
      )

module _ {W : Type 0} (lru : Lru W) (view : String → W → Option LocalItem) (wrapped : TokenStore W)
    (laws : IsLru lru view) (env : HandlerEnv W)
    (reads : env.token_from_request
      ≡ token_from_request (cache_decorator lru wrapped).get_token) where
  -- A request with a token that the local cache holds is judged by its response.
  is_authenticated-written :
      (token : String) (r : JwtResponse) (exp : ℤ) (req : Request) (w : W)
      → view token w ≡ some (cached (record { token = r; exp = exp }))
      → is_authenticated env (write_token_to_request authorization_token_writer token req) w
        ≡ authenticate_token env (ok r) (lru.get token w).1
  unfolding is_authenticated
  is_authenticated-written token r exp req w found =
      let hit =
        decorated_get_token-hit lru wrapped view laws token (record { token = r; exp = exp }) w
          found in
      rw (reads, token_string-written, hit)

module _ {W : Type 0} (lru : Lru W) (view : String → W → Option LocalItem) (wrapped : TokenStore W)
    (laws : IsLru lru view) (service : Service W) (env : HandlerEnv W) (rest : RestEnv W)
    (stores : service.add_token ≡ (cache_decorator lru wrapped).add_token)
    (reads : env.token_from_request ≡ token_from_request (cache_decorator lru wrapped).get_token)
    (checks : rest.is_authenticated ≡ is_authenticated env) (cfg : Configuration)
    (app_name : String) (app : Application) (orig : Handler W)
    (client : is_provider cfg app_name ≡ false) where
  -- The routes, the check of tokens and the decorator share one store with a local cache. A log-in is granted with
  -- the response `r`, the store takes it, and its answer can be encoded. Then the client gets 200 and the answer that
  -- names the token. It sends this token in a later request to an application that is not the provider and that `r`
  -- allows, while the local cache still holds what it held after the log-in and the JWT of `r` is accepted; the
  -- backend's handler returns. Then the backend has got the JWT of `r`, in the header that the application is
  -- configured with, and the client gets the status and the body that the handler recorded.
  pub log_in_then_request :
      (login req : Request) (params p : Params) (username password : String) (body : Object)
      (r : JwtResponse) (token text : String) (exp : ℤ) (events : List Event)
      (w w₁ w₂ later w₃ w₄ : W)
      → service.unmarshal_request login.body ≡ some (username, password)
      → service.unmarshal_map login.body ≡ some body
      → service.authenticate username password body w ≡ (returned (granted r), w₁)
      → service.add_token r w₁ ≡ (returned (ok (token, exp)), w₂)
      → service.marshal_response token (service.format_time exp) ≡ some text
      → view token later ≡ view token w₂
      → (req.method == "OPTIONS") ≡ false
      → authenticate_token env (ok r) (lru.get token later).1 ≡ (returned (accepted r), w₃)
      → is_allowed r app_name ≡ true
      → orig
          (passed_on app token r req)
          p
          (notify rest rest.listeners (passed_on app token r req) r.jwt w₃)
        ≡ (returned events, w₄)
      → ((answer : List Event) × (post_handler service cfg.authentication login params w
            ≡ (returned answer, w₂))
          × ((sent answer).code ≡ 200)
          × ((sent answer).body ≡ text))
        × (get (header_name (writer_of app.auth.writer)) (passed_on app token r req).header
            ≡ header_value (writer_of app.auth.writer) r.jwt)
        × (sends : List Event) × (decorated rest orig app_name app cfg
              (with_token token req)
              p
              later
            ≡ (returned sends, w₄))
        × ((sent sends).code ≡ (recorded rest.rewriting.detect events).code)
        × ((sent sends).body ≡ (recorded rest.rewriting.detect events).body)
  unfolding write_token_to_request
  log_in_then_request login req params p username password body r token text exp events w w₁ w₂
        later w₃ w₄ read decoded login_ok stored answer kept method accepts listed ran =
      let added = ap (λ f. f r w₁) (sym stores) ∙ stored in
      let found = kept ∙ view-add_token lru wrapped view laws token r exp w₁ w₂ added in
      let judged =
        ap (λ f. f (with_token token req) later) checks
        ∙ is_authenticated-written lru view wrapped laws env reads token r exp req later found
        ∙ accepts in
      let (answers, posted, good, names) =
        granted-answered service cfg.authentication login params username password body r token text
          exp w w₁ w₂ read decoded login_ok stored answer in
      let (carries, sends, sent_so, code, written) =
        delivered rest orig app_name app cfg (with_token token req) p later r events w₃ w₄ method
          client judged listed ran in
      ((answers, posted, good, names), carries, sends, sent_so, code, written)
