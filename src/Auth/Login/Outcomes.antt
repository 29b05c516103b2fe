-- ===== src/Auth/Login/Outcomes.antt =====
-- What the client of a log-in gets from `RegisterRoutes` (auth/rest.go).
use servicegateway.Prelude.{
  String, ◌≡◌, refl, sym, ◌∙◌, ap, subst, inl, inr, List, ◌++◌, Option, none, some, arith,
}
use servicegateway.Prelude.Int.{ℤ}
use servicegateway.Effects.{Outcome, returned, panicked, pure, continue, Outcome-cases}
use servicegateway.Http.{Request, Params, Event}
use servicegateway.Http.Recorder.{sent}
use servicegateway.Config.{GlobalAuth}
use servicegateway.Auth.Types.{JwtResponse, Result, ok, err}
use servicegateway.Auth.Rest.{error_events}
use servicegateway.Auth.Login.{
  Object, LoginError, invalid_credentials, incomplete, bad_content_type, failure, Login, granted,
  denied, LoginEnv, authenticate,
}
use servicegateway.Auth.Login.Provider.{AskedFor, authenticate-AskedFor}
use servicegateway.Auth.Login.Replies.{error-sent, incomplete-sent, forbidden-sent, response-sent}
use servicegateway.Auth.Login.Routes.{
  Service, response_events, after_add, after_login, with_body, cors_events, post_handler,
}

module _ {W : Type 0} (service : Service W) (cfg : GlobalAuth) where
  -- The log-in of the request was granted, its token was added, and the answer `text` names the token.
  abbrev pub LoggedIn : Request → W → W → String → Type 0
  LoggedIn req start w' text =
      (username : String) × (password : String) × (body : Object) × (r : JwtResponse) × (w₁ : W)
      × (token : String) × (exp : ℤ) × (service.unmarshal_request req.body
          ≡ some (username, password))
      × (service.unmarshal_map req.body ≡ some body)
      × (service.authenticate username password body start ≡ (returned (granted r), w₁))
      × (service.add_token r w₁ ≡ (returned (ok (token, exp)), w'))
      × (service.marshal_response token (service.format_time exp) ≡ some text)

  -- What a handler's events say about the log-in: an answer with status 200 is that of a log-in.
  abbrev pub Honest : Request → W → W → List Event → Type 0
  Honest req start w' events =
      (sent (cors_events service cfg ++ events)).code ≡ 200
      → LoggedIn req start w' (sent (cors_events service cfg ++ events)).body

  abbrev pub IfHonest : Request → W → Outcome (List Event) × W → Type 0
  IfHonest req start (returned events, w') = Honest req start w' events
  IfHonest req start (panicked, w') = Unit

  module _ (req : Request) (start : W) where
    error-Honest : (w' : W) → Honest req start w' (error_events 500)
    error-Honest w' good = absurd (ground (arith, good, error-sent service cfg))

    denied-Honest :
        (e : LoginError) (w : W) → IfHonest req start (after_login service cfg (denied e) w)
    unfolding after_login
    denied-Honest invalid_credentials w = λ good.
        absurd
          (ground (arith, good, forbidden-sent service cfg "{\"msg\":\"invalid credentials\"}"))
    denied-Honest (incomplete more) w = λ good.
        absurd (ground (arith, good, incomplete-sent service cfg (service.marshal_map more)))
    denied-Honest (bad_content_type text) w =
        λ good. absurd (ground (arith, good, error-sent service cfg))
    denied-Honest (failure text) w = λ good. absurd (ground (arith, good, error-sent service cfg))

    module _ (username password : String) (body : Object)
        (read : service.unmarshal_request req.body ≡ some (username, password))
        (decoded : service.unmarshal_map req.body ≡ some body) where
      response_events-Honest :
          (r : JwtResponse) (w₁ w' : W) (token : String) (exp : ℤ) (o : Option String)
          → service.authenticate username password body start ≡ (returned (granted r), w₁)
          → service.add_token r w₁ ≡ (returned (ok (token, exp)), w')
          → service.marshal_response token (service.format_time exp) ≡ o
          → Honest req start w' (response_events service cfg o)
      response_events-Honest r w₁ w' token exp none login added marshalled = error-Honest w'
      response_events-Honest r w₁ w' token exp (some text) login added marshalled = λ good. (
        username,
        password,
        body,
        r,
        w₁,
        token,
        exp,
        read,
        decoded,
        login,
        added,
        marshalled ∙ ap some (sym (response-sent service cfg text).1),
      )

      after_add-Honest :
          (r : JwtResponse) (w₁ w' : W) (o : Result (String × ℤ))
          → service.authenticate username password body start ≡ (returned (granted r), w₁)
          → service.add_token r w₁ ≡ (returned o, w')
          → Honest req start w' (after_add service cfg o)
      after_add-Honest r w₁ w' (err e) login added = error-Honest w'
      after_add-Honest r w₁ w' (ok (token, exp)) login added =
          response_events-Honest r w₁ w' token exp
            (service.marshal_response token (service.format_time exp)) login added refl

      after_login-Honest :
          (l : Login) (w₁ : W)
          → service.authenticate username password body start ≡ (returned l, w₁)
          → IfHonest req start (after_login service cfg l w₁)
      unfolding after_login
      after_login-Honest (denied e) w₁ login = denied-Honest e w₁
      after_login-Honest (granted r) w₁ login = elim (Outcome-cases (service.add_token r w₁).0) [
        | inl (o, e) ↦ rw e (
            after_add-Honest r w₁ (service.add_token r w₁).1 o login
              (ap (λ x. (x, (service.add_token r w₁).1)) e))
        | inr e ↦ rw e tt
      ]

    with_body-Honest :
        (request : Option (String × String)) (body : Option Object)
        → service.unmarshal_request req.body ≡ request
        → service.unmarshal_map req.body ≡ body
        → IfHonest req start (with_body service cfg request body start)
    unfolding after_login
    with_body-Honest none body read decoded = error-Honest start
    with_body-Honest (some (username, password)) none read decoded = error-Honest start
    with_body-Honest (some (username, password)) (some body) read decoded =
        let run = service.authenticate username password body start in
        elim (Outcome-cases run.0) [
          | inl (l, e) ↦ rw e (
              after_login-Honest username password body read decoded l run.1
                (ap (λ x. (x, run.1)) e))
          | inr e ↦ rw e tt
        ]

    abbrev IfGood : Outcome (List Event) × W → Type 0
    IfGood (returned events, w') =
        (sent events).code ≡ 200 → LoggedIn req start w' (sent events).body
    IfGood (panicked, w') = Unit

    with_cors-IfGood :
        (o : Outcome (List Event) × W)
        → IfHonest req start o
        → IfGood (continue o.0 (λ events. pure (cors_events service cfg ++ events)) o.1)
    with_cors-IfGood (returned events, w') honest = honest
    with_cors-IfGood (panicked, w') honest = tt

    post_handler-LoggedIn :
        (params : Params) (events : List Event) (w' : W)
        → post_handler service cfg req params start ≡ (returned events, w')
        → (sent events).code ≡ 200
        → LoggedIn req start w' (sent events).body
    unfolding post_handler
    post_handler-LoggedIn params events w' done =
        let request = service.unmarshal_request req.body in
        let body = service.unmarshal_map req.body in
        subst IfGood done (
          with_cors-IfGood (with_body service cfg request body start)
            (with_body-Honest request body refl refl))

  -- The routes stand on `Authenticate`. If the handler for `POST` answers with the status 200, then encoding/json has
  -- read a user name, a password and an object of fields from the request's body, and the provider was asked and
  -- granted the log-in with its answer: asked with what the hook made of these, of the configured parameters and of
  -- the configured URL, and without a hook with the user name and the password among the parameters, at that URL.
  -- `AddToken` then stored the JWT of the answer, which was the last thing that was done, and the body for the client
  -- is encoding/json's text of the token and the time that `AddToken` returned.
  pub post_handler-AskedFor :
      (env : LoginEnv W) (req : Request) (params : Params) (events : List Event) (w w' : W)
      → ((username password : String) (body : Object)
          → service.authenticate username password body
            ≡ authenticate env username password body cfg.provider_config)
      → post_handler service cfg req params w ≡ (returned events, w')
      → (sent events).code ≡ 200
      → (username : String) × (password : String) × (body : Object) × (r : JwtResponse) × (w₁ : W)
        × (token : String) × (exp : ℤ) × (service.unmarshal_request req.body
            ≡ some (username, password))
        × (service.unmarshal_map req.body ≡ some body)
        × AskedFor env username password body cfg.provider_config r w w₁
        × (service.add_token r w₁ ≡ (returned (ok (token, exp)), w'))
        × (service.marshal_response token (service.format_time exp) ≡ some (sent events).body)
  post_handler-AskedFor env req params events w w' uses done good =
      let (username, password, body, r, w₁, token, exp, read, decoded, login, added, text) =
        post_handler-LoggedIn req w params events w' done good in
      (
        username,
        password,
        body,
        r,
        w₁,
        token,
        exp,
        read,
        decoded,
        authenticate-AskedFor env username password body cfg.provider_config r w w₁
            (sym (ap (λ f. f w) (uses username password body)) ∙ login),
        added,
        text,
      )
