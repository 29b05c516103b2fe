-- ===== src/Auth/Login/Provider.antt =====
-- What `Authenticate` (auth/handler.go) relies on when it grants a log-in.
use servicegateway.Prelude.{
  ◌<◌, String, ◌<>◌, ◌≡◌, ◌≢◌, refl, sym, ap, subst, inl, inr, false, List, Option, none, some,
  arith, eqb, leb, Bool-cases, Option-cases,
}
use servicegateway.Text.{has_prefix}
use servicegateway.Effects.{Outcome, returned, panicked, Outcome-cases}
use servicegateway.Http.Header.{get}
use servicegateway.Config.{ProviderAuthConfig}
use servicegateway.Proxy.Json.{str}
use servicegateway.Proxy.Upstream.{Response}
use servicegateway.Auth.Types.{JwtResponse}
use servicegateway.Auth.Login.{
  Object, Login, granted, denied, LoginEnv, Prepared, Hooked, prepared, stopped, put_value,
  run_hook, ask_more, read_response, login_request, after_send, send_body, send_login,
  with_parameters, authenticate,
}

abbrev request_of : {W : Type 0} → Prepared → Outcome Hooked × W → Object
request_of p (returned (prepared q), w) = q.request
request_of p _ = p.request

abbrev url_of : {W : Type 0} → Prepared → Outcome Hooked × W → String
url_of p (returned (prepared q), w) = q.url
url_of p _ = p.url

module _ {W : Type 0} (env : LoginEnv W) (username password : String) (properties : Object) where
  -- A log-in that was granted is the answer: its body is the JWT, and its status is neither an error
  -- nor 202.
  abbrev Granted : List String → Response → Login → Type 0
  Granted applications res (denied e) = Unit
  Granted applications res (granted r) =
      (r ≡ record { jwt = res.body; allowed_applications = applications })
      × (res.code < 400)
      × (res.code ≢ 202)

  ask_more-Granted :
      (applications : List String) (res : Response)
      → Granted applications res (ask_more env username password properties res)
  unfolding ask_more
  ask_more-Granted applications res =
      elim (Bool-cases (has_prefix (get "Content-Type" res.header) "application/json")) [
        | inl json ↦ elim (Option-cases (env.decode_map res.body)) [
          | inl bad ↦ rw (json, bad) tt
          | inr (more, good) ↦ rw (json, good) tt
        ]
        | inr other ↦ rw other tt
      ]

  read_response-Granted :
      (applications : List String) (res : Response)
      → Granted applications res (read_response env username password properties applications res)
  unfolding read_response
  read_response-Granted applications res = elim (Bool-cases (leb 400 res.code)) [
    | inl error ↦ elim (Bool-cases (eqb res.code 403)) [
      | inl forbidden ↦ rw (error, forbidden) tt
      | inr other ↦ rw (error, other) tt
    ]
    | inr fine ↦ elim (Bool-cases (eqb res.code 202)) [
      | inl more ↦ rw (fine, more) (ask_more-Granted applications res)
      | inr full ↦ rw (fine, full) (refl, ground arith, λ e. ground arith)
    ]
  ]

  -- The object for the provider.
  abbrev pub credentials : Object → Object
  credentials parameters =
      put_value "password" (str password) (put_value "username" (str username) parameters)

  -- What is sent was prepared for this log-in: the hook got the credentials among the configured parameters and the
  -- configured URL, and without a hook these are what is sent.
  abbrev pub PreparedFor : ProviderAuthConfig → Prepared → W → W → Type 0
  PreparedFor cfg p w w₁ =
      (parameters : Object) × (env.copy_parameters cfg.parameters ≡ some parameters)
      × (run_hook env username password properties (cfg.url <> "/authenticate")
            (credentials parameters) w
          ≡ (returned (prepared p), w₁))
      × (env.hook ≡ false
          → (p.request ≡ credentials parameters) × (p.url ≡ cfg.url <> "/authenticate"))

  -- The answer to a request with this content, as the last thing that was done, is a grant.
  abbrev AnsweredWith : Prepared → JwtResponse → W → W → Type 0
  AnsweredWith p r w w' =
      (body : String) × (res : Response) × (env.marshal_map p.request ≡ some body)
      × (env.send (login_request env username password properties p.url body) w ≡ (some res, w'))
      × (r ≡ record { jwt = res.body; allowed_applications = p.allowed_applications })
      × (res.code < 400)
      × (res.code ≢ 202)

  -- The provider was asked for this log-in, as the last thing that was done, and has granted it.
  abbrev pub AskedFor : ProviderAuthConfig → JwtResponse → W → W → Type 0
  AskedFor cfg r w w' = (p : Prepared) × (w₁ : W) × PreparedFor cfg p w w₁ × AnsweredWith p r w₁ w'

  abbrev IfAnswered : Prepared → W → Outcome Login × W → Type 0
  IfAnswered p w (returned (granted r), w') = AnsweredWith p r w w'
  IfAnswered p w _ = Unit

  abbrev IfGranted : ProviderAuthConfig → W → Outcome Login × W → Type 0
  IfGranted cfg w (returned (granted r), w') = AskedFor cfg r w w'
  IfGranted cfg w _ = Unit

  -- From a fact on the answer to one on the whole run.
  after_send-IfAnswered :
      (p : Prepared) (body : String) (o : Option Response) (w w' : W)
      → env.marshal_map p.request ≡ some body
      → env.send (login_request env username password properties p.url body) w ≡ (o, w')
      → IfAnswered p w (after_send env username password properties p.allowed_applications o w')
  unfolding after_send
  after_send-IfAnswered p body none w w' marshalled asked = tt
  after_send-IfAnswered p body (some res) w w' marshalled asked =
      go (read_response env username password properties p.allowed_applications res)
        (read_response-Granted p.allowed_applications res)
    where
      go : (l : Login) → Granted p.allowed_applications res l → IfAnswered p w (returned l, w')
      go (denied e) g = tt
      go (granted r) (same, fine, full) = (body, res, marshalled, asked, same, fine, full)

  send_body-IfAnswered :
      (p : Prepared) (o : Option String) (w : W)
      → env.marshal_map p.request ≡ o
      → IfAnswered p w (send_body env username password properties p o w)
  unfolding send_body
  send_body-IfAnswered p none w marshalled = tt
  send_body-IfAnswered p (some body) w marshalled = elim (Bool-cases (env.valid_url p.url)) [
    | inl valid ↦ rw valid (
        after_send-IfAnswered p body
          (env.send (login_request env username password properties p.url body) w).0 w
          (env.send (login_request env username password properties p.url body) w).1 marshalled
          refl)
    | inr bad ↦ rw bad tt
  ]

  -- Without a hook, what is sent is what was given.
  run_hook-plain :
      (url : String) (request : Object) (p : Prepared) (w w₁ : W)
      → run_hook env username password properties url request w ≡ (returned (prepared p), w₁)
      → env.hook ≡ false
      → (p.request ≡ request) × (p.url ≡ url)
  unfolding run_hook
  run_hook-plain url request p w w₁ ran plain =
      let same = rw plain at ran in (sym (ap (request_of p) same), sym (ap (url_of p) same))

  answered-IfGranted :
      (cfg : ProviderAuthConfig) (p : Prepared) (w w₁ : W) (o : Outcome Login × W)
      → PreparedFor cfg p w w₁
      → IfAnswered p w₁ o
      → IfGranted cfg w o
  answered-IfGranted cfg p w w₁ (returned (granted r), w') prep answered = (p, w₁, prep, answered)
  answered-IfGranted cfg p w w₁ (returned (denied e), w') prep answered = tt
  answered-IfGranted cfg p w w₁ (panicked, w') prep answered = tt

  send_login-IfGranted :
      (cfg : ProviderAuthConfig) (parameters : Object) (h : Hooked) (w w₁ : W)
      → env.copy_parameters cfg.parameters ≡ some parameters
      → run_hook env username password properties
          (cfg.url <> "/authenticate")
          (credentials parameters)
          w
        ≡ (returned h, w₁)
      → IfGranted cfg w (send_login env username password properties h w₁)
  unfolding send_login
  send_login-IfGranted cfg parameters (stopped e) w w₁ copied ran = tt
  send_login-IfGranted cfg parameters (prepared p) w w₁ copied ran =
      answered-IfGranted cfg p w w₁
        (send_body env username password properties p (env.marshal_map p.request) w₁)
        (
          parameters,
          copied,
          ran,
          run_hook-plain (cfg.url <> "/authenticate") (credentials parameters) p w w₁ ran,
        )
        (send_body-IfAnswered p (env.marshal_map p.request) w₁ refl)

  with_parameters-IfGranted :
      (cfg : ProviderAuthConfig) (o : Option Object) (w : W)
      → env.copy_parameters cfg.parameters ≡ o
      → IfGranted cfg w (with_parameters env username password properties cfg o w)
  unfolding with_parameters
  with_parameters-IfGranted cfg none w copied = tt
  with_parameters-IfGranted cfg (some parameters) w copied =
      let url = cfg.url <> "/authenticate" in
      let run = run_hook env username password properties url (credentials parameters) w in
      elim (Outcome-cases run.0) [
        | inl (h, e) ↦
            rw e (send_login-IfGranted cfg parameters h w run.1 copied (ap (λ x. (x, run.1)) e))
        | inr e ↦ rw e tt
      ]

  -- If `Authenticate` grants a log-in, then the last thing that it did was to send a request to the
  -- provider, prepared for this log-in, with an object that encoding/json printed, the answer's body is the JWT, and
  -- its status is below 400 and is not 202.
  pub authenticate-AskedFor :
      (cfg : ProviderAuthConfig) (r : JwtResponse) (w w' : W)
      → authenticate env username password properties cfg w ≡ (returned (granted r), w')
      → AskedFor cfg r w w'
  unfolding authenticate
  authenticate-AskedFor cfg r w w' done =
      subst (IfGranted cfg w) done
        (with_parameters-IfGranted cfg (env.copy_parameters cfg.parameters) w refl)
