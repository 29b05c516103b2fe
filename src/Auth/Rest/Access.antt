-- ===== src/Auth/Rest/Access.antt =====
-- Which requests the decorator of auth/rest.go lets through, and what the client gets.
use servicegateway.Prelude.{
  ℕ, String, ◌≡◌, refl, sym, ◌∙◌, ap, ◌⊎◌, inl, inr, true, false, List, Option, some, ◌==◌,
  Bool-cases,
}
use servicegateway.Prelude.Int.{ℤ}
use servicegateway.Effects.{Outcome, returned, panicked, Outcome-cases}
use servicegateway.Http.{Request, Params, Handler, Event, add_all}
use servicegateway.Http.Header.{get, get-set_self}
use servicegateway.Http.Recorder.{Recorder, recorded, sent}
use servicegateway.Http.Sent.{sent-copy_body, add_all-HeadersOnly}
use servicegateway.Config.{Application, Configuration}
use servicegateway.Auth.Types.{JwtResponse}
use servicegateway.Auth.Handler.{ExpItem, accepted, rejected, broken, HandlerEnv, is_authenticated}
use servicegateway.Auth.Handler.Expiry.{IsLive, IsSound, IsSoundEnv, is_authenticated-IsLive}
use servicegateway.Auth.Writer.{header_name, header_value, write_token_to_request}
use servicegateway.Auth.Rest.{
  RestEnv, writer_of, is_provider, is_allowed, error_events, invalid_events, copy_events, finish,
  valid, notify, decorate_handler,
}

module _ {W : Type 0} (env : RestEnv W) (orig : Handler W) (app_name : String) (app : Application)
    (cfg : Configuration) (req : Request) (p : Params) (w : W) where
  -- What the decorated handler does with the request.
  abbrev pub decorated : Outcome (List Event) × W
  decorated = decorate_handler env orig app_name app cfg req p w

  -- The request went on to the backend with this token, after `IsAuthenticated`.
  abbrev pub PassedOn : JwtResponse → Type 0
  PassedOn token =
      (is_allowed token app_name ≡ true)
      × (decorated
          ≡ valid env orig app.auth.writer false req p (some token.jwt)
              (env.is_authenticated req w).1)

  -- The request did not go on: nothing has happened since `IsAuthenticated`, and the client gets 403
  -- or 503, or the connection is dropped.
  abbrev pub Refused : Type 0
  Refused =
      (decorated.1 ≡ (env.is_authenticated req w).1)
      × ((decorated.0 ≡ panicked)
          ⊎ ((events : List Event) × (decorated.0 ≡ returned events)
              × (((sent events).code ≡ 403) ⊎ ((sent events).code ≡ 503))))

  -- The same, with the events.
  abbrev pub Answered : Type 0
  Answered =
      (decorated ≡ (panicked, (env.is_authenticated req w).1))
      ⊎ ((decorated ≡ (returned invalid_events, (env.is_authenticated req w).1))
          ⊎ (decorated ≡ (returned (error_events 503), (env.is_authenticated req w).1)))

  pub allowed_or_answered :
      (req.method == "OPTIONS") ≡ false
      → is_provider cfg app_name ≡ false
      → ((token : JwtResponse) × ((env.is_authenticated req w).0 ≡ returned (accepted token))
          × PassedOn token)
        ⊎ Answered
  unfolding decorate_handler
  allowed_or_answered method client = elim (Outcome-cases (env.is_authenticated req w).0) [
    | inl (accepted token, e) ↦ elim (Bool-cases (is_allowed token app_name)) [
      | inl listed ↦ inl (token, e, (listed, rw (method, client, e, listed)))
      | inr other ↦ inr (inr (inl (rw (method, client, e, other))))
    ]
    | inl (rejected, e) ↦ inr (inr (inl (rw (method, client, e))))
    | inl (broken x, e) ↦ inr (inr (inr (rw (method, client, e))))
    | inr e ↦ inr (inl (rw (method, client, e)))
  ]

  Answered-Refused : Answered → Refused
  unfolding sent
  Answered-Refused (inl e) = (ap (λ o. o.1) e, inl (ap (λ o. o.0) e))
  Answered-Refused (inr (inl e)) =
      (ap (λ o. o.1) e, inr (invalid_events, ap (λ o. o.0) e, inl refl))
  Answered-Refused (inr (inr e)) =
      (ap (λ o. o.1) e, inr (error_events 503, ap (λ o. o.0) e, inr refl))

  -- The method is not `OPTIONS`, the application is not the provider of tokens, and tokens are
  -- checked by `IsAuthenticated` over calls as in `IsSoundEnv`, whose cache holds only expiries of
  -- signed tokens. Then the request goes on to the backend with a signed token that had not expired
  -- when the request arrived and that allows the application; or the backend is not called, and
  -- the client gets 403 or 503 or loses the connection.
  pub access_control :
      (handler_env : HandlerEnv W) (view : String → W → Option ExpItem)
      (Signed : String → ℤ → Type 0) (clock : W → ℕ)
      → IsSoundEnv handler_env view Signed clock
      → env.is_authenticated ≡ is_authenticated handler_env
      → IsSound view Signed w
      → (req.method == "OPTIONS") ≡ false
      → is_provider cfg app_name ≡ false
      → ((token : JwtResponse) × (e : ℤ) × Signed token.jwt e × IsLive e (clock w) × PassedOn token)
        ⊎ Refused
  access_control handler_env view Signed clock good uses sound method client =
      elim (allowed_or_answered method client) [
        | inl (token, done, passed) ↦
            let (e, signed, live) =
              is_authenticated-IsLive handler_env view Signed clock good req token w sound
                (sym (ap (λ f. (f req w).0) uses) ∙ done) in
            inl (token, e, signed, live, passed)
        | inr answered ↦ inr (Answered-Refused answered)
      ]

  copy_events-sent :
      (r : Recorder)
      → ((sent (copy_events r)).code ≡ r.code) × ((sent (copy_events r)).body ≡ r.body)
  unfolding copy_events
  copy_events-sent r =
      sent-copy_body (add_all r.header) r.code r.body (add_all-HeadersOnly r.header)

  -- The request as the backend gets it for a token.
  abbrev pub forwarded : JwtResponse → Request
  forwarded token = write_token_to_request (writer_of app.auth.writer) token.jwt req

  -- The request has an accepted token that allows the application, which is not the provider, and
  -- the backend's handler returns. Then the backend has the JWT in the header that the application
  -- is configured with, and the client gets the status and the body that the handler recorded.
  pub delivered :
      (token : JwtResponse) (events : List Event) (w₁ w₂ : W)
      → (req.method == "OPTIONS") ≡ false
      → is_provider cfg app_name ≡ false
      → env.is_authenticated req w ≡ (returned (accepted token), w₁)
      → is_allowed token app_name ≡ true
      → orig (forwarded token) p (notify env env.listeners (forwarded token) token.jwt w₁)
        ≡ (returned events, w₂)
      → (get (header_name (writer_of app.auth.writer)) (forwarded token).header
          ≡ header_value (writer_of app.auth.writer) token.jwt)
        × (sends : List Event) × (decorated ≡ (returned sends, w₂))
        × ((sent sends).code ≡ (recorded env.rewriting.detect events).code)
        × ((sent sends).body ≡ (recorded env.rewriting.detect events).body)
  unfolding decorate_handler valid finish write_token_to_request
  delivered token events w₁ w₂ method client done listed ran =
      let r = recorded env.rewriting.detect events in
      let writer = writer_of app.auth.writer in
      let (code, body) = copy_events-sent r in
      (
        get-set_self (header_name writer) (header_value writer token.jwt) req.header,
        copy_events r,
        rw (method, client, done, listed, ran),
        code,
        body,
      )
