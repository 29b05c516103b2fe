-- ===== src/Auth/Login/Replies.antt =====
-- What reaches the client of the events that the handler for the log-in makes (auth/rest.go, RegisterRoutes).
use text.Mathlib.TextLemmas.{nil-append}
use servicegateway.Prelude.{
  String, ◌≡◌, refl, inl, inr, [], ◌∷◌, ◌++◌, Option, none, some, Bool-cases,
}
use servicegateway.Http.{write_header, write}
use servicegateway.Http.Recorder.{sent}
use servicegateway.Config.{GlobalAuth}
use servicegateway.Auth.Rest.{error_events}
use servicegateway.Auth.Login.Routes.{Service, json_type, incomplete_events, cors_events}

module _ {W : Type 0} (service : Service W) (cfg : GlobalAuth) where
  pub error-sent : (sent (cors_events service cfg ++ error_events 500)).code ≡ 500
  unfolding sent
  error-sent = elim (Bool-cases cfg.enable_cors) [ inl e ↦ rw e refl | inr e ↦ rw e refl ]

  pub incomplete-sent :
      (o : Option String)
      → (sent (cors_events service cfg ++ incomplete_events service cfg o)).code ≡ 202
  unfolding sent
  incomplete-sent none = elim (Bool-cases cfg.enable_cors) [ inl e ↦ rw e refl | inr e ↦ rw e refl ]
  incomplete-sent (some text) = elim (Bool-cases cfg.enable_cors) [
    | inl e ↦ rw e refl
    | inr e ↦ rw e refl
  ]

  pub forbidden-sent :
      (text : String)
      → (sent (cors_events service cfg ++ json_type ∷ write_header 403 ∷ write text ∷ [])).code
        ≡ 403
  unfolding sent
  forbidden-sent text = elim (Bool-cases cfg.enable_cors) [ inl e ↦ rw e refl | inr e ↦ rw e refl ]

  pub response-sent :
      (text : String)
      → ((sent (cors_events service cfg ++ json_type ∷ write text ∷ [])).code ≡ 200)
        × ((sent (cors_events service cfg ++ json_type ∷ write text ∷ [])).body ≡ text)
  unfolding sent
  response-sent text = elim (Bool-cases cfg.enable_cors) [
    | inl e ↦ rw e (refl, nil-append text)
    | inr e ↦ rw e (refl, nil-append text)
  ]
