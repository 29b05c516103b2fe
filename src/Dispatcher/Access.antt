-- ===== src/Dispatcher/Access.antt =====
-- Which requests reach the backend of an application behind the limiter and the check of tokens.
use servicegateway.Prelude.{
  ℕ, String, ◌⊎◌, inl, inr, ◌≡◌, refl, sym, subst, ◌∙◌, ap, Bool, true, false, List, [], ◌++◌,
  Option, some, ◌==◌, if◌then◌else◌,
}
use servicegateway.Prelude.Int.{ℤ}
use servicegateway.Effects.{Outcome, returned, panicked, pure, continue}
use servicegateway.Http.{Request, Params, Handler, Event}
use servicegateway.Http.Recorder.{sent}
use servicegateway.Config.{Application, Configuration}
use servicegateway.Ratelimit.{Redis, Command, Throttler, limit_headers}
use servicegateway.Ratelimit
use servicegateway.Ratelimit.Passing.{Stopped, AfterLimit, decorate_handler-passes}
use servicegateway.Auth.Types.{JwtResponse}
use servicegateway.Auth.Handler.{ExpItem, HandlerEnv, is_authenticated}
use servicegateway.Auth.Handler.Expiry.{IsLive, IsSound, IsSoundEnv, is_authenticated-IsLive}
use servicegateway.Auth.Rest.{RestEnv, is_provider, is_allowed, valid, invalid_events, error_events}
use servicegateway.Auth.Rest
use servicegateway.Auth.Rest.Access.{Answered, allowed_or_answered}

module _ {W : Type 0} (redis : Redis W) (resolve : String → Option String) (t : Throttler)
    (env : RestEnv W) (clock : W → ℕ) (Signed : String → ℤ → Type 0) (app_name : String)
    (app : Application) (inner : Handler W) (req : Request) (p : Params) where
  -- The handler for the backend is not called, and the client gets 403, 429 or 503 or loses the connection; nothing
  -- has happened since the limiter's transaction but the check of the token.
  abbrev pub Refused : W → Outcome (List Event) × W → Type 0
  Refused w o =
      ((o.1 ≡ w) ⊎ (o.1 ≡ (env.is_authenticated req w).1))
      × ((o.0 ≡ panicked)
          ⊎ ((events : List Event) × (o.0 ≡ returned events)
              × (((sent events).code ≡ 403)
                  ⊎ (((sent events).code ≡ 429) ⊎ ((sent events).code ≡ 503)))))

  -- The request goes on with a signed token that has not expired and that allows the application; the limiter's
  -- headers come before what follows.
  abbrev pub Admitted : W → Outcome (List Event) × W → Type 0
  Admitted w o =
      (token : JwtResponse) × (e : ℤ) × (headers : List Event) × Signed token.jwt e
      × IsLive e (clock w)
      × (is_allowed token app_name ≡ true)
      × (o
          ≡ continue
              (valid env inner app.auth.writer false req p (some token.jwt)
                (env.is_authenticated req w).1).0
              (λ events. pure (headers ++ events))
              (valid env inner app.auth.writer false req p (some token.jwt)
                (env.is_authenticated req w).1).1)

  -- What becomes of the request in a world, after what the limiter does.
  abbrev pub Checked : W → Outcome (List Event) × W → Type 0
  Checked w o =
      (w₁ : W) × AfterLimit redis resolve t inner req p w w₁ × (Refused w₁ o ⊎ Admitted w₁ o)

module _ {W : Type 0} (redis : Redis W) (resolve : String → Option String) (t : Throttler)
    (env : RestEnv W) (handler_env : HandlerEnv W) (view : String → W → Option ExpItem)
    (Signed : String → ℤ → Type 0) (clock : W → ℕ) (good : IsSoundEnv handler_env view Signed clock)
    (uses : env.is_authenticated ≡ is_authenticated handler_env)
    (apart : (j : String) (commands : List Command) (w : W)
      → view j (redis.transaction commands w).1 ≡ view j w)
    (app_name : String) (app : Application) (cfg : Configuration)
    (client : is_provider cfg app_name ≡ false) (inner : Handler W) (req : Request) (p : Params)
    (method : (req.method == "OPTIONS") ≡ false) where
  abbrev Known : W → Outcome (List Event) × W → Type 0
  Known w o =
      Refused redis resolve t env clock Signed app_name app inner req p w o
      ⊎ Admitted redis resolve t env clock Signed app_name app inner req p w o

  -- Headers that leave the status of a refusal as it is.
  abbrev IsTransparent : List Event → Type 0
  IsTransparent headers =
      ((sent (headers ++ invalid_events)).code ≡ 403)
      × ((sent (headers ++ error_events 503)).code ≡ 503)

  abbrev guarded : Handler W
  guarded = Rest.decorate_handler env inner app_name app cfg

  abbrev behind : List Event → Outcome (List Event) × W → Outcome (List Event) × W
  behind headers o = continue o.0 (λ events. pure (headers ++ events)) o.1

  Answered-Known :
      (headers : List Event) (w : W)
      → IsTransparent headers
      → Answered env inner app_name app cfg req p w
      → Known w (behind headers (guarded req p w))
  Answered-Known headers w plain (inl e) =
      subst (λ o. Known w (behind headers o)) (sym e) (inl (inr refl, inl refl))
  Answered-Known headers w plain (inr (inl e)) =
      subst (λ o. Known w (behind headers o)) (sym e) (inl (inr refl, inr (_, refl, inl plain.0)))
  Answered-Known headers w plain (inr (inr e)) =
      subst (λ o. Known w (behind headers o)) (sym e)
        (inl (inr refl, inr (_, refl, inr (inr plain.1))))

  guarded-Known :
      (headers : List Event) (w : W)
      → IsTransparent headers
      → IsSound view Signed w
      → Known w (behind headers (guarded req p w))
  guarded-Known headers w plain sound =
      elim (allowed_or_answered env inner app_name app cfg req p w method client) [
        | inl (token, done, (listed, passed)) ↦
            let (e, signed, live) =
              is_authenticated-IsLive handler_env view Signed clock good req token w sound
                (sym (ap (λ f. (f req w).0) uses) ∙ done) in
            inr (token, e, headers, signed, live, listed, ap (behind headers) passed)
        | inr answered ↦ Answered-Known headers w plain answered
      ]

  limit_headers-IsTransparent :
      (limit remaining : ℤ) → IsTransparent (limit_headers limit remaining)
  unfolding sent
  limit_headers-IsTransparent limit remaining = (refl, refl)

  none-IsTransparent : IsTransparent []
  unfolding sent
  none-IsTransparent = (refl, refl)

  behind_none : (o : Outcome (List Event) × W) → behind [] o ≡ o
  behind_none (returned events, w) = refl
  behind_none (panicked, w) = refl

  AfterLimit-IsSound :
      (w w₁ : W)
      → AfterLimit redis resolve t guarded req p w w₁
      → IsSound view Signed w
      → IsSound view Signed w₁
  AfterLimit-IsSound w w₁ (inl e) sound = subst (IsSound view Signed) (sym e) sound
  AfterLimit-IsSound w w₁ (inr (commands, e)) sound =
      subst (IsSound view Signed) (sym e)
        (λ j i found. sound j i (sym (apart j commands w) ∙ found))

  Stopped-Refused : (w : W) (o : Outcome (List Event) × W) → Stopped o.0 → o.1 ≡ w → Known w o
  Stopped-Refused w o (inl e) same = inl (inl same, inl e)
  Stopped-Refused w o (inr (events, e, code)) same = inl (inl same, inr (events, e, inr code))

  -- The limiter, if it is asked for, around the check of tokens.
  abbrev limited : Bool → Handler W
  limited b = if b then Ratelimit.decorate_handler redis resolve t guarded else guarded

  pub limited-Checked :
      (b : Bool) (w : W)
      → IsSound view Signed w
      → Checked redis resolve t env clock Signed app_name app inner req p w (limited b req p w)
  limited-Checked true w sound =
      let (w₁, after, ran) = decorate_handler-passes redis resolve t guarded req p w in
      elim ran [
        | inl (stopped, same) ↦ (w₁, after, Stopped-Refused w₁ _ stopped same)
        | inr (limit, remaining, e) ↦ (
          w₁,
          after,
          subst (Known w₁) (sym e) (
              guarded-Known (limit_headers limit remaining) w₁
                (limit_headers-IsTransparent limit remaining)
                (AfterLimit-IsSound w w₁ after sound)),
        )
      ]
  limited-Checked false w sound = (
    w,
    inl refl,
    subst (Known w) (behind_none (guarded req p w)) (guarded-Known [] w none-IsTransparent sound),
  )
