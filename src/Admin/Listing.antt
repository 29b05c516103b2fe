-- ===== src/Admin/Listing.antt =====
-- What `GET /tokens` (admin/server.go) answers.
use text.Mathlib.TextLemmas.{append_assoc}
use servicegateway.Prelude.{String, ◌<>◌, ◌≡◌, refl, ◌∙◌, true, List, [], ◌∷◌, Option, none, some}
use servicegateway.Effects.{returned}
use servicegateway.Http.{Request, Params, Event}
use servicegateway.Http.Recorder.{Recorder, sent, send_from, send_event}
use servicegateway.Auth.Types.{Result, ok, err}
use servicegateway.Auth.TokenStore.{MappedToken, TokenStore}
use servicegateway.Admin.{AdminEnv, token_json, list_events, encoded, after_get_all, get_tokens}

module _ {W : Type 0} (env : AdminEnv W) (store : TokenStore W) where
  abbrev pub listed : Option String → String → String
  listed none rest = "{\"msg\":\"could not encode tokens\"}"
  listed (some text) rest = text <> rest

  -- The text of a list of tokens, up to the first that cannot be encoded.
  abbrev pub listing : Request → List MappedToken → String
  listing req [] = "]"
  listing req (v ∷ vs) = listed (env.encode (token_json env store req v)) (listing req vs)

  -- Once a part of the body is written, the status stays.
  abbrev Continues : Request → List MappedToken → Type 0
  Continues req vs =
      (r : Recorder)
      → r.wrote ≡ true
      → ((send_from r (list_events env store req vs)).code ≡ r.code)
        × ((send_from r (list_events env store req vs)).body ≡ r.body <> listing req vs)

  encoded-Continues :
      (req : Request) (vs : List MappedToken) (o : Option String)
      → Continues req vs
      → (r : Recorder) → r.wrote ≡ true
      → ((send_from r (encoded env store o (list_events env store req vs))).code ≡ r.code)
        × ((send_from r (encoded env store o (list_events env store req vs))).body
            ≡ r.body <> listed o (listing req vs))
  unfolding send_from send_event
  encoded-Continues req vs none rest r wrote = rw wrote (refl, refl)
  encoded-Continues req vs (some text) rest r wrote =
      let (code, body) = rest (record r { wrote = true; body = r.body <> text }) refl in
      (code, body ∙ append_assoc r.body text (listing req vs))

  list_events-Continues : (req : Request) (vs : List MappedToken) → Continues req vs
  unfolding send_from send_event list_events
  list_events-Continues req [] r wrote = (refl, refl)
  list_events-Continues req (v ∷ vs) r wrote =
      encoded-Continues req vs (env.encode (token_json env store req v))
        (list_events-Continues req vs) r wrote

  -- The status and the body for what `GetAllTokens` returns.
  abbrev pub Listed : Request → Result (List MappedToken) → List Event → Type 0
  Listed req (err e) events =
      ((sent events).code ≡ 500) × ((sent events).body ≡ "{\"msg\":\"could not load tokens\"}")
  Listed req (ok tokens) events =
      ((sent events).code ≡ 200) × ((sent events).body ≡ "[" <> listing req tokens)

  -- `GET /tokens` asks `GetAllTokens` once and does nothing else. If that fails, the status is 500. Otherwise the
  -- status is 200, also if a token cannot be encoded, and the body is `[`, the texts of the encoder one after the
  -- other with nothing between them, and `]`, or an error in place of the first token that cannot be encoded
  -- and of all that follows.
  pub get_tokens-Listed :
      (req : Request) (params : Params) (r : Result (List MappedToken)) (w w' : W)
      → store.get_all_tokens w ≡ (returned r, w')
      → (events : List Event) × (get_tokens env store req params w ≡ (returned events, w'))
        × Listed req r events
  unfolding get_tokens sent
  get_tokens-Listed req params r w w' loaded =
      (after_get_all env store req r, rw loaded refl, listed_lem r)
    where
      listed_lem : (r : Result (List MappedToken)) → Listed req r (after_get_all env store req r)
      listed_lem (err e) = (refl, refl)
      listed_lem (ok tokens) = list_events-Continues req tokens _ refl
