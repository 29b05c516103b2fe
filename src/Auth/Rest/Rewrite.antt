-- ===== src/Auth/Rest/Rewrite.antt =====
-- `rewriteAccessTokens` of auth/rest.go: a provider's response may carry a JWT in its body, a header
-- or a cookie, which is replaced by a token of the store.
pub mod Tokens
use Prim.Native.String.{len}
use servicegateway.Prelude.{String, not, List, [], ◌∷◌, Option, none, some, ◌==◌, if◌then◌else◌}
use servicegateway.Prelude.Int.{ℤ}
use servicegateway.Text.{itoa}
use servicegateway.Effects.{Exec, pure, panic, ◌>>=◌}
use servicegateway.Http.{write, lookup}
use servicegateway.Http.Header.{HeaderMap, get, set, add}
use servicegateway.Http.Recorder.{Recorder, record_event}
use servicegateway.Proxy.Json.{Json, str}
use servicegateway.Auth.Types.{JwtResponse, plain, Result, ok, err}

-- `http.Cookie`: the name, the value and the attributes, which are only copied.
pub record Cookie : Type 0 where
  pub name : String
  pub value : String
  pub attributes : String

-- What the rewriting calls: `AddToken`, encoding/json on a `map[string]interface{}` (of which only
-- the fields matter), net/http's cookies and its detection of content types. `print_cookie` is "" for
-- a cookie that is not valid.
pub record Rewriting (W : Type 0) : Type 0 where
  pub add_token : JwtResponse → Exec W (Result (String × ℤ))
  pub unmarshal_map : String → Option (List (String × Json))
  pub marshal_map : List (String × Json) → Option String
  pub parse_cookies : HeaderMap → List Cookie
  pub print_cookie : Cookie → String
  pub detect : String → String

-- `response[key] = v` for a key that is there.
abbrev pub put_value : String → Json → List (String × Json) → List (String × Json)
put_value key v [] = []
put_value key v ((k, old) ∷ m) =
    let rest = put_value key v m in if k == key then (k, v) ∷ m else (k, old) ∷ rest

-- `parseCookie`: the first cookie with the name.
unfoldable pub find_cookie : String → List Cookie → Option Cookie
find_cookie name [] = none
find_cookie name (c ∷ cs) = if c.name == name then some c else find_cookie name cs

abbrev pub drained : Recorder → Recorder
drained r = record r { body = "" }

abbrev pub set_header : String → String → Recorder → Recorder
unfolding set
set_header k v r = record r { header = set k v r.header }

-- `http.SetCookie`
pub set_cookie : String → Recorder → Recorder
unfolding add
set_cookie printed r =
    if printed == "" then r else record r { header = add "Set-Cookie" printed r.header }

module _ {W : Type 0} (env : Rewriting W) where
  -- The token for a JWT.
  abbrev pub token_for : String → (String → Recorder) → Exec W (Result Recorder)
  token_for jwt build = env.add_token (record { jwt = jwt; allowed_applications = [] }) >>= λ r.
      pure (elim r [ err e ↦ err e | ok (token, expiration) ↦ ok (build token) ])

  -- The token is written to the drained recorder.
  pub jwt_body : Recorder → String → Recorder
  unfolding record_event itoa
  jwt_body r token =
      set_header "Content-Length" (itoa (len token))
        (set_header "Content-Type" "text/plain" (record_event env.detect (drained r) (write token)))

  pub json_body : Recorder → String → Recorder
  unfolding record_event itoa
  json_body r text =
      set_header "Content-Length" (itoa (len text))
        (record_event env.detect (drained r) (write text))

  -- The object with the token in place of the JWT.
  abbrev pub reencoded :
      Recorder → String → List (String × Json) → Result (String × ℤ) → Result Recorder
  unfolding json_body
  reencoded r key fields (err e) = err e
  reencoded r key fields (ok (token, expiration)) =
      elim (env.marshal_map (put_value key (str token) fields)) [
        | none ↦ err (plain "json")
        | some text ↦ ok (json_body r text)
      ]

  -- The value under the key. The assertion `bodyToken.(string)` panics at anything but a string;
  -- without a value the body, which was read, stays empty.
  pub rewrite_field :
      Recorder → String → List (String × Json) → Option Json → Exec W (Result Recorder)
  rewrite_field r key fields none = pure (ok (drained r))
  rewrite_field r key fields (some (str jwt)) =
      env.add_token (record { jwt = jwt; allowed_applications = [] }) >>= λ token.
      pure (reencoded r key fields token)
  rewrite_field r key fields (some _) = panic

  abbrev pub rewrite_json :
      Recorder → String → Option (List (String × Json)) → Exec W (Result Recorder)
  rewrite_json r key none = pure (err (plain "json"))
  rewrite_json r key (some fields) = rewrite_field r key fields (lookup key fields)

  -- `rewriteBodyAccessTokens`
  unfoldable pub rewrite_body_access_tokens : Recorder → Exec W (Result Recorder)
  unfolding get lookup jwt_body rewrite_field
  rewrite_body_access_tokens r =
      let key = get "X-Gateway-BodyToken" r.header in
      let jwt : Exec W (Result Recorder) = token_for r.body (jwt_body r) in
      let json : Exec W (Result Recorder) = rewrite_json r key (env.unmarshal_map r.body) in
      if get "Content-Type" r.header == "application/jwt"
      then jwt
      else if key == ""
      then pure (ok r)
      else json

  -- `rewriteHeaderAccessTokens`
  unfoldable pub rewrite_header_access_tokens : Recorder → Exec W (Result Recorder)
  unfolding get set
  rewrite_header_access_tokens r =
      let key = get "X-Gateway-HeaderToken" r.header in
      let replaced : Exec W (Result Recorder) =
        token_for (get key r.header) (λ token. set_header key token r) in
      if key == "" then pure (ok r) else replaced

  abbrev pub rewrite_cookie : Recorder → String → Option Cookie → Exec W (Result Recorder)
  unfolding set_cookie
  rewrite_cookie r key none = pure (err (plain "cookie not found"))
  rewrite_cookie r key (some cookie) =
      token_for cookie.value
        (λ token. set_cookie (env.print_cookie (record cookie { value = token })) r)

  -- `rewriteCookieAccessTokens`
  unfoldable pub rewrite_cookie_access_tokens : Recorder → Exec W (Result Recorder)
  unfolding get find_cookie
  rewrite_cookie_access_tokens r =
      let key = get "X-Gateway-CookieToken" r.header in
      let replaced : Exec W (Result Recorder) =
        rewrite_cookie r key (find_cookie key (env.parse_cookies r.header)) in
      if key == "" then pure (ok r) else replaced

  abbrev pub and_then :
      (Recorder → Exec W (Result Recorder)) → Result Recorder → Exec W (Result Recorder)
  and_then step (err e) = pure (err e)
  and_then step (ok r) = step r

  -- `rewriteAccessTokens`
  unfoldable pub rewrite_access_tokens : Recorder → Exec W (Result Recorder)
  unfolding rewrite_body_access_tokens rewrite_header_access_tokens rewrite_cookie_access_tokens
  rewrite_access_tokens r =
      rewrite_body_access_tokens r
      >>= and_then rewrite_header_access_tokens
      >>= and_then rewrite_cookie_access_tokens
