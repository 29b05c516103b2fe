-- ===== src/Auth/Rest/Rewrite/Tokens.antt =====
-- What the rewriting of a provider's response puts in the place of a JWT.
use Prim.Native.String.{len}
use servicegateway.Prelude.{
  ◌++◌, [], ◌∷◌, String, ◌≡◌, refl, ◌∙◌, true, false, List, [], none, some, ◌==◌, if◌then◌else◌,
}
use text.Mathlib.TextLemmas.{nil-append}
use servicegateway.Prelude.Int.{ℤ}
use servicegateway.Text.{itoa}
use servicegateway.Effects.{returned}
use servicegateway.Http.{lookup}
use servicegateway.Http.Header
use servicegateway.Http.Header.{values_at, values_at-put, canonical, get, get-set, get-set_self}
use servicegateway.Http.Recorder.{Recorder}
use servicegateway.Proxy.Json.{Json}
use servicegateway.Auth.Types.{ok}
use servicegateway.Auth.Rest.Rewrite.{
  Cookie, find_cookie, set_cookie, rewrite_cookie_access_tokens, Rewriting, set_header, drained,
  jwt_body, rewrite_field, rewrite_body_access_tokens, rewrite_header_access_tokens,
  rewrite_access_tokens,
}

-- The recorder has the token as its body, with headers that say so, and the same requests for more.
record Replaced (r : Recorder) (token : String) (s : Recorder) : Type 0 where
  text : s.body ≡ token
  content_type : get "Content-Type" s.header ≡ "text/plain"
  length : get "Content-Length" s.header ≡ itoa (len token)
  other_header : get "X-Gateway-HeaderToken" s.header ≡ get "X-Gateway-HeaderToken" r.header
  other_cookie : get "X-Gateway-CookieToken" s.header ≡ get "X-Gateway-CookieToken" r.header

module _ {W : Type 0} (env : Rewriting W) (r : Recorder) (w : W) where
  jwt_body-header :
      (k token : String)
      → r.wrote ≡ true
      → get k (jwt_body env r token).header ≡ (
          if canonical "Content-Length" == canonical k
          then itoa (len token)
          else if canonical "Content-Type" == canonical k
          then "text/plain"
          else get k r.header)
  unfolding jwt_body set_header
  jwt_body-header k token wrote = rw (wrote, get-set, get-set)

  jwt_body-Replaced : (token : String) → r.wrote ≡ true → Replaced r token (jwt_body env r token)
  unfolding jwt_body set_header canonical
  jwt_body-Replaced token wrote = record {
    text = rw wrote (nil-append token);
    content_type = jwt_body-header "Content-Type" token wrote;
    length = jwt_body-header "Content-Length" token wrote;
    other_header = jwt_body-header "X-Gateway-HeaderToken" token wrote;
    other_cookie = jwt_body-header "X-Gateway-CookieToken" token wrote;
  }

  -- The response of a provider is a bare JWT, the headers ask for no more tokens, and the token
  -- store takes the JWT. Then the body that was a JWT is the token alone, with the token's length,
  -- and as plain text.
  pub bare_jwt :
      (token : String) (expiration : ℤ) (w₁ : W)
      → r.wrote ≡ true
      → get "Content-Type" r.header ≡ "application/jwt"
      → get "X-Gateway-HeaderToken" r.header ≡ ""
      → get "X-Gateway-CookieToken" r.header ≡ ""
      → env.add_token (record { jwt = r.body; allowed_applications = [] }) w
        ≡ (returned (ok (token, expiration)), w₁)
      → (r' : Recorder) × (rewrite_access_tokens env r w ≡ (returned (ok r'), w₁))
        × (r'.body ≡ token)
        × (get "Content-Type" r'.header ≡ "text/plain")
        × (get "Content-Length" r'.header ≡ itoa (len token))
  unfolding rewrite_access_tokens
  bare_jwt token expiration w₁ wrote jwt no_header no_cookie stored =
      let body = jwt_body-Replaced token wrote in
      (
        jwt_body env r token,
        rw (jwt, stored, body.other_header ∙ no_header, body.other_cookie ∙ no_cookie) refl,
        body.text,
        body.content_type,
        body.length,
      )

  -- The response asks for the rewriting of a header, and the token store takes its JWT. Then
  -- the header has the token, and the body and the status are as they were.
  pub header_token :
      (key token : String) (expiration : ℤ) (w₁ : W)
      → get "X-Gateway-HeaderToken" r.header ≡ key
      → (key == "") ≡ false
      → env.add_token (record { jwt = get key r.header; allowed_applications = [] }) w
        ≡ (returned (ok (token, expiration)), w₁)
      → (r' : Recorder) × (rewrite_header_access_tokens env r w ≡ (returned (ok r'), w₁))
        × (get key r'.header ≡ token)
        × (r'.body ≡ r.body)
        × (r'.code ≡ r.code)
  unfolding rewrite_header_access_tokens
  header_token key token expiration w₁ asked named stored = (
    set_header key token r,
    rw (asked, named, stored, asked),
    get-set_self key token r.header,
    refl,
    refl,
  )

  -- The response asks for the rewriting of a cookie that it sets, the token store takes the cookie's
  -- JWT, and the cookie with the token is valid. Then the new cookie is set after those that were
  -- there, all of which stay, the one with the JWT included.
  pub cookie_token :
      (key token : String) (cookie : Cookie) (expiration : ℤ) (w₁ : W)
      → get "X-Gateway-CookieToken" r.header ≡ key
      → (key == "") ≡ false
      → find_cookie key (env.parse_cookies r.header) ≡ some cookie
      → env.add_token (record { jwt = cookie.value; allowed_applications = [] }) w
        ≡ (returned (ok (token, expiration)), w₁)
      → (env.print_cookie (record cookie { value = token }) == "") ≡ false
      → (r' : Recorder) × (rewrite_cookie_access_tokens env r w ≡ (returned (ok r'), w₁))
        × (values_at "Set-Cookie" r'.header
            ≡ values_at "Set-Cookie" r.header
              ++ env.print_cookie (record cookie { value = token }) ∷ [])
  unfolding rewrite_cookie_access_tokens set_cookie Header.add canonical
  cookie_token key token cookie expiration w₁ asked named there stored valid =
      let printed = env.print_cookie (record cookie { value = token }) in
      (set_cookie printed r, rw (asked, named, there, stored) refl, rw (valid, values_at-put) refl)

  -- The response asks for the rewriting of a key of its JSON body, and the body is an object
  -- without that key. Then the rewriting succeeds, and the body is empty.
  pub missing_key :
      (fields : List (String × Json))
      → (get "Content-Type" r.header == "application/jwt") ≡ false
      → (get "X-Gateway-BodyToken" r.header == "") ≡ false
      → env.unmarshal_map r.body ≡ some fields
      → lookup (get "X-Gateway-BodyToken" r.header) fields ≡ none
      → (r' : Recorder) × (rewrite_body_access_tokens env r w ≡ (returned (ok r'), w))
        × (r'.body ≡ "")
        × (r'.header ≡ r.header)
  unfolding rewrite_body_access_tokens rewrite_field
  missing_key fields other asked decoded missing =
      (drained r, rw (other, asked, decoded, missing), refl, refl)
