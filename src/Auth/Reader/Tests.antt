-- ===== src/Auth/Reader/Tests.antt =====
-- Requests that carry tokens in several places.
use servicegateway.Prelude.{◌≡◌, refl, [], ◌∷◌}
use servicegateway.Http.Tests.{request}
use servicegateway.Http.Header.{HeaderMap}
use servicegateway.Auth.Types.{ok, err, plain}
use servicegateway.Auth.Reader.{token_string_from_request}

abbrev headers : HeaderMap
headers = ("X-Jwt", "J" ∷ []) ∷ ("Authorization", "Bearer T" ∷ []) ∷ []

-- The header `Authorization` comes before the others, and another scheme in it is an error.
authorization_first :
    (token_string_from_request (request "GET" "/a" headers) ≡ ok "T")
    × (token_string_from_request
          (record (request "GET" "/a" headers) { cookies = ("ACCESSTOKEN", "C") ∷ [] })
        ≡ ok "T")
    × (token_string_from_request
          (request "GET" "/a" (("Authorization", "Basic T" ∷ []) ∷ ("X-Jwt", "J" ∷ []) ∷ []))
        ≡ err (plain "authorization is not supported"))
unfolding token_string_from_request
authorization_first = (refl, refl, refl)
