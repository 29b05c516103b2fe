-- ===== src/Auth/Reader.antt =====
-- auth/reader.go: where a request may carry its token.
pub mod Sources
mod Tests
use servicegateway.Prelude.{String, not, Option, none, some, ◌==◌, if◌then◌else◌}
use servicegateway.Text.{split_two}
use servicegateway.Effects.{Exec, pure, ◌>>=◌}
use servicegateway.Http.{Request, lookup}
use servicegateway.Http.Header.{get}
use servicegateway.Auth.Types.{
  JwtResponse, no_token_error, validation_error, plain, Result, ok, err,
}

abbrev pub or_empty : Option String → String
or_empty none = ""
or_empty (some s) = s

-- The sources behind the cookies: the headers and the query parameter.
pub from_rest : Request → Result String
unfolding get lookup
from_rest req =
    let jwt_header = get "X-JWT" req.header in
    let access_header = get "x-access-token" req.header in
    let token_param = or_empty (lookup "access_token" req.query) in
    if not (jwt_header == "")
    then ok jwt_header
    else if not (access_header == "")
    then ok access_header
    else if not (token_param == "")
    then ok token_param
    else err no_token_error

-- The sources behind the header `Authorization`: two cookies, then the rest.
pub from_cookies : Request → Result String
unfolding from_rest lookup
from_cookies req = elim (lookup "ACCESSTOKEN" req.cookies) [
  | some value ↦ ok value
  | none ↦ elim (lookup "access_token" req.cookies) [ some value ↦ ok value | none ↦ from_rest req ]
]

-- What `strings.SplitN(authHeader, " ", 2)` leaves to do.
abbrev pub from_elements : Request → String × Option String → Result String
from_elements req (scheme, token) =
    if not (scheme == "Bearer")
    then err (plain "authorization is not supported")
    else elim token [ some t ↦ ok t | none ↦ from_cookies req ]

-- `tokenStringFromRequest`
pub token_string_from_request : Request → Result String
unfolding from_cookies split_two get
token_string_from_request req =
    let auth_header = get "Authorization" req.header in
    if auth_header == "" then from_cookies req else from_elements req (split_two b' ' auth_header)

-- The error of `GetToken` is passed on if it is `NoTokenError`, and wrapped otherwise.
abbrev pub wrap_error : Result JwtResponse → Result JwtResponse
wrap_error (ok token) = ok token
wrap_error (err no_token_error) = err no_token_error
wrap_error (err (validation_error bits)) = err (plain "error while loading JWT for token")
wrap_error (err (plain s)) = err (plain "error while loading JWT for token")

module _ {W : Type 0} (get_token : String → Exec W (Result JwtResponse)) where
  abbrev pub load_token : Result String → Exec W (Result JwtResponse)
  load_token (err e) = pure (err e)
  load_token (ok token_string) = get_token token_string >>= λ r. pure (wrap_error r)

  -- `TokenFromRequest`
  abbrev pub token_from_request : Request → Exec W (Result JwtResponse)
  token_from_request req = load_token (token_string_from_request req)
