-- ===== src/Auth/Reader/Sources.antt =====
-- The reader of auth/reader.go on requests that a writer of auth/writer.go has changed.
use servicegateway.Prelude.{String, ◌≡◌, refl, ◌==◌, inl, inr, false, Bool-cases, eq_iff}
use Prim.Native.Char.{Char}
use Prim.Native.String.{◌∷◌}
use text.Mathlib.TextLemmas.{nil-append, cons-append, cons-ne-nil}
use servicegateway.Text.{split_two}
use servicegateway.Http.{Request}
use servicegateway.Http.Header.{get-set_self}
use servicegateway.Auth.Types.{ok}
use servicegateway.Auth.Reader.{token_string_from_request}
use servicegateway.Auth.Writer.{authorization_token_writer, write_token_to_request}

cons_nonempty : (c : Char) (s : String) → ((c ∷ s) == "") ≡ false
cons_nonempty c s = elim (Bool-cases ((c ∷ s) == "")) [
  | inl empty ↦ absurd (cons-ne-nil c s ((eq_iff (c ∷ s) "").0 empty))
  | inr other ↦ other
]

-- A request into which the authorization writer has put a token carries that token for the reader,
-- whatever cookies, headers and parameters it has besides.
pub token_string-written :
    (token : String) (req : Request)
    → token_string_from_request (write_token_to_request authorization_token_writer token req)
      ≡ ok token
unfolding token_string_from_request write_token_to_request split_two
token_string-written token req = rw get-set_self (
    rw
      (
        cons-append, cons-append, cons-append, cons-append, cons-append, cons-append, cons-append,
        nil-append, cons_nonempty,
      )
      refl)
