-- ===== src/Auth/Writer.antt =====
-- auth/writer.go: how a JWT is put into the request for the backend.
use servicegateway.Prelude.{String, ◌<>◌}
use servicegateway.Http.{Request}
use servicegateway.Http.Header.{set}

-- The implementations of `TokenWriter`.
pub data TokenWriter : Type 0 where
  header_token_writer : String → TokenWriter
  authorization_token_writer : TokenWriter

-- The header that a writer sets.
abbrev pub header_name : TokenWriter → String
header_name (header_token_writer name) = name
header_name authorization_token_writer = "Authorization"

-- The value that it gets.
abbrev pub header_value : TokenWriter → String → String
header_value (header_token_writer name) jwt = jwt
header_value authorization_token_writer jwt = "Bearer " <> jwt

-- `WriteTokenToRequest`
unfoldable pub write_token_to_request : TokenWriter → String → Request → Request
unfolding set
write_token_to_request writer jwt req = record req {
  header = set (header_name writer) (header_value writer jwt) req.header;
}
