-- ===== src/Http/Tests.antt =====
-- Requests for the tests of the other modules, and runs of the recorder.
use servicegateway.Prelude.{String, ◌≡◌, refl, ◌∷◌, []}
use servicegateway.Http.{Request, add, write_header, write}
use servicegateway.Http.Header
use servicegateway.Http.Header.{HeaderMap}
use servicegateway.Http.Recorder.{recorded, sent}

-- A request for a path, with a method and headers.
abbrev pub request : String → String → HeaderMap → Request
request method path header = record {
  method = method;
  url = record { scheme = ""; host = ""; path = path; raw_query = "" };
  request_uri = path;
  host = "api.example";
  remote_addr = "10.0.0.1:5000";
  header = header;
  query = [];
  cookies = [];
  body = "";
}

-- A header that is added after the status is lost to the client, and not to the recorder.
late_header :
    ((sent (write_header 204 ∷ add "A" "1" ∷ [])).header ≡ [])
    × ((recorded (λ b. "text/plain") (write_header 204 ∷ add "A" "1" ∷ [])).header
        ≡ ("A", "1" ∷ []) ∷ [])
unfolding sent recorded Header.add Header.put Header.values_at Header.canonical
late_header = (refl, refl)

-- The recorder finds a content type for a body that comes first.
sniffing :
    (recorded (λ b. "text/plain") (write "x" ∷ [])).header
    ≡ ("Content-Type", "text/plain" ∷ []) ∷ []
unfolding recorded Header.set Header.put Header.get Header.values_at Header.canonical Header.has_key
sniffing = refl
