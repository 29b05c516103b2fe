-- ===== src/Proxy/Rewriter/Decorate.antt =====
-- `Rewrite`, `CanHandle`, `copyAndRewriteHeaders` and `Decorate` of proxy/hostrewriter.go.
pub mod Answers
use Prim.Native.String.{len}
use servicegateway.Prelude.{
  String, Bool, false, not, ◌||◌, List, [], ◌∷◌, ◌++◌, map, Option, none, some, ◌==◌, if◌then◌else◌,
}
use servicegateway.Text.{has_prefix, itoa}
use servicegateway.Effects.{pure, ◌>>=◌}
use servicegateway.Http.{copy_body, Url, Request, Handler, Event, set, assign, write_header, write}
use servicegateway.Http.Header.{HeaderMap, get, del}
use servicegateway.Http.Recorder.{Recorder, recorded}
use servicegateway.Proxy.Json.{Json, JsonLib}
use servicegateway.Proxy.Rewriter.{
  UrlLib, Mapping, Rewritten, mapped, unmappable, bad_url, Walked, kept, removed, failed,
  rewrite_url, walk_json,
}

-- `CanHandle`
unfoldable pub can_handle : HeaderMap → Bool
unfolding has_prefix get
can_handle h = has_prefix (get "content-type" h) "application/json"

-- The URL under which the client sent the request.
pub public_url : Request → Url
unfolding get
public_url req =
    let proto = get "X-Forwarded-Proto" req.header in
    record req.url {
      host = req.host;
      scheme =
          if proto == "https" || proto == "http"
          then proto
          else if req.url.scheme == ""
          then "https"
          else req.url.scheme;
    }

abbrev pub server_error : List Event
server_error = write_header 500 ∷ write "{\"msg\":\"internal server error\"}" ∷ []

module _ (urls : UrlLib) (json : JsonLib) (mappings : List Mapping) where
  -- What `Rewrite` does with a value that was walked; `none` is an error.
  abbrev pub reencode : Walked Json → Option String
  reencode (kept v) = json.marshal v
  reencode removed = none
  reencode (failed e) = none

  -- A body that is no JSON is left as it is.
  abbrev pub rewrite_value : String → Url → Option Json → Option String
  rewrite_value body req_url none = some body
  rewrite_value body req_url (some v) = reencode (walk_json urls mappings req_url v false)

  -- `Rewrite`
  pub rewrite : String → Url → Option String
  rewrite body req_url = rewrite_value body req_url (json.unmarshal body)

  abbrev location_result : String → Rewritten → String
  location_result value (mapped new_url) = new_url
  location_result value unmappable = value
  location_result value bad_url = value

  -- A value of the header `Location`; it stays if the rewriter has no URL for it.
  abbrev pub rewrite_location : Url → String → String
  rewrite_location public value = location_result value (rewrite_url urls mappings public value)

  -- `copyAndRewriteHeaders`
  pub copy_and_rewrite_headers : HeaderMap → Url → List Event
  copy_and_rewrite_headers [] public = []
  copy_and_rewrite_headers ((k, values) ∷ h) public =
      assign k (if k == "Location" then map (rewrite_location public) values else values)
      ∷ copy_and_rewrite_headers h public

  -- A body that is sent with its length.
  pub finish : Recorder → Url → String → List Event
  finish recorder public b =
      copy_and_rewrite_headers recorder.header public
      ++ (set "Content-Length" (itoa (len b)) ∷ write_header recorder.code ∷ write b ∷ [])

  abbrev pub finish_or_fail : Recorder → Url → Option String → List Event
  finish_or_fail recorder public none = server_error
  finish_or_fail recorder public (some b) = finish recorder public b

  -- What is sent after the handler has run on a recorder.
  pub respond : Request → Recorder → List Event
  unfolding public_url can_handle
  respond req recorder =
      let public = public_url req in
      if can_handle recorder.header
      then if req.method == "HEAD"
        then finish recorder public recorder.body
        else finish_or_fail recorder public (rewrite recorder.body public)
      else copy_and_rewrite_headers recorder.header public
        ++ (write_header recorder.code ∷ copy_body recorder.body)

  -- The function that `Decorate` returns; `detect` is `http.DetectContentType`.
  pub decorate : {W : Type 0} → (String → String) → Handler W → Handler W
  decorate detect handler req params =
      if not (get "X-No-Rewrite" req.header == "")
      then handler req params
      else (handler (record req { header = del "Accept-Encoding" req.header }) params >>= λ events.
          pure (respond req (recorded detect events)))
