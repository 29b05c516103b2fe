-- ===== src/Proxy/Upstream.antt =====
-- proxy/handler.go: a request is sent to a backend, and its response to the client. The HTTP client
-- and net are parameters; the metrics are left out.
pub mod Answers
pub mod Tests
use servicegateway.Prelude.{
  ℕ, String, ◌<>◌, Bool, List, [], ◌∷◌, ◌++◌, Option, none, some, ◌==◌, if◌then◌else◌,
}
use servicegateway.Effects.{Exec, pure, call, ◌>>=◌}
use servicegateway.Http.{Request, Event, set, write_header, write, lookup, add_each, copy_body}
use servicegateway.Http.Header
use servicegateway.Http.Header.{HeaderMap, get}
use servicegateway.Config.{Application, Backend, ProxyConfiguration}

-- The `http.Request` for the backend.
pub record ProxyRequest : Type 0 where
  pub method : String
  pub url : String
  pub raw_query : String
  pub header : HeaderMap
  pub body : String

-- A response with what can be read of its body.
pub record Response : Type 0 where
  pub code : ℕ
  pub header : HeaderMap
  pub body : String

-- The results of `Client.Do`: a response; the error `redirectRequest` of `CheckRedirect`, with the
-- response, whose body is closed; another error.
pub data Sent : Type 0 where
  response : Response → Sent
  redirect : ℕ → HeaderMap → Sent
  failed : Sent

-- What the handler calls: whether `http.NewRequest` takes a method and a URL, `Client.Do`, the host
-- that `net.SplitHostPort` finds ("" for an error), and the credentials of `SetBasicAuth`.
pub record Client (W : Type 0) : Type 0 where
  pub valid_request : String → String → Bool
  pub do_request : ProxyRequest → W → Sent × W
  pub host_of : String → String
  pub basic_auth : String → String → String

-- `UnavailableError`
abbrev pub unavailable_error : List Event
unavailable_error =
    set "Content-Type" "application/json"
    ∷ write_header 503
    ∷ write "{\"msg\": \"service unavailable\", \"reason\": \"no can do; sorry.\"}"
    ∷ []

-- `for header, values := range req.Header { for _, value := range values { Add(header, value) } }`
pub add_values : String → List String → HeaderMap → HeaderMap
unfolding Header.add
add_values k [] h = h
add_values k (v ∷ vs) h = add_values k vs (Header.add k v h)

pub add_headers : HeaderMap → HeaderMap → HeaderMap
unfolding add_values
add_headers [] h = h
add_headers ((k, vs) ∷ m) h = add_headers m (add_values k vs h)

-- `for header, value := range ... { Set(header, value) }`
pub set_headers : List (String × String) → HeaderMap → HeaderMap
unfolding Header.set
set_headers [] h = h
set_headers ((k, v) ∷ m) h = set_headers m (Header.set k v h)

-- The value of `X-Forwarded-For`: the address is added to those that the client sent.
pub forwarded_for : String → String → String
forwarded_for seen ip = if seen == "" then ip else seen <> ", " <> ip

-- `if _, ok := ...; ok { continue }`
abbrev pub unless_stripped : Option Bool → List Event → List Event → List Event
unless_stripped (some b) here rest = rest
unless_stripped none here rest = here ++ rest

-- The headers of the response that are not stripped.
pub kept_headers : List (String × Bool) → HeaderMap → List Event
unfolding lookup
kept_headers strip [] = []
kept_headers strip ((k, vs) ∷ h) =
    let rest = kept_headers strip h in unless_stripped (lookup k strip) (add_each k vs) rest

pub set_events : List (String × String) → List Event
set_events [] = []
set_events ((k, v) ∷ m) = set k v ∷ set_events m

module _ {W : Type 0} (client : Client W) (cfg : ProxyConfiguration) where
  abbrev pub with_basic_auth : Backend → HeaderMap → HeaderMap
  unfolding Header.set
  with_basic_auth backend h =
      if backend.username == ""
      then h
      else Header.set "Authorization"
          ("Basic " <> client.basic_auth backend.username backend.password) h

  -- The headers for the backend.
  pub proxy_header : Request → Backend → HeaderMap
  unfolding add_headers set_headers forwarded_for Header.set get
  proxy_header req backend = with_basic_auth backend (
      set_headers cfg.set_request_headers (
        Header.set "X-Forwarded-For"
          (forwarded_for (get "X-Forwarded-For" req.header) (client.host_of req.remote_addr))
          (Header.set "Host" req.host (add_headers req.header []))))

  pub proxy_request : Request → String → Backend → ProxyRequest
  unfolding proxy_header
  proxy_request req target_url backend = record {
    method = req.method;
    url = target_url;
    raw_query = req.url.raw_query;
    header = proxy_header req backend;
    body = req.body;
  }

  -- The header of the response, and its status.
  pub head_events : ℕ → HeaderMap → List Event → List Event
  unfolding kept_headers set_events
  head_events code header body =
      (kept_headers cfg.strip_response_headers header ++ set_events cfg.set_response_headers)
      ++ write_header code ∷ body

  pub relay : Sent → List Event
  unfolding head_events
  relay (response r) = head_events r.code r.header (copy_body r.body)
  relay (redirect code header) = head_events code header []
  relay failed = unavailable_error

  -- `HandleProxyRequest`
  pub handle_proxy_request : Request → String → Application → Exec W (List Event)
  unfolding proxy_request relay
  handle_proxy_request req target_url app =
      let forwarded : Exec W (List Event) =
        call (client.do_request (proxy_request req target_url app.backend)) >>= λ r.
        pure (relay r) in
      if client.valid_request req.method target_url then forwarded else pure unavailable_error
