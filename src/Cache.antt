-- ===== src/Cache.antt =====
-- cache/cache.go: the caching middleware and its response buffer. The LRU cache of gcache is a
-- parameter: `Gcache` has its three operations, over a world that holds its contents.
pub mod Store
pub mod Replay
pub mod Policy
pub mod Transparency
mod Tests
use servicegateway.Prelude.{
  ℕ, String, ◌<>◌, Bool, true, false, not, ◌&&◌, ◌||◌, List, [], ◌∷◌, ◌++◌, ◌==◌, leb,
  if◌then◌else◌,
}
use servicegateway.Effects.{Exec, pure, ◌>>=◌, ◌>>◌}
use servicegateway.Http.{Request, Params, Handler, Event, add, write_header, write, add_all}
use servicegateway.Http.Header.{HeaderMap, get}
use servicegateway.Http.Recorder.{header_step}

-- `buf` collects what is written; `body` is filled by `complete`.
pub record ResponseBuffer : Type 0 where
  pub body : String
  pub buf : String
  pub header : HeaderMap
  pub status : ℕ
  pub complete : Bool

-- `NewResponseBuffer`
abbrev pub new_response_buffer : ResponseBuffer
new_response_buffer = record { body = ""; buf = ""; header = []; status = 200; complete = false }

-- `Header`, `WriteHeader` and `Write` of the buffer, one for each event of a handler. Unlike
-- net/http it keeps the last status.
pub buffer_event : ResponseBuffer → Event → ResponseBuffer
buffer_event r (write_header n) = record r { status = n }
buffer_event r (write b) = record r { buf = r.buf <> b }
buffer_event r e = record r { header = header_step r.header e }

pub buffer_from : ResponseBuffer → List Event → ResponseBuffer
unfolding buffer_event
buffer_from r [] = r
buffer_from r (e ∷ es) = buffer_from (buffer_event r e) es

-- `Complete`: the rest of `buf` is read into `body`.
pub complete : ResponseBuffer → ResponseBuffer
complete r = record r { body = r.buf; buf = ""; complete = true }

-- `Dump`
pub dump : ResponseBuffer → List Event
dump r = add_all r.header ++ (write_header r.status ∷ write r.body ∷ [])

-- The cache holds values of any Go type; the middleware only knows response buffers.
pub data Item : Type 0 where
  buffer : ResponseBuffer → Item
  foreign : Item

-- The results of `cache.Get`: a value, `KeyNotFoundError`, or another error.
pub data Lookup : Type 0 where
  found : Item → Lookup
  key_not_found : Lookup
  failed : Lookup

pub record Gcache (W : Type 0) : Type 0 where
  pub get_item : String → W → Lookup × W
  pub set_item : String → Item → W → W
  pub remove_item : String → W → W

-- `identifierForRequest`
pub identifier_for_request : Request → String
unfolding get
identifier_for_request req =
    let accept = get "Accept" req.header in
    if accept == "" then req.request_uri else req.request_uri <> "_" <> accept

-- A new buffer on which a handler has run, completed.
pub filled : List Event → ResponseBuffer
unfolding buffer_from complete
filled es = complete (buffer_from new_response_buffer es)

pub server_error : List Event
server_error = write_header 500 ∷ write "{\"msg\":\"internal server error\"}" ∷ []

-- `req.Header.Get("Cache-Control") != "no-cache"`
pub allows_cache : Request → Bool
allows_cache req = not (get "Cache-Control" req.header == "no-cache")

-- `err == gcache.KeyNotFoundError`
abbrev pub is_missing : Lookup → Bool
is_missing key_not_found = true
is_missing _ = false

-- The entry is there, or `Get` failed.
pub answer : Lookup → List Event
unfolding dump server_error
answer (found (buffer entry)) = add "X-Cache" "HIT" ∷ dump entry
answer (found foreign) = server_error
answer key_not_found = server_error
answer failed = server_error

module _ {W : Type 0} (c : Gcache W) where
  -- What follows a run of the handler: the buffer is stored if the response may be, and sent.
  pub keep : String → Bool → ResponseBuffer → Exec W (List Event)
  unfolding dump
  keep identifier use_cache buf w =
      if use_cache && not (leb 400 buf.status)
      then (pure (add "X-Cache" "MISS" ∷ dump buf)) (c.set_item identifier (buffer buf) w)
      else (pure (add "X-Cache" "PASS" ∷ dump buf)) w

  -- `useCache` is false, or the key is not there.
  pub refresh : Handler W → Request → Params → String → Bool → Exec W (List Event)
  refresh handler req params identifier use_cache =
      handler req params >>= λ events. keep identifier use_cache (filled events)

  -- The function that `DecorateHandler` returns.
  pub decorate_handler : Handler W → Handler W
  decorate_handler handler req params w =
      let identifier = identifier_for_request req in
      let use_cache = allows_cache req in
      let (entry, w') = c.get_item identifier w in
      if not use_cache || is_missing entry
      then refresh handler req params identifier use_cache w'
      else pure (answer entry) w'

  -- The function that `DecorateUnsafeHandler` returns.
  pub decorate_unsafe_handler : Handler W → Handler W
  decorate_unsafe_handler handler req params w =
      (handler req params >>= λ events. pure (add "X-Cache" "PURGED" ∷ events))
        (c.remove_item (identifier_for_request req) w)
