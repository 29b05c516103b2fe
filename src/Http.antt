-- ===== src/Http.antt =====
-- The parts of Go's net/http that the gateway's handlers work on: requests, header maps, response
-- writers and the recorder of net/http/httptest.
pub mod Header
pub mod Recorder
pub mod Sent
pub mod Tests
use servicegateway.Prelude.{ℕ, String, List, [], ◌∷◌, ◌++◌, Option, none, some, ◌==◌, if◌then◌else◌}
use servicegateway.Effects.{Exec}
use Header.{HeaderMap}

pub record Url : Type 0 where
  pub scheme : String
  pub host : String
  pub path : String
  pub raw_query : String

-- A request as a handler receives it. `query` and `cookies` are the parsed query parameters and
-- the parsed `Cookie` header, which `req.URL.Query()` and `req.Cookie(name)` read.
pub record Request : Type 0 where
  pub method : String
  pub url : Url
  pub request_uri : String
  pub host : String
  pub remote_addr : String
  pub header : HeaderMap
  pub query : List (String × String)
  pub cookies : List (String × String)
  pub body : String

-- The first value under a name.
unfoldable pub lookup {ℓ} : {V : Type ℓ} → String → List (String × V) → Option V
lookup k [] = none
lookup k ((j, v) ∷ m) = if j == k then some v else lookup k m

-- What a handler does to its response writer, in order. `assign` is `rw.Header()[k] = values`,
-- which does not put the name in canonical form.
pub data Event : Type 0 where
  add : String → String → Event
  set : String → String → Event
  assign : String → List String → Event
  write_header : ℕ → Event
  write : String → Event

-- The path parameters of httprouter.
abbrev pub Params : Type 0
Params = List (String × String)

-- `httprouter.Handle`. Handlers only write to the writer that they are given, so a handler returns
-- what it writes.
abbrev pub Handler : Type 0 → Type 0
Handler W = Request → Params → Exec W (List Event)

abbrev pub add_each : String → List String → List Event
add_each k [] = []
add_each k (v ∷ vs) = add k v ∷ add_each k vs

-- `for k, values := range h { for _, v := range values { rw.Header().Add(k, v) } }`
unfoldable pub add_all : HeaderMap → List Event
add_all [] = []
add_all ((k, vs) ∷ h) = add_each k vs ++ add_all h

-- A call of `mux.GET` and its like.
pub record Route (W : Type 0) : Type 0 where
  pub method : String
  pub path : String
  pub handler : Handler W

-- `io.Copy` of a body to the writer: an empty one is not written.
abbrev pub copy_body : String → List Event
copy_body b = if b == "" then [] else write b ∷ []
