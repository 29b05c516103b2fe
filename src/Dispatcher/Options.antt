-- ===== src/Dispatcher/Options.antt =====
-- `buildOptionsHandler` of dispatcher/pathbased.go. The failure of a write to the client is left out.
pub mod Status
use servicegateway.Prelude.{String, Bool, List, [], ◌∷◌, ◌++◌, ◌==◌, if◌then◌else◌}
use servicegateway.Effects.{pure, ◌>>=◌}
use servicegateway.Http.{Handler, Event, set, write_header, add_all, copy_body}
use servicegateway.Http.Header
use servicegateway.Http.Header.{HeaderMap, get}
use servicegateway.Http.Recorder.{Recorder, recorded}

-- `recorder.Header().Get("Allow")`, or all methods.
pub allow_of : HeaderMap → String
unfolding get
allow_of h =
    let allow = get "Allow" h in
    if allow == "" then "GET, POST, PUT, DELETE, PATCH, OPTIONS" else allow

-- A header that is set if it is missing.
unfoldable pub set_default : String → String → HeaderMap → HeaderMap
unfolding Header.set get
set_default k v h = if get k h == "" then Header.set k v h else h

-- The headers for browsers.
pub cors_header : String → HeaderMap → HeaderMap
unfolding set_default Header.set
cors_header allow h = set_default "Access-Control-Max-Age" "86400" (
    set_default "Access-Control-Allow-Headers" "X-Requested-With, Authorization" (
      set_default "Access-Control-Allow-Credentials" "true" (
        set_default "Access-Control-Allow-Origin" "*"
          (Header.set "Access-Control-Allow-Methods" allow h))))

-- What is sent for a recorded response. The body is written before the status.
pub options_events : Bool → Recorder → List Event
unfolding allow_of cors_header
options_events cors r =
    let allow = allow_of r.header in
    add_all (if cors then cors_header allow r.header else r.header)
    ++ set "Allow" allow ∷ (copy_body r.body ++ write_header r.code ∷ [])

-- The handler that `buildOptionsHandler` returns.
pub build_options_handler : {W : Type 0} → (String → String) → Bool → Handler W → Handler W
unfolding options_events
build_options_handler detect cors inner req params =
    inner req params >>= λ events. pure (options_events cors (recorded detect events))
