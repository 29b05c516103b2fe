-- ===== src/Http/Recorder.antt =====
-- Two readers of a handler's events: the `ResponseRecorder` of net/http/httptest, and the response
-- that net/http sends.
use servicegateway.Prelude.{
  ℕ, String, ◌<>◌, ◌≡◌, refl, Bool, true, false, not, ◌||◌, List, [], ◌∷◌, ◌++◌, ◌==◌,
  if◌then◌else◌,
}
use servicegateway.Http.{Event, add, set, assign, write_header, write}
use servicegateway.Http.Header.{HeaderMap, has_key, get, put}
use servicegateway.Http.Header

-- `wrote` says that the status is fixed.
pub record Recorder : Type 0 where
  pub code : ℕ
  pub wrote : Bool
  pub header : HeaderMap
  pub body : String

abbrev pub new_recorder : Recorder
new_recorder = record { code = 200; wrote = false; header = []; body = "" }

-- The effect of an event on a header map.
abbrev pub header_step : HeaderMap → Event → HeaderMap
header_step h (add k v) = Header.add k v h
header_step h (set k v) = Header.set k v h
header_step h (assign k vs) = put k vs h
header_step h _ = h

-- The first write of a body fixes the status at 200 and, unless a header tells otherwise, sets the
-- content type that `http.DetectContentType` (`detect`) finds.
abbrev sniffed : (String → String) → String → HeaderMap → HeaderMap
sniffed detect b h =
    if has_key "Content-Type" h || not (get "Transfer-Encoding" h == "")
    then h
    else Header.set "Content-Type" (detect b) h

-- `ResponseRecorder`: `Header()` is the live map, also after the status is fixed.
unfoldable pub record_event : (String → String) → Recorder → Event → Recorder
record_event detect r (write_header n) = if r.wrote then r else record r { code = n; wrote = true }
record_event detect r (write b) =
    if r.wrote
    then record r { body = r.body <> b }
    else record { code = 200; wrote = true; header = sniffed detect b r.header; body = r.body <> b }
record_event detect r e = record r { header = header_step r.header e }

unfoldable pub record_from : (String → String) → Recorder → List Event → Recorder
unfolding record_event
record_from detect r [] = r
record_from detect r (e ∷ es) = record_from detect (record_event detect r e) es

-- The recorder after a handler has run on it.
unfoldable pub recorded : (String → String) → List Event → Recorder
unfolding record_from
recorded detect es = record_from detect new_recorder es

-- The response of net/http: status and header are fixed by the first `WriteHeader` or `Write`, and
-- what is done to them later is lost. Headers that net/http adds by itself are left out.
unfoldable pub send_event : Recorder → Event → Recorder
send_event r (write_header n) = if r.wrote then r else record r { code = n; wrote = true }
send_event r (write b) = record r { wrote = true; body = r.body <> b }
send_event r e = if r.wrote then r else record r { header = header_step r.header e }

unfoldable pub send_from : Recorder → List Event → Recorder
unfolding send_event
send_from r [] = r
send_from r (e ∷ es) = send_from (send_event r e) es

unfoldable pub sent : List Event → Recorder
unfolding send_from
sent es = send_from new_recorder es

pub send_from-append :
    (r : Recorder) (es fs : List Event) → send_from r (es ++ fs) ≡ send_from (send_from r es) fs
unfolding send_from
send_from-append r [] fs = refl
send_from-append r (e ∷ es) fs = send_from-append (send_event r e) es fs

pub record_from-append :
    (detect : String → String) (r : Recorder) (es fs : List Event)
    → record_from detect r (es ++ fs) ≡ record_from detect (record_from detect r es) fs
unfolding record_from
record_from-append detect r [] fs = refl
record_from-append detect r (e ∷ es) fs = record_from-append detect (record_event detect r e) es fs

-- Events that only touch the header.
abbrev pub IsHeaderEvent : Event → Type 0
IsHeaderEvent (write_header n) = ⊥
IsHeaderEvent (write b) = ⊥
IsHeaderEvent _ = Unit
