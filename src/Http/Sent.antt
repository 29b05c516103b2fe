-- ===== src/Http/Sent.antt =====
-- What the client gets from a handler that touches headers, then fixes the status, and then writes.
use servicegateway.Prelude.{
  ℕ, String, ◌<>◌, ◌≡◌, refl, sym, ap, ◌∙◌, false, true, Bool-cases, eq_iff, inl, inr, ◌==◌, List,
  [], ◌∷◌, ◌++◌, arith,
}
use servicegateway.Http.{copy_body, Event, set, write_header, write, add_each, add_all}
use servicegateway.Http.Header.{HeaderMap, get, get-set_self}
use servicegateway.Http.Recorder.{
  Recorder, new_recorder, header_step, send_event, send_from, sent, send_from-append, IsHeaderEvent,
}
use text.Mathlib.TextLemmas.{append-nil, nil-append, append_assoc}

-- A handler that sets headers, then the status, and then writes the body.
abbrev pub writes : List String → List Event
writes [] = []
writes (b ∷ bs) = write b ∷ writes bs

abbrev pub concat : List String → String
concat [] = ""
concat (b ∷ bs) = b <> concat bs

-- All events of the list touch the header only.
abbrev pub HeadersOnly : List Event → Type 0
HeadersOnly [] = Unit
HeadersOnly (e ∷ es) = IsHeaderEvent e × HeadersOnly es

add_each-HeadersOnly :
    (k : String) (vs : List String) (es : List Event)
    → HeadersOnly es
    → HeadersOnly (add_each k vs ++ es)
add_each-HeadersOnly k [] es h = h
add_each-HeadersOnly k (v ∷ vs) es h = (tt, add_each-HeadersOnly k vs es h)

pub add_all-HeadersOnly : (h : HeaderMap) → HeadersOnly (add_all h)
unfolding add_all
add_all-HeadersOnly [] = tt
add_all-HeadersOnly ((k, vs) ∷ h) = add_each-HeadersOnly k vs (add_all h) (add_all-HeadersOnly h)

-- What a list of header events leaves alone.
pub record Untouched (r s : Recorder) : Type 0 where
  pub code : s.code ≡ r.code
  pub wrote : s.wrote ≡ r.wrote
  pub body : s.body ≡ r.body

send_event-Untouched : (r : Recorder) (e : Event) → IsHeaderEvent e → Untouched r (send_event r e)
unfolding send_event
send_event-Untouched r (write_header n) h = absurd h
send_event-Untouched r (write b) h = absurd h
send_event-Untouched r _ h = ground arith

pub send_from-Untouched :
    (r : Recorder) (es : List Event) → HeadersOnly es → Untouched r (send_from r es)
unfolding send_from
send_from-Untouched r [] h = record { code = refl; wrote = refl; body = refl }
send_from-Untouched r (e ∷ es) (h, hs) =
    let a = send_event-Untouched r e h in
    let b = send_from-Untouched (send_event r e) es hs in
    record { code = b.code ∙ a.code; wrote = b.wrote ∙ a.wrote; body = b.body ∙ a.body }

pub send_from-writes :
    (r : Recorder) (bs : List String)
    → ((send_from r (writes bs)).code ≡ r.code)
      × ((send_from r (writes bs)).body ≡ r.body <> concat bs)
unfolding send_from
send_from-writes r [] = (refl, sym (append-nil r.body))
send_from-writes r (b ∷ bs) =
    let (code, body) = send_from-writes (send_event r (write b)) bs in
    (code, body ∙ append_assoc r.body b (concat bs))

send_from-status :
    (r : Recorder) (n : ℕ) (bs : List String)
    → r.wrote ≡ false
    → r.body ≡ ""
    → ((send_from r (write_header n ∷ writes bs)).code ≡ n)
      × ((send_from r (write_header n ∷ writes bs)).body ≡ concat bs)
unfolding send_from
send_from-status r n bs fresh empty =
    let (code, body) = send_from-writes (send_event r (write_header n)) bs in
    (code ∙ ground arith, body ∙ rw (fresh, empty) (nil-append (concat bs)))

-- The status and the body that the client gets from such a handler.
pub sent-status :
    (hs : List Event) (n : ℕ) (bs : List String)
    → HeadersOnly hs
    → ((sent (hs ++ write_header n ∷ writes bs)).code ≡ n)
      × ((sent (hs ++ write_header n ∷ writes bs)).body ≡ concat bs)
sent-status hs n bs h =
    let start = send_from-Untouched new_recorder hs h in
    unfold sent in
    rw (send_from-append new_recorder hs (write_header n ∷ writes bs))
      (send_from-status (send_from new_recorder hs) n bs start.wrote start.body)

pub HeadersOnly-append :
    (es fs : List Event) → HeadersOnly es → HeadersOnly fs → HeadersOnly (es ++ fs)
HeadersOnly-append [] fs h k = k
HeadersOnly-append (e ∷ es) fs (h, hs) k = (h, HeadersOnly-append es fs hs k)

send_from-set :
    (r : Recorder) (k v : String) (n : ℕ) (b : String)
    → r.wrote ≡ false
    → get k (send_from r (set k v ∷ write_header n ∷ write b ∷ [])).header ≡ v
unfolding send_from
send_from-set r k v n b fresh = rw fresh (get-set_self k v r.header)

-- A header that is set last, before the status, reaches the client.
pub get-sent-set :
    (hs : List Event) (k v : String) (n : ℕ) (b : String)
    → HeadersOnly hs
    → get k (sent (hs ++ (set k v ∷ write_header n ∷ write b ∷ []))).header ≡ v
get-sent-set hs k v n b h =
    let start = send_from-Untouched new_recorder hs h in
    unfold sent in
    rw (send_from-append new_recorder hs (set k v ∷ write_header n ∷ write b ∷ []))
      (send_from-set (send_from new_recorder hs) k v n b start.wrote)

copy_body-writes : (b : String) → (bs : List String) × (copy_body b ≡ writes bs) × (concat bs ≡ b)
copy_body-writes b = elim (Bool-cases (b == "")) [
  | inl e ↦ ([], rw e, sym ((eq_iff b "").0 e))
  | inr e ↦ (b ∷ [], rw e, append-nil b)
]

-- What the client gets of a recorded body that is copied after header events and the status.
pub sent-copy_body :
    (hs : List Event) (n : ℕ) (b : String)
    → HeadersOnly hs
    → ((sent (hs ++ write_header n ∷ copy_body b)).code ≡ n)
      × ((sent (hs ++ write_header n ∷ copy_body b)).body ≡ b)
sent-copy_body hs n b only =
    let (bs, parts, whole) = copy_body-writes b in
    let (code, body) = sent-status hs n bs only in rw parts (code, body ∙ whole)

-- The header map that the events leave.
abbrev pub header_after : HeaderMap → List Event → HeaderMap
header_after h [] = h
header_after h (e ∷ es) = header_after (header_step h e) es

send_event-header :
    (r : Recorder) (e : Event)
    → r.wrote ≡ false
    → IsHeaderEvent e
    → (send_event r e).header ≡ header_step r.header e
unfolding send_event
send_event-header r (write_header n) fresh h = absurd h
send_event-header r (write b) fresh h = absurd h
send_event-header r _ fresh h = rw fresh

send_from-header :
    (r : Recorder) (es : List Event)
    → r.wrote ≡ false
    → HeadersOnly es
    → (send_from r es).header ≡ header_after r.header es
unfolding send_from
send_from-header r [] fresh only = refl
send_from-header r (e ∷ es) fresh (here, only) =
    send_from-header (send_event r e) es ((send_event-Untouched r e here).wrote ∙ fresh) only
    ∙ ap (λ h. header_after h es) (send_event-header r e fresh here)

send_from-closed : (r : Recorder) (bs : List String) → (send_from r (writes bs)).header ≡ r.header
unfolding send_from
send_from-closed r [] = refl
send_from-closed r (b ∷ bs) = send_from-closed (send_event r (write b)) bs

send_from-closed_status :
    (r : Recorder) (n : ℕ) (bs : List String)
    → r.wrote ≡ false
    → (send_from r (write_header n ∷ writes bs)).header ≡ r.header
unfolding send_from send_event
send_from-closed_status r n bs fresh =
    rw fresh (send_from-closed (record r { code = n; wrote = true }) bs)

-- The headers that the client gets are those that are set before the status.
pub sent-header :
    (hs : List Event) (n : ℕ) (b : String)
    → HeadersOnly hs
    → (sent (hs ++ write_header n ∷ copy_body b)).header ≡ header_after [] hs
sent-header hs n b only =
    let start = send_from-Untouched new_recorder hs only in
    let (bs, parts, whole) = copy_body-writes b in
    unfold sent in
    rw (parts, send_from-append new_recorder hs (write_header n ∷ writes bs))
      (send_from-closed_status (send_from new_recorder hs) n bs start.wrote
        ∙ send_from-header new_recorder hs refl only)
