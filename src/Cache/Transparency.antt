-- ===== src/Cache/Transparency.antt =====
-- Responses that pass through the response buffer of cache/cache.go, beside those that do not.
use servicegateway.Prelude.{ℕ, String, ◌<>◌, ◌≡◌, refl, sym, ◌∙◌, ap, List, [], ◌∷◌, ◌++◌}
use servicegateway.Http.{Event, write_header, write, add_all}
use servicegateway.Http.Recorder.{sent, IsHeaderEvent}
use servicegateway.Http.Sent.{writes, concat, HeadersOnly, add_all-HeadersOnly, sent-status}
use servicegateway.Cache.{
  ResponseBuffer, new_response_buffer, buffer_event, buffer_from, filled, dump,
}
use text.Mathlib.TextLemmas.{append-nil, nil-append, append_assoc}

record Kept (r s : ResponseBuffer) : Type 0 where
  status : s.status ≡ r.status
  buf : s.buf ≡ r.buf

buffer_event-Kept : (r : ResponseBuffer) (e : Event) → IsHeaderEvent e → Kept r (buffer_event r e)
unfolding buffer_event
buffer_event-Kept r (write_header n) h = absurd h
buffer_event-Kept r (write b) h = absurd h
buffer_event-Kept r _ h = record { status = refl; buf = refl }

buffer_from-writes :
    (r : ResponseBuffer) (bs : List String)
    → ((buffer_from r (writes bs)).status ≡ r.status)
      × ((buffer_from r (writes bs)).buf ≡ r.buf <> concat bs)
unfolding buffer_from
buffer_from-writes r [] = (refl, sym (append-nil r.buf))
buffer_from-writes r (b ∷ bs) =
    let (status, buf) = buffer_from-writes (buffer_event r (write b)) bs in
    (status, buf ∙ append_assoc r.buf b (concat bs))

buffer_from-status :
    (r : ResponseBuffer) (hs : List Event) (n : ℕ) (bs : List String)
    → HeadersOnly hs
    → ((buffer_from r (hs ++ write_header n ∷ writes bs)).status ≡ n)
      × ((buffer_from r (hs ++ write_header n ∷ writes bs)).buf ≡ r.buf <> concat bs)
unfolding buffer_from
buffer_from-status r [] n bs h = buffer_from-writes (buffer_event r (write_header n)) bs
buffer_from-status r (e ∷ hs) n bs (p, h) =
    let k = buffer_event-Kept r e p in
    let (status, buf) = buffer_from-status (buffer_event r e) hs n bs h in
    (status, buf ∙ ap (λ s. s <> concat bs) k.buf)

filled-status :
    (hs : List Event) (n : ℕ) (bs : List String)
    → HeadersOnly hs
    → ((filled (hs ++ write_header n ∷ writes bs)).status ≡ n)
      × ((filled (hs ++ write_header n ∷ writes bs)).body ≡ concat bs)
unfolding filled
filled-status hs n bs h =
    let (status, buf) = buffer_from-status new_response_buffer hs n bs h in
    (status, buf ∙ nil-append (concat bs))

sent-dump :
    (r : ResponseBuffer) → ((sent (dump r)).code ≡ r.status) × ((sent (dump r)).body ≡ r.body)
unfolding dump
sent-dump r =
    let (code, body) =
      sent-status (add_all r.header) r.status (r.body ∷ []) (add_all-HeadersOnly r.header) in
    (code, body ∙ append-nil r.body)

-- Let a handler touch only headers, then write a status `n`, then write the parts `bs` of its body.
-- Whether its events go to the client or are buffered, completed and dumped, the client gets the
-- status `n` and the body `bs`.
pub dump-filled-sent :
    (hs : List Event) (n : ℕ) (bs : List String)
    → HeadersOnly hs
    → ((sent (dump (filled (hs ++ write_header n ∷ writes bs)))).code ≡ n)
      × ((sent (dump (filled (hs ++ write_header n ∷ writes bs)))).body ≡ concat bs)
      × ((sent (hs ++ write_header n ∷ writes bs)).code ≡ n)
      × ((sent (hs ++ write_header n ∷ writes bs)).body ≡ concat bs)
dump-filled-sent hs n bs h =
    let events = hs ++ write_header n ∷ writes bs in
    let (code, body) = sent-dump (filled events) in
    let (status, text) = filled-status hs n bs h in
    let (code', body') = sent-status hs n bs h in (code ∙ status, body ∙ text, code', body')
