-- ===== src/Dispatcher/Options/Status.antt =====
-- The status that the handler of `buildOptionsHandler` (dispatcher/pathbased.go) sends.
use servicegateway.Prelude.{
  ℕ, String, ◌≡◌, refl, Bool, false, List, [], ◌∷◌, ◌++◌, inl, inr, ◌==◌, Bool-cases, if◌then◌else◌,
}
use mathlib.Core.List.{append_assoc}
use servicegateway.Effects.{returned}
use servicegateway.Http.{Request, Params, Handler, Event, set, write_header, add_all, copy_body}
use servicegateway.Http.Recorder.{
  Recorder, new_recorder, recorded, send_event, send_from, sent, send_from-append,
}
use servicegateway.Http.Sent.{
  HeadersOnly, HeadersOnly-append, add_all-HeadersOnly, send_from-Untouched,
}
use servicegateway.Dispatcher.Options.{allow_of, cors_header, options_events, build_options_handler}

late_status :
    (r : Recorder) (b : String) (n : ℕ)
    → r.wrote ≡ false
    → r.code ≡ 200
    → (send_from r (copy_body b ++ write_header n ∷ [])).code ≡ (if b == "" then n else 200)
unfolding send_from send_event
late_status r b n fresh code = elim (Bool-cases (b == "")) [
  | inl empty ↦ rw (empty, fresh) refl
  | inr full ↦ rw full code
]

sent-late :
    (hs : List Event) (b : String) (n : ℕ)
    → HeadersOnly hs
    → (sent (hs ++ (copy_body b ++ write_header n ∷ []))).code ≡ (if b == "" then n else 200)
unfolding sent
sent-late hs b n only =
    let start = send_from-Untouched new_recorder hs only in
    rw send_from-append (late_status (send_from new_recorder hs) b n start.wrote start.code)

-- The inner handler returns. Then the client gets the status that the inner handler recorded if it
-- wrote no body, and 200 if it did, whatever the recorded status was.
pub build_options_handler-status :
    {W : Type 0} (detect : String → String) (cors : Bool) (inner : Handler W) (req : Request)
    (params : Params) (events : List Event) (w w₁ : W)
    → inner req params w ≡ (returned events, w₁)
    → (sends : List Event) × (build_options_handler detect cors inner req params w
        ≡ (returned sends, w₁))
      × ((sent sends).code
          ≡ (if (recorded detect events).body == "" then (recorded detect events).code else 200))
unfolding build_options_handler options_events
build_options_handler-status detect cors inner req params events w w₁ ran =
    let r = recorded detect events in
    let h = if cors then cors_header (allow_of r.header) r.header else r.header in
    (
      options_events cors r,
      rw ran,
      rw
          (← append_assoc (add_all h) (set "Allow" (allow_of r.header) ∷ [])
            (copy_body r.body ++ write_header r.code ∷ []))
          (sent-late (add_all h ++ set "Allow" (allow_of r.header) ∷ []) r.body r.code (
            HeadersOnly-append (add_all h) (set "Allow" (allow_of r.header) ∷ [])
              (add_all-HeadersOnly h) (tt, tt))),
    )
