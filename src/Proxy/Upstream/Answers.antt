-- ===== src/Proxy/Upstream/Answers.antt =====
-- What a backend gets from proxy/handler.go, and the client of its response.
use servicegateway.Prelude.{
  ℕ, String, ◌≡◌, refl, sym, ◌∙◌, ap, Bool, true, false, List, [], ◌∷◌, ◌++◌, none, some, inl, inr,
  ◌==◌, eq_iff, Bool-cases, Option-cases,
}
use mathlib.Core.Option.{none-ne-some}
use servicegateway.Effects.{returned}
use servicegateway.Http.{Request, Event, lookup, add_each}
use servicegateway.Http.Header
use servicegateway.Http.Header.{HeaderMap, canonical, get, get-set, get-set_self, values_at-put}
use servicegateway.Http.Recorder.{sent, header_step}
use servicegateway.Http.Sent.{
  HeadersOnly, HeadersOnly-append, header_after, sent-copy_body, sent-header,
}
use servicegateway.Config.{Application, Backend, ProxyConfiguration}
use servicegateway.Proxy.Upstream.{
  Response, Sent, response, redirect, failed, Client, add_headers, set_headers, forwarded_for,
  kept_headers, set_events, proxy_header, proxy_request, head_events, relay, handle_proxy_request,
}

-- The status for the client.
abbrev pub status_of : Sent → ℕ
status_of (response r) = r.code
status_of (redirect code header) = code
status_of failed = 503

-- None of the configured headers has the name.
abbrev pub Unset : String → List (String × String) → Type 0
Unset name [] = Unit
Unset name ((k, v) ∷ m) = ((canonical k == canonical name) ≡ false) × Unset name m

get-set_headers :
    (name : String) (m : List (String × String)) (h : HeaderMap)
    → Unset name m
    → get name (set_headers m h) ≡ get name h
unfolding set_headers
get-set_headers name [] h unset = refl
get-set_headers name ((k, v) ∷ m) h (other, unset) =
    get-set_headers name m (Header.set k v h) unset ∙ rw (get-set, other)

set_events-HeadersOnly : (m : List (String × String)) → HeadersOnly (set_events m)
unfolding set_events
set_events-HeadersOnly [] = tt
set_events-HeadersOnly ((k, v) ∷ m) = (tt, set_events-HeadersOnly m)

add_each-HeadersOnly : (k : String) (vs : List String) → HeadersOnly (add_each k vs)
add_each-HeadersOnly k [] = tt
add_each-HeadersOnly k (v ∷ vs) = (tt, add_each-HeadersOnly k vs)

kept_headers-HeadersOnly :
    (strip : List (String × Bool)) (h : HeaderMap) → HeadersOnly (kept_headers strip h)
unfolding kept_headers
kept_headers-HeadersOnly strip [] = tt
kept_headers-HeadersOnly strip ((k, vs) ∷ h) = elim (Option-cases (lookup k strip)) [
  | inl e ↦ rw e (
      HeadersOnly-append (add_each k vs) (kept_headers strip h) (add_each-HeadersOnly k vs)
        (kept_headers-HeadersOnly strip h))
  | inr (b, e) ↦ rw e (kept_headers-HeadersOnly strip h)
]

-- The keys are in canonical form.
abbrev pub AllCanonical : HeaderMap → Type 0
AllCanonical [] = Unit
AllCanonical ((k, vs) ∷ h) = (canonical k ≡ k) × AllCanonical h

get-add_ne :
    (j k v : String) (h : HeaderMap)
    → (canonical k == canonical j) ≡ false
    → get j (Header.add k v h) ≡ get j h
unfolding get Header.add
get-add_ne j k v h other = rw (values_at-put, other)

header_after-append :
    (h : HeaderMap) (es fs : List Event)
    → header_after h (es ++ fs) ≡ header_after (header_after h es) fs
header_after-append h [] fs = refl
header_after-append h (e ∷ es) fs = header_after-append (header_step h e) es fs

header_after-set_events :
    (name : String) (h : HeaderMap) (m : List (String × String))
    → Unset name m
    → get name (header_after h (set_events m)) ≡ get name h
unfolding set_events
header_after-set_events name h [] unset = refl
header_after-set_events name h ((k, v) ∷ m) (other, unset) =
    header_after-set_events name (Header.set k v h) m unset ∙ rw (get-set, other)

header_after-add_values :
    (name k : String) (vs : List String) (h : HeaderMap)
    → (canonical k == canonical name) ≡ false
    → get name (header_after h (add_each k vs)) ≡ get name h
header_after-add_values name k [] h other = refl
header_after-add_values name k (v ∷ vs) h other =
    header_after-add_values name k vs (Header.add k v h) other ∙ get-add_ne name k v h other

-- A key that is not stripped is not the name that is.
key-name :
    (name k : String) (b : Bool) (strip : List (String × Bool))
    → canonical k ≡ k
    → canonical name ≡ name
    → lookup name strip ≡ some b
    → lookup k strip ≡ none
    → (canonical k == canonical name) ≡ false
key-name name k b strip k_form form stripped absent = elim (Bool-cases (k == name)) [
  | inl same ↦
      absurd
        (none-ne-some b (sym absent ∙ ap (λ x. lookup x strip) ((eq_iff k name).0 same) ∙ stripped))
  | inr other ↦ rw (k_form, form, other)
]

header_after-kept :
    (name : String) (b : Bool) (strip : List (String × Bool)) (hs h : HeaderMap)
    → AllCanonical hs
    → canonical name ≡ name
    → lookup name strip ≡ some b
    → get name (header_after h (kept_headers strip hs)) ≡ get name h
unfolding kept_headers
header_after-kept name b strip [] h keys form stripped = refl
header_after-kept name b strip ((k, vs) ∷ hs) h (k_form, keys) form stripped =
    elim (Option-cases (lookup k strip)) [
      | inl absent ↦
          rw (absent, header_after-append)
            (header_after-kept name b strip hs (header_after h (add_each k vs)) keys form stripped
              ∙ header_after-add_values name k vs h
                  (key-name name k b strip k_form form stripped absent))
      | inr (c, e) ↦ rw e (header_after-kept name b strip hs h keys form stripped)
    ]

module _ {W : Type 0} (client : Client W) (cfg : ProxyConfiguration) where
  abbrev headers : HeaderMap → List Event
  headers h = kept_headers cfg.strip_response_headers h ++ set_events cfg.set_response_headers

  headers-HeadersOnly : (h : HeaderMap) → HeadersOnly (headers h)
  headers-HeadersOnly h =
      HeadersOnly-append (kept_headers cfg.strip_response_headers h)
        (set_events cfg.set_response_headers)
        (kept_headers-HeadersOnly cfg.strip_response_headers h)
        (set_events-HeadersOnly cfg.set_response_headers)

  relay-status_of : (s : Sent) → (sent (relay client cfg s)).code ≡ status_of s
  unfolding relay head_events
  relay-status_of (response r) =
      (sent-copy_body (headers r.header) r.code r.body (headers-HeadersOnly r.header)).0
  relay-status_of (redirect code header) =
      (sent-copy_body (headers header) code "" (headers-HeadersOnly header)).0
  relay-status_of failed = unfold sent in refl

  -- No configured header is called `X-Forwarded-For`. Then the backend gets in `X-Forwarded-For` the
  -- addresses that the request came with, and then the address of the client.
  pub forwarded_for-kept :
      (req : Request) (backend : Backend)
      → Unset "X-Forwarded-For" cfg.set_request_headers
      → get "X-Forwarded-For" (proxy_header client cfg req backend)
        ≡ forwarded_for (get "X-Forwarded-For" req.header) (client.host_of req.remote_addr)
  unfolding proxy_header canonical
  forwarded_for-kept req backend unset = elim (Bool-cases (backend.username == "")) [
    | inl e ↦ rw e (
        get-set_headers "X-Forwarded-For" cfg.set_request_headers _ unset
        ∙ get-set_self "X-Forwarded-For" _ (Header.set "Host" req.host (add_headers req.header [])))
    | inr e ↦
        rw (e, get-set)
          (get-set_headers "X-Forwarded-For" cfg.set_request_headers _ unset
            ∙ get-set_self "X-Forwarded-For" _
                (Header.set "Host" req.host (add_headers req.header [])))
  ]

  -- `http.NewRequest` takes the request. Then the handler returns, for every result of the HTTP
  -- client, and the client gets the backend's status, that of a redirect included, or 503.
  pub relay-status :
      (req : Request) (target_url : String) (app : Application) (w : W)
      → client.valid_request req.method target_url ≡ true
      → (events : List Event) × ((handle_proxy_request client cfg req target_url app w).0
          ≡ returned events)
        × ((sent events).code
            ≡ status_of
                (client.do_request (proxy_request client cfg req target_url app.backend) w).0)
  unfolding handle_proxy_request
  relay-status req target_url app w taken =
      let s = (client.do_request (proxy_request client cfg req target_url app.backend) w).0 in
      (relay client cfg s, rw taken, relay-status_of s)

  -- The keys of the backend's header are in canonical form, as net/http leaves them, a header is
  -- among those to strip, under its canonical name, and it is not among those to set. Then the
  -- client does not get it.
  pub strip-get :
      (name : String) (b : Bool) (r : Response)
      → AllCanonical r.header
      → canonical name ≡ name
      → lookup name cfg.strip_response_headers ≡ some b
      → Unset name cfg.set_response_headers
      → get name (sent (relay client cfg (response r))).header ≡ ""
  unfolding relay head_events get
  strip-get name b r keys form stripped unset =
      ap (get name) (sent-header (headers r.header) r.code r.body (headers-HeadersOnly r.header))
      ∙ ap (get name) (
          header_after-append [] (kept_headers cfg.strip_response_headers r.header)
            (set_events cfg.set_response_headers))
      ∙ header_after-set_events name _ cfg.set_response_headers unset
      ∙ header_after-kept name b cfg.strip_response_headers r.header [] keys form stripped
