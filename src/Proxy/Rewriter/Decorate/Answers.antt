-- ===== src/Proxy/Rewriter/Decorate/Answers.antt =====
-- What the client gets from a decorated handler.
use Prim.Native.String.{len}
use servicegateway.Prelude.{
  String, ◌≡◌, refl, ◌∙◌, inl, inr, true, false, List, [], ◌∷◌, ◌++◌, Option, none, some, ◌==◌,
  Bool-cases,
}
use servicegateway.Text.{itoa}
use servicegateway.Effects.{returned}
use servicegateway.Http.{copy_body, Url, Request, Params, Handler, Event, set, write_header, write}
use servicegateway.Http.Header.{HeaderMap, get, del}
use servicegateway.Http.Recorder.{Recorder, recorded, sent}
use servicegateway.Http.Sent.{
  HeadersOnly, HeadersOnly-append, sent-status, sent-copy_body, get-sent-set,
}
use text.Mathlib.TextLemmas.{append-nil}
use mathlib.Core.List.{append_assoc}
use servicegateway.Proxy.Json.{Json, JsonLib}
use servicegateway.Proxy.Rewriter.{UrlLib, Mapping}
use servicegateway.Proxy.Rewriter.Walk.{walk_json-eq-kept}
use servicegateway.Proxy.Rewriter.Decorate.{
  can_handle, public_url, rewrite_value, rewrite, copy_and_rewrite_headers, finish, respond,
  decorate,
}

-- The client has the recorded status and the body `b`, with the length of that body.
pub record Finished (r : Recorder) (b : String) (s : Recorder) : Type 0 where
  pub code : s.code ≡ r.code
  pub body : s.body ≡ b
  pub length : get "Content-Length" s.header ≡ itoa (len b)

module _ (urls : UrlLib) (json : JsonLib) (mappings : List Mapping) where
  copy_and_rewrite_headers-HeadersOnly :
      (h : HeaderMap) (public : Url)
      → HeadersOnly (copy_and_rewrite_headers urls json mappings h public)
  unfolding copy_and_rewrite_headers
  copy_and_rewrite_headers-HeadersOnly [] public = tt
  copy_and_rewrite_headers-HeadersOnly ((k, vs) ∷ h) public =
      (tt, copy_and_rewrite_headers-HeadersOnly h public)

  rewrite_value-some :
      ((v : Json) → (s : String) × (json.marshal v ≡ some s))
      → (body : String) (req_url : Url) (o : Option Json)
      → (b : String) × (rewrite_value urls json mappings body req_url o ≡ some b)
  rewrite_value-some marshals body req_url none = (body, refl)
  rewrite_value-some marshals body req_url (some v) =
      let (v', walked) = walk_json-eq-kept urls mappings req_url v in
      let (s, done) = marshals v' in (s, rw walked done)

  -- `Rewrite` returns no error, if `json.Marshal` returns none for a decoded value.
  pub rewrite-some :
      ((v : Json) → (s : String) × (json.marshal v ≡ some s))
      → (body : String) (req_url : Url)
      → (b : String) × (rewrite urls json mappings body req_url ≡ some b)
  unfolding rewrite
  rewrite-some marshals body req_url =
      rewrite_value-some marshals body req_url (json.unmarshal body)

  finish-Finished :
      (r : Recorder) (public : Url) (b : String)
      → Finished r b (sent (finish urls json mappings r public b))
  unfolding finish
  finish-Finished r public b =
      let hs = copy_and_rewrite_headers urls json mappings r.header public in
      let only = copy_and_rewrite_headers-HeadersOnly r.header public in
      let length_set : Event = set "Content-Length" (itoa (len b)) in
      let (code, body) =
        sent-status (hs ++ length_set ∷ []) r.code (b ∷ [])
          (HeadersOnly-append hs (length_set ∷ []) only (tt, tt)) in
      let same = append_assoc hs (length_set ∷ []) (write_header r.code ∷ write b ∷ []) in
      record {
        code = rw (← same) code;
        body = rw (← same) (body ∙ append-nil b);
        length = get-sent-set hs "Content-Length" (itoa (len b)) r.code b only;
      }

  -- What is sent for a recorder that holds no JSON.
  sent-plain :
      (r : Recorder) (public : Url)
      → ((sent (
            copy_and_rewrite_headers urls json mappings r.header public
            ++ (write_header r.code ∷ copy_body r.body))).code
          ≡ r.code)
        × ((sent (
              copy_and_rewrite_headers urls json mappings r.header public
              ++ (write_header r.code ∷ copy_body r.body))).body
            ≡ r.body)
  sent-plain r public =
      sent-copy_body (copy_and_rewrite_headers urls json mappings r.header public) r.code r.body
        (copy_and_rewrite_headers-HeadersOnly r.header public)

  module _ (marshals : (v : Json) → (s : String) × (json.marshal v ≡ some s)) where
    respond-code :
        (req : Request) (r : Recorder) → (sent (respond urls json mappings req r)).code ≡ r.code
    unfolding respond
    respond-code req r = elim (Bool-cases (can_handle r.header)) [
      | inl json_body ↦ elim (Bool-cases (req.method == "HEAD")) [
        | inl head ↦ rw (json_body, head) (finish-Finished r (public_url req) r.body).code
        | inr other ↦
            let (b, e) = rewrite-some marshals r.body (public_url req) in
            rw (json_body, other, e) (finish-Finished r (public_url req) b).code
      ]
      | inr plain ↦ rw plain (sent-plain r (public_url req)).0
    ]

    -- A request that does not ask for `X-No-Rewrite`, and whose handler returns: the client gets the
    -- status that the handler gave to the recorder, for a JSON body, for `HEAD` and for any other
    -- body. The rewriter has no failure of its own, if `json.Marshal` has none for decoded values.
    pub decorate-code :
        {W : Type 0} (detect : String → String) (handler : Handler W) (req : Request)
        (params : Params) (w w₁ : W) (events : List Event)
        → get "X-No-Rewrite" req.header ≡ ""
        → handler (record req { header = del "Accept-Encoding" req.header }) params w
          ≡ (returned events, w₁)
        → (decorate urls json mappings detect handler req params w
            ≡ (returned (respond urls json mappings req (recorded detect events)), w₁))
          × ((sent (respond urls json mappings req (recorded detect events))).code
              ≡ (recorded detect events).code)
    unfolding decorate
    decorate-code detect handler req params w w₁ events asks ran =
        (rw (asks, ran), respond-code req (recorded detect events))

    -- For a recorded response whose content type is JSON, and a request that is not `HEAD`: the
    -- client gets the recorded status, the body that `Rewrite` returns, and a `Content-Length` that
    -- is the length of that body.
    pub respond-json :
        (req : Request) (r : Recorder)
        → can_handle r.header ≡ true
        → (req.method == "HEAD") ≡ false
        → (b : String) × (rewrite urls json mappings r.body (public_url req) ≡ some b)
          × Finished r b (sent (respond urls json mappings req r))
    unfolding respond
    respond-json req r json_body other =
        let (b, e) = rewrite-some marshals r.body (public_url req) in
        (b, e, rw (json_body, other, e) (finish-Finished r (public_url req) b))
