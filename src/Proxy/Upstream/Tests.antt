-- ===== src/Proxy/Upstream/Tests.antt =====
-- A backend behind the proxy.
use servicegateway.Prelude.{◌≡◌, refl, true, false, List, [], ◌∷◌}
use servicegateway.Effects.{returned}
use servicegateway.Http.{Request, Event}
use servicegateway.Http.Recorder.{sent}
use servicegateway.Http.Tests.{request}
use servicegateway.Config.{Application, Backend, ProxyConfiguration}
use servicegateway.Proxy.Upstream.{redirect, Client, handle_proxy_request}
use servicegateway.Proxy.Upstream.Answers.{relay-status}

abbrev backend : Backend
backend = record { url = "http://a"; service = ""; tag = ""; username = "u"; password = "p" }

abbrev pub app : Application
app = record {
  routing = record { type = "path"; path = "/a"; patterns = []; hostname = "" };
  backend = backend;
  auth = record { disable = false; writer = record { mode = "header"; name = "X-Token" } };
  caching = record { enabled = true; ttl = 0; auto_flush = true };
  rate_limiting = true;
}

abbrev pub cfg : ProxyConfiguration
cfg = record {
  strip_response_headers = ("Server", true) ∷ [];
  set_response_headers = ("X-By", "gateway") ∷ [];
  set_request_headers = ("X-By", "gateway") ∷ [];
  options_configuration = record { enabled = true; cors = true };
}

abbrev pub client : Client Unit
client = record {
  valid_request = λ m u. true;
  do_request = λ r w. (redirect 302 (("Location", "/b" ∷ []) ∷ []), w);
  host_of = λ a. "10.0.0.1";
  basic_auth = λ u p. "dTpw";
}

abbrev seen : Request
seen = request "GET" "/a" (("X-Forwarded-For", "1.2.3.4" ∷ []) ∷ [])

relay-status_example :
    (events : List Event) × ((handle_proxy_request client cfg seen "http://a/" app tt).0
      ≡ returned events)
    × ((sent events).code ≡ 302)
relay-status_example = relay-status client cfg seen "http://a/" app tt refl
