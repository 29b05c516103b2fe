-- ===== src/Auth/Session/Tests.antt =====
-- A log-in at a provider that grants every one, and a request with its token.
use servicegateway.Prelude.{String, ◌≡◌, refl, List, [], ◌∷◌, Option, none, some, eq_refl}
use servicegateway.Prelude.Int.{pos}
use servicegateway.Effects.{returned, pure}
use servicegateway.Http.{Request, Handler, Event, lookup, write, write_header}
use servicegateway.Http.Header.{get}
use servicegateway.Http.Recorder.{sent, recorded}
use servicegateway.Http.Tests.{request}
use servicegateway.Proxy.Upstream.Tests.{app}
use servicegateway.Auth.Types.{JwtResponse, ok}
use servicegateway.Auth.TokenStore.{
  TokenStore, LocalItem, cached, Lru, remember_added, decorated_add_token, decorated_get_token,
}
use servicegateway.Auth.TokenStore.LocalCache.{IsLru}
use servicegateway.Auth.Reader.{token_from_request}
use servicegateway.Auth.Handler.{HandlerEnv, is_authenticated, authenticate_token, check, remember}
use servicegateway.Auth.Rest.{RestEnv, writer_of, is_provider, is_allowed}
use servicegateway.Auth.Rest.Access.{decorated}
use servicegateway.Auth.Rest.Tests.{gateway}
use servicegateway.Auth.Login.{granted}
use servicegateway.Auth.Login.Routes.{Service, post_handler}
use servicegateway.Auth.Writer.{write_token_to_request}
use servicegateway.Auth.Session.{with_token, passed_on, log_in_then_request}

-- The entries of the local cache.
abbrev Entries : Type 0
Entries = List (String × LocalItem)

abbrev view : String → Entries → Option LocalItem
view k w = lookup k w

abbrev lru : Lru Entries
lru = record { add = λ k i w. (k, i) ∷ w; get = λ k w. (view k w, w) }

lru-IsLru : IsLru lru view
unfolding lookup
lru-IsLru = record { get_view = λ k w. refl; add_self = λ k i w. rw eq_refl }

abbrev store : TokenStore Entries
store = record {
  add_token = λ r. pure (ok ("T", pos 9));
  set_token = λ t r. pure (ok (pos 9));
  get_token = λ t. pure (ok (record { jwt = ""; allowed_applications = [] }));
  get_all_tokens = pure (ok []);
}

abbrev response : JwtResponse
response = record { jwt = "J"; allowed_applications = "one" ∷ [] }

abbrev service : Service Entries
service = record {
  authenticate = λ u p b. pure (granted response);
  add_token = decorated_add_token lru store;
  unmarshal_request = λ s. some ("u", "p");
  unmarshal_map = λ s. some [];
  marshal_map = λ o. some "O";
  marshal_response = λ t e. some t;
  format_time = λ e. "E";
}

-- Every JWT verifies, and the expiry times are forgotten at once.
abbrev env : HandlerEnv Entries
env = record {
  now = λ w. (5, w);
  exp_cache = record { get = λ k w. (none, w); set = λ k i ttl w. w };
  token_from_request = token_from_request (decorated_get_token lru store);
  verify_token = λ j. pure (ok (record { expires_at = pos 9 }));
}

abbrev rest : RestEnv Entries
rest = record {
  is_authenticated = is_authenticated env;
  listeners = [];
  rewriting = record {
    add_token = decorated_add_token lru store;
    unmarshal_map = λ s. none;
    marshal_map = λ m. none;
    parse_cookies = λ h. [];
    print_cookie = λ c. "";
    detect = λ b. "text/plain";
  };
}

abbrev page : List Event
page = write_header 201 ∷ write "x" ∷ []

abbrev backend : Handler Entries
backend req params = pure page

abbrev logged_in : Entries
logged_in = ("T", cached (record { token = response; exp = pos 9 })) ∷ []

abbrev login_request : Request
login_request = request "POST" "/authenticate" []

abbrev get_request : Request
get_request = request "GET" "/a" []

log_in_then_request_example :
    ((answer : List Event) × (post_handler service gateway.authentication login_request [] []
        ≡ (returned answer, logged_in))
      × ((sent answer).code ≡ 200)
      × ((sent answer).body ≡ "T"))
    × (get "X-Token" (passed_on app "T" response get_request).header ≡ "J")
    × (sends : List Event) × (decorated rest backend "one" app gateway
          (with_token "T" get_request)
          []
          logged_in
        ≡ (returned sends, logged_in))
    × ((sent sends).code ≡ 201)
    × ((sent sends).body ≡ "x")
unfolding lookup decorated_add_token remember_added authenticate_token check remember is_provider
    writer_of recorded is_allowed write_token_to_request
log_in_then_request_example =
    log_in_then_request lru view store lru-IsLru service env rest refl refl refl gateway "one" app
      backend refl login_request get_request [] [] "u" "p" [] response "T" "T" (pos 9) page [] []
      logged_in logged_in logged_in logged_in refl refl refl refl refl refl refl refl refl refl
