-- ===== src/Dispatcher/Routes.antt =====
-- `RegisterApplication` of dispatcher/no_integration_dispatcher.go and dispatcher/consul_dispatcher.go,
-- whose bodies are the same. The router of httprouter and its check for conflicts are left out: the
-- result is the list of what is registered.
pub mod Guards
use servicegateway.Prelude.{
  String, ◌<>◌, List, [], ◌∷◌, ◌++◌, Option, none, some, ◌==◌, if◌then◌else◌,
}
use servicegateway.Text.{trim_right}
use servicegateway.Http.{Route, Handler}
use servicegateway.Config.{Application, Configuration, ProxyConfiguration}
use servicegateway.Proxy.Json.{JsonLib}
use servicegateway.Proxy.Rewriter.{Regexp, UrlLib, Mapping, new_host_rewriter}
use servicegateway.Proxy.Rewriter.Decorate.{decorate}
use servicegateway.Proxy.Upstream.{Client}
use servicegateway.Dispatcher.Behaviours.{Behavior, apply_all}
use servicegateway.Dispatcher.Closures.{backend_url, path_handle, pattern_handle}
use servicegateway.Dispatcher.Options.{build_options_handler}

-- regexp: `Compile`, and the expression ":([a-zA-Z0-9]+)" with its `ReplaceAllString` by
-- "(?P<$1>[^/]+?)" and its `FindAllStringSubmatch`.
pub record Patterns : Type 0 where
  pub compile : String → Option Regexp
  pub replace_parameters : String → String
  pub find_parameters : String → List (String × String)

-- What a dispatcher holds or calls.
pub record Dispatcher (W : Type 0) : Type 1 where
  pub client : Client W
  pub urls : UrlLib
  pub json : JsonLib
  pub patterns : Patterns
  pub detect : String → String
  pub proxy : ProxyConfiguration
  pub behaviors : List (Behavior W)

-- `m[k] = v`
abbrev pub put_pattern : String → String → List (String × String) → List (String × String)
put_pattern k v [] = (k, v) ∷ []
put_pattern k v ((j, u) ∷ m) =
    let rest = put_pattern k v m in if j == k then (k, v) ∷ m else (j, u) ∷ rest

-- The mapping for patterns: the target as an expression, and the pattern.
pub pattern_mapping :
    (String → String) → List (String × String) → List (String × String) → List (String × String)
pattern_mapping replace [] m = m
pattern_mapping replace ((pattern, target) ∷ ps) m =
    pattern_mapping replace ps (put_pattern ("^" <> replace target <> "$") pattern m)

module _ {W : Type 0} (d : Dispatcher W) where
  pub pattern_routes : String → Application → List (String × String) → List (String × Handler W)
  pattern_routes url app [] = []
  pattern_routes url app ((pattern, target) ∷ ps) =
      (
        pattern,
        pattern_handle d.client d.proxy (url <> target) (d.patterns.find_parameters pattern) app,
      )
      ∷ pattern_routes url app ps

  -- The routes of an application and the mapping for its rewriter.
  unfoldable pub routes_of : Application → List (String × Handler W) × List (String × String)
  unfolding pattern_mapping pattern_routes trim_right backend_url
  routes_of app =
      let url = backend_url app.backend in
      let path = trim_right b'/' app.routing.path in
      let handle : Handler W = path_handle d.client d.proxy url app in
      if app.routing.type == "path"
      then (
        (path, handle) ∷ (path <> "/*path", handle) ∷ [],
        ("/(?P<path>.*)", path <> "/:path") ∷ [],
      )
      else if app.routing.type == "pattern"
      then (
        pattern_routes url app app.routing.patterns,
        pattern_mapping d.patterns.replace_parameters app.routing.patterns [],
      )
      else ([], [])

  -- The handler for `OPTIONS`.
  pub options_handler : Handler W → Handler W
  options_handler safe =
      if d.proxy.options_configuration.enabled
      then build_options_handler d.detect d.proxy.options_configuration.cors safe
      else safe

  -- What is registered for a safe and an unsafe handler.
  abbrev pub methods : String → Handler W × Handler W → List (Route W)
  unfolding options_handler
  methods path (safe, unsafe) =
      record { method = "GET"; path = path; handler = safe }
      ∷ record { method = "HEAD"; path = path; handler = safe }
      ∷ record { method = "POST"; path = path; handler = unsafe }
      ∷ record { method = "PUT"; path = path; handler = unsafe }
      ∷ record { method = "PATCH"; path = path; handler = unsafe }
      ∷ record { method = "DELETE"; path = path; handler = unsafe }
      ∷ record { method = "OPTIONS"; path = path; handler = options_handler safe }
      ∷ []

  -- The loop over the routes.
  unfoldable pub register :
      List Mapping
      → String
      → Application
      → Configuration
      → List (String × Handler W)
      → List (Route W)
  unfolding options_handler
  register mappings name app cfg [] = []
  register mappings name app cfg ((path, handler) ∷ rs) =
      let decorated : Handler W = decorate d.urls d.json mappings d.detect handler in
      methods path (apply_all d.behaviors name app cfg (decorated, decorated))
      ++ register mappings name app cfg rs

  abbrev pub register_all :
      String
      → Application
      → Configuration
      → List (String × Handler W)
      → Option (List Mapping)
      → Option (List (Route W))
  unfolding register
  register_all name app cfg rs none = none
  register_all name app cfg rs (some mappings) = some (register mappings name app cfg rs)

  -- `RegisterApplication`; `none` is the panic of a pattern that does not compile.
  unfoldable pub register_application :
      String → Application → Configuration → Option (List (Route W))
  unfolding register routes_of
  register_application name app cfg =
      register_all name app cfg (routes_of app).0
        (new_host_rewriter d.patterns.compile (routes_of app).1)
