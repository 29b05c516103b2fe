-- ===== src/Dispatcher/Closures.antt =====
-- The handlers of dispatcher/pathbased.go that find the URL of the backend for a request.
pub mod Targets
use servicegateway.Prelude.{
  String, ◌<>◌, not, ◌&&◌, List, [], ◌∷◌, Option, none, some, ◌==◌, if◌then◌else◌,
}
use servicegateway.Text.{replace_first, replace_all}
use servicegateway.Http.{Request, Params, Handler, lookup}
use servicegateway.Config.{Application, Backend, Routing, ProxyConfiguration}
use servicegateway.Proxy.Upstream.{Client, handle_proxy_request}

-- The backend's URL in `RegisterApplication`.
unfoldable pub backend_url : Backend → String
backend_url b =
    if b.url == "" && not (b.service == "")
    then if not (b.tag == "")
      then "http://" <> b.tag <> "." <> b.service <> ".service.consul"
      else "http://" <> b.service <> ".service.consul"
    else b.url

abbrev value_or_empty : Option String → String
value_or_empty none = ""
value_or_empty (some v) = v

-- `params.ByName(name)`
pub by_name : Params → String → String
unfolding lookup
by_name params name = value_or_empty (lookup name params)

-- The loop of `PatternClosure.Handle`: each parameter is a placeholder and its name.
pub fill_parameters : List (String × String) → Params → String → String
unfolding replace_all by_name
fill_parameters [] params url = url
fill_parameters ((placeholder, name) ∷ ps) params url =
    fill_parameters ps params (replace_all placeholder (by_name params name) url)

-- The URL of `PathClosure.Handle`.
pub path_target : String → Routing → Request → String
unfolding replace_first
path_target url routing req = url <> replace_first routing.path "" req.url.path

module _ {W : Type 0} (client : Client W) (cfg : ProxyConfiguration) where
  -- `PatternClosure.Handle`
  abbrev pub pattern_handle : String → List (String × String) → Application → Handler W
  unfolding fill_parameters
  pattern_handle target_url parameters app req params =
      handle_proxy_request client cfg req (fill_parameters parameters params target_url) app

  -- `PathClosure.Handle`
  abbrev pub path_handle : String → Application → Handler W
  unfolding path_target
  path_handle url app req params =
      handle_proxy_request client cfg req (path_target url app.routing req) app
