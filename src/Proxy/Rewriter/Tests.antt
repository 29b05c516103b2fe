-- ===== src/Proxy/Rewriter/Tests.antt =====
-- A mapping, a document and responses on which the rewriter runs.
use servicegateway.Prelude.{String, ◌<>◌, ◌≡◌, refl, true, false, List, [], ◌∷◌, some}
use servicegateway.Effects.{pure}
use servicegateway.Http.{Url, Request, Handler, write_header, write}
use servicegateway.Http.Recorder.{Recorder, sent}
use servicegateway.Http.Tests.{request}
use servicegateway.Proxy.Json.{Json, JsonLib, num, str, obj, end, field}
use servicegateway.Proxy.Rewriter.{UrlLib, Mapping, Regexp, walk_json, href_step, rewrite_url, repl}
use servicegateway.Proxy.Rewriter.Hrefs.{AllHrefs, IsMapped, walk_json-AllHrefs}
use servicegateway.Proxy.Rewriter.Decorate.{can_handle, public_url, rewrite, respond}
use servicegateway.Proxy.Rewriter.Decorate.Answers.{Finished, respond-json}

-- A URL is its path.
abbrev pub urls : UrlLib
urls = record {
  Parsed = String;
  parse = λ s. some s;
  path_of = λ s. s;
  with_target = λ host scheme path u. scheme <> "://" <> host <> path;
  print = λ s. s;
}

abbrev pub any_path : Regexp
any_path = record {
  find_string_submatch = λ s. some (s ∷ []);
  subexp_names = "" ∷ [];
  replace_all_string = λ s new. s;
}

abbrev pub mappings : List Mapping
mappings = record { regex = any_path; target_pattern = "/public"; replacements = [] } ∷ []

abbrev public : Url
public = record { scheme = "https"; host = "api.example"; path = "/"; raw_query = "" }

abbrev linked : String → Json
linked s = obj (field "_links" (obj (field "self" (obj (field "href" (str s) end)) end)) end)

abbrev plain_document : Json
plain_document = obj (field "size" (num "3") end)

abbrev pub json : JsonLib
json = record { unmarshal = λ s. some plain_document; marshal = λ v. some "{}" }

abbrev detect : String → String
detect b = "text/plain"

abbrev not_found : Handler Unit
not_found req params = pure (write_header 404 ∷ write "x" ∷ [])

abbrev get_request : Request
get_request = request "GET" "/a" []

abbrev json_response : Recorder
json_response = record {
  code = 201;
  wrote = true;
  header = ("Content-Type", "application/json" ∷ []) ∷ [];
  body = "{\"size\": 3}";
}

walk_json-AllHrefs_example :
    AllHrefs (IsMapped urls mappings public) (linked "https://api.example/public")
unfolding walk_json href_step rewrite_url repl
walk_json-AllHrefs_example =
    walk_json-AllHrefs urls mappings public (linked "/internal")
      (linked "https://api.example/public") false refl

respond-json_example :
    (b : String) × (rewrite urls json mappings "{\"size\": 3}" (public_url get_request) ≡ some b)
    × Finished json_response b (sent (respond urls json mappings get_request json_response))
unfolding can_handle
respond-json_example =
    respond-json urls json mappings (λ v. ("{}", refl)) get_request json_response refl refl
