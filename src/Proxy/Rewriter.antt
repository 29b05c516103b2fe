-- ===== src/Proxy/Rewriter.antt =====
-- proxy/hostrewriter.go: links in JSON bodies and `Location` headers are mapped to public URLs. The
-- packages net/url, regexp and encoding/json are parameters.
pub mod Walk
pub mod Hrefs
pub mod Decorate
pub mod Tests
use servicegateway.Prelude.{
  ℕ, zero, suc, String, ◌<>◌, Bool, ◌||◌, List, [], ◌∷◌, Option, none, some, ◌==◌, if◌then◌else◌,
}
use servicegateway.Http.{Url}
use servicegateway.Proxy.Json.{Json, str, arr, obj, Items, nil, cons, Fields, end, field}

-- `regexp.Regexp`, as far as the rewriter uses it.
pub record Regexp : Type 0 where
  pub find_string_submatch : String → Option (List String)
  pub subexp_names : List String
  pub replace_all_string : String → String → String

-- net/url: a parsed URL, its path, the same URL with another host, scheme and path, and `String()`.
pub record UrlLib : Type 1 where
  pub Parsed : Type 0
  pub parse : String → Option Parsed
  pub path_of : Parsed → String
  pub with_target : String → String → String → Parsed → Parsed
  pub print : Parsed → String

-- `mapping`; `replacements` are the keys and values of its map.
pub record Mapping : Type 0 where
  pub regex : Regexp
  pub target_pattern : String
  pub replacements : List (ℕ × Regexp)

-- `matches[k]`; a submatch has an entry for each group of its expression.
abbrev pub match_at : List String → ℕ → String
match_at [] k = ""
match_at (m ∷ ms) zero = m
match_at (m ∷ ms) (suc k) = match_at ms k

repl_from : List (ℕ × Regexp) → List String → String → String
repl_from [] matches path = path
repl_from ((k, re) ∷ rs) matches path =
    repl_from rs matches (re.replace_all_string path (match_at matches k))

-- `mapping.repl`
pub repl : Mapping → List String → String
unfolding repl_from
repl m matches = repl_from m.replacements matches m.target_pattern

-- The map of the inner loop of `NewHostRewriter`: a replacement for each named group.
named_groups : (String → Option Regexp) → ℕ → List String → Option (List (ℕ × Regexp))
named_groups compile i [] = some []
named_groups compile i (name ∷ names) =
    let rest = named_groups compile (suc i) names in
    if name == "" then rest else elim (compile (":" <> name)) [
      | none ↦ none
      | some re ↦ elim rest [ none ↦ none | some rs ↦ some ((i, re) ∷ rs) ]
    ]

-- `NewHostRewriter`: the mappings for pairs of a source and a target pattern; `none` is the panic
-- of `regexp.MustCompile`.
unfoldable pub new_host_rewriter :
    (String → Option Regexp) → List (String × String) → Option (List Mapping)
unfolding named_groups
new_host_rewriter compile [] = some []
new_host_rewriter compile ((source, target) ∷ patterns) =
    let rest = new_host_rewriter compile patterns in
    elim (compile source) [
      | none ↦ none
      | some re ↦ elim (named_groups compile 0 re.subexp_names) [
        | none ↦ none
        | some rs ↦ elim rest [
          | none ↦ none
          | some ms ↦ some (record { regex = re; target_pattern = target; replacements = rs } ∷ ms)
        ]
      ]
    ]

-- The results of `RewriteUrl`: a URL, `UnmappableUrl`, or the error of `url.Parse`.
pub data Rewritten : Type 0 where
  mapped : String → Rewritten
  unmappable : Rewritten
  bad_url : Rewritten

-- The results of `walkJson`: a value, `RemoveElement`, or another error.
pub data Walked (A : Type 0) : Type 0 where
  kept : A → Walked A
  removed : Walked A
  failed : String → Walked A

-- What one round of the loop over an object's keys does with its key: the field is deleted or gets a
-- value, or the function returns.
pub data FieldStep : Type 0 where
  delete : FieldStep
  put : Json → FieldStep
  give_up : FieldStep
  fail : String → FieldStep

-- What the round for the key `href` does with the result of `RewriteUrl`.
abbrev pub href_result : Bool → Rewritten → FieldStep
href_result in_links unmappable = if in_links then give_up else delete
href_result in_links bad_url = delete
href_result in_links (mapped new_url) = put (str new_url)

-- What the round does with a value that was walked.
abbrev pub child_step : Walked Json → FieldStep
child_step (kept v) = put v
child_step removed = delete
child_step (failed e) = fail e

-- The rest of the loop runs unless the round returned.
abbrev pub then_rest : String → FieldStep → Walked Fields → Walked Fields
then_rest key give_up rest = removed
then_rest key (fail e) rest = failed e
then_rest key _ removed = removed
then_rest key _ (failed e) = failed e
then_rest key delete (kept fs) = kept fs
then_rest key (put v) (kept fs) = kept (field key v fs)

-- One round of the loop over a list, before the rest of the loop.
abbrev pub then_items : Walked Json → Walked Items → Walked Items
then_items (failed e) rest = failed e
then_items _ removed = removed
then_items _ (failed e) = failed e
then_items removed (kept vs) = kept vs
then_items (kept v) (kept vs) = kept (cons v vs)

-- `len(outputList) == 0 && originalLength != 0`
abbrev pub finish_list : Items → Walked Items → Walked Json
finish_list original removed = removed
finish_list original (failed e) = failed e
finish_list (cons v vs) (kept nil) = removed
finish_list original (kept vs) = kept (arr vs)

abbrev pub finish_object : Walked Fields → Walked Json
finish_object (kept fs) = kept (obj fs)
finish_object removed = removed
finish_object (failed e) = failed e

module _ (urls : UrlLib) (mappings : List Mapping) (req_url : Url) where
  -- The loop of `RewriteUrl` over the mappings.
  try_mappings : urls.Parsed → List Mapping → Rewritten
  try_mappings u [] = unmappable
  try_mappings u (m ∷ ms) = elim (m.regex.find_string_submatch (urls.path_of u)) [
    | none ↦ try_mappings u ms
    | some matches ↦
        mapped (urls.print (urls.with_target req_url.host req_url.scheme (repl m matches) u))
  ]

  -- `RewriteUrl`
  pub rewrite_url : String → Rewritten
  unfolding try_mappings
  rewrite_url s = elim (urls.parse s) [ none ↦ bad_url | some u ↦ try_mappings u mappings ]

  -- The round for the key `href`.
  pub href_step : Bool → Json → FieldStep
  href_step in_links (str url) = href_result in_links (rewrite_url url)
  href_step in_links v = put v

  -- `walkJson`
  mutual
    pub walk_json : Json → Bool → Walked Json
    walk_json (obj fs) in_links = finish_object (walk_fields fs in_links)
    walk_json (arr vs) in_links = finish_list vs (walk_items vs in_links)
    walk_json v in_links = kept v

    pub walk_items : Items → Bool → Walked Items
    walk_items nil in_links = kept nil
    walk_items (cons v vs) in_links = then_items (walk_json v in_links) (walk_items vs in_links)

    pub walk_fields : Fields → Bool → Walked Fields
    walk_fields end in_links = kept end
    walk_fields (field key v fs) in_links =
        let l = in_links || (key == "links" || key == "_links") in
        let child = walk_json v l in
        then_rest key (if key == "href" then href_step in_links v else child_step child)
          (walk_fields fs in_links)
