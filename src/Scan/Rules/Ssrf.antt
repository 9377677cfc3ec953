-- ===== src/Scan/Rules/Ssrf.antt =====
-- backend/app/scan/rules/ssrf.py
use multi_stage_agentic_sast.Prelude.Dict.{contains}
use multi_stage_agentic_sast.Findings.{SinkRef}
use multi_stage_agentic_sast.Scan.Syntax.{Expr, call, exprs_list, keywords_list}
use multi_stage_agentic_sast.Scan.Rule.{Python, Rule, source_segment}
use multi_stage_agentic_sast.Scan.Rules.{request_source, taint_confidence}
use multi_stage_agentic_sast.Prelude.Text.{ends_with}
use multi_stage_agentic_sast.Prelude.{
  ◌&&◌, false, ◌==◌, ◌∷◌, if◌then◌else◌, [], none, is_some, some, Option, List, true, Bool, String,
}

abbrev pub http_request_funcs : List String
http_request_funcs =
    "requests.get" ∷ "requests.post" ∷ "requests.put" ∷ "requests.delete" ∷ "requests.patch"
    ∷ "requests.head" ∷ "requests.options" ∷ "requests.request" ∷ "httpx.get" ∷ "httpx.post"
    ∷ "httpx.put" ∷ "httpx.delete" ∷ "httpx.patch" ∷ "httpx.request" ∷ "urllib.request.urlopen" ∷ []

abbrev pub is_named : String → Option String → Bool
is_named n none = false
is_named n (some k) = k == n

-- The first keyword argument with this name.
abbrev pub keyword_value : String → List (Option String × Expr) → Option Expr
keyword_value n [] = none
keyword_value n ((k, e) ∷ kws) = if is_named n k then some e else keyword_value n kws

-- The URL by position: second for `*.request(method, url)`, else first.
abbrev pub positional_url : Bool → List Expr → Option Expr
positional_url true (a ∷ b ∷ more) = some b
positional_url false (a ∷ more) = some a
positional_url _ _ = none

-- sink_expression
unfoldable pub url_argument : Python → Expr → Option Expr
unfolding ends_with
url_argument py (call l f args kws) = elim (keyword_value "url" (keywords_list kws)) [
  | some e ↦ some e
  | none ↦ positional_url (ends_with ".request" (py.unparse f)) (exprs_list args)
]
url_argument py _ = none

unfoldable pub match_http_sink : Python → Expr → String → String → Option SinkRef
unfolding contains url_argument source_segment
match_http_sink py (call l f args kws) file source =
    if contains (py.unparse f) http_request_funcs && is_some (url_argument py (call l f args kws))
    then some (record {
      file = file;
      line = l;
      snippet = source_segment py source (call l f args kws);
      kind = "http_request";
    })
    else none
match_http_sink py _ file source = none

abbrev pub ssrf_rule : Python → Rule
ssrf_rule py = record {
  vulnerability_type = "ssrf";
  severity = "high";
  poison_params = true;
  is_source = request_source py;
  match_sink = match_http_sink py;
  is_sanitized = λ c sink. false;
  sink_expression = url_argument py;
  confidence = taint_confidence;
}
