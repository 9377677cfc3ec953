-- ===== src/Scan/Rules/Deserialization.antt =====
-- backend/app/scan/rules/deserialization.py
use multi_stage_agentic_sast.Findings.{SinkRef}
use multi_stage_agentic_sast.Scan.Syntax.{Expr, call, expr, keywords_list}
use multi_stage_agentic_sast.Scan.Rule.{Python, Rule, source_segment}
use multi_stage_agentic_sast.Scan.Rules.{request_source, taint_confidence, first_argument}
use multi_stage_agentic_sast.Scan.Rules.Ssrf.{is_named}
use multi_stage_agentic_sast.Prelude.Dict.{Dict, get, contains}
use multi_stage_agentic_sast.Prelude.Text.{has_part}
use multi_stage_agentic_sast.Prelude.{
  ◌&&◌, none, false, ◌||◌, ◌==◌, any, if◌then◌else◌, ◌∷◌, [], not, some, Option, ℕ, List, true,
  Bool, String,
}

-- DESERIALIZATION_SINKS
abbrev pub deserialization_sinks : Dict String
deserialization_sinks =
    ("pickle.loads", "pickle_loads")
    ∷ ("pickle.load", "pickle_load")
    ∷ ("cPickle.loads", "pickle_loads")
    ∷ ("cPickle.load", "pickle_load")
    ∷ ("_pickle.loads", "pickle_loads")
    ∷ ("_pickle.load", "pickle_load")
    ∷ ("_cPickle.loads", "pickle_loads")
    ∷ ("_cPickle.load", "pickle_load")
    ∷ ("marshal.loads", "marshal_loads")
    ∷ ("marshal.load", "marshal_load")
    ∷ ("shelve.open", "shelve_open")
    ∷ ("jsonpickle.decode", "jsonpickle_decode")
    ∷ ("jsonpickle.loads", "jsonpickle_loads")
    ∷ []

abbrev pub yaml_load_funcs : List String
yaml_load_funcs = "yaml.load" ∷ "yaml.unsafe_load" ∷ []

-- A `Loader=` argument whose text passes the test.
abbrev pub has_loader : Python → (String → Bool) → Expr → Bool
has_loader py test (call l f args kws) =
    any (λ (p : Option String × Expr). is_named "Loader" p.0 && test (py.unparse p.1))
      (keywords_list kws)
has_loader py test _ = false

abbrev pub is_safe_or_full : String → Bool
is_safe_or_full text = has_part "SafeLoader" text || has_part "FullLoader" text

-- The kind of the sink that a call of this function is.
unfoldable pub sink_kind : Python → Expr → Option String → String → Option String
unfolding contains has_part
sink_kind py c (some kind) func_name = some kind
sink_kind py c none func_name =
    if contains func_name yaml_load_funcs && not (has_loader py is_safe_or_full c)
    then some "yaml_load"
    else none

abbrev pub sink_at : Python → Expr → ℕ → String → String → Option String → Option SinkRef
sink_at py c l file source none = none
sink_at py c l file source (some kind) =
    some (record { file = file; line = l; snippet = source_segment py source c; kind = kind })

unfoldable pub match_deserialization_sink : Python → Expr → String → String → Option SinkRef
unfolding sink_kind source_segment get
match_deserialization_sink py (call l f (expr a more) kws) file source =
    let c = call l f (expr a more) kws in
    let name = py.unparse f in
    sink_at py c l file source (sink_kind py c (get name deserialization_sinks) name)
match_deserialization_sink py _ file source = none

unfoldable pub has_safe_loader : Python → Expr → SinkRef → Bool
unfolding has_part
has_safe_loader py c sink = sink.kind == "yaml_load" && has_loader py (has_part "SafeLoader") c

abbrev pub deserialization_rule : Python → Rule
deserialization_rule py = record {
  vulnerability_type = "deserialization";
  severity = "critical";
  poison_params = true;
  is_source = request_source py;
  match_sink = match_deserialization_sink py;
  is_sanitized = has_safe_loader py;
  sink_expression = first_argument;
  confidence = taint_confidence;
}
