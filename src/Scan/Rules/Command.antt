-- ===== src/Scan/Rules/Command.antt =====
-- backend/app/scan/rules/command_injection.py
use multi_stage_agentic_sast.Prelude.Dict.{contains}
use multi_stage_agentic_sast.Findings.{SinkRef}
use multi_stage_agentic_sast.Scan.Syntax.{Expr, display, list_display, tuple_display, call, expr}
use multi_stage_agentic_sast.Scan.Rule.{Python, Rule, source_segment}
use multi_stage_agentic_sast.Scan.Rules.{request_source, taint_confidence, first_argument}
use multi_stage_agentic_sast.Prelude.{
  String, ◌&&◌, none, false, ◌∷◌, if◌then◌else◌, Option, [], not, some, List, true, Bool,
}

-- The keys of COMMAND_SINKS; their values are not used.
abbrev pub command_sinks : List String
command_sinks =
    "os.system" ∷ "os.popen" ∷ "subprocess.run" ∷ "subprocess.call" ∷ "subprocess.Popen"
    ∷ "subprocess.check_call" ∷ "subprocess.check_output" ∷ []

-- isinstance(e, (ast.List, ast.Tuple))
abbrev pub is_vector : Expr → Bool
is_vector (display l list_display items) = true
is_vector (display l tuple_display items) = true
is_vector _ = false

unfoldable pub match_command_sink : Python → Expr → String → String → Option SinkRef
unfolding contains source_segment
match_command_sink py (call l f (expr a more) kws) file source =
    if contains (py.unparse f) command_sinks && not (is_vector a)
    then some (record {
      file = file;
      line = l;
      snippet = source_segment py source (call l f (expr a more) kws);
      kind = "command_exec";
    })
    else none
match_command_sink py _ file source = none

abbrev pub command_injection_rule : Python → Rule
command_injection_rule py = record {
  vulnerability_type = "command_injection";
  severity = "high";
  poison_params = true;
  is_source = request_source py;
  match_sink = match_command_sink py;
  is_sanitized = λ c sink. false;
  sink_expression = first_argument;
  confidence = taint_confidence;
}
