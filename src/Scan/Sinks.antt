-- ===== src/Scan/Sinks.antt =====
-- The sinks of an expression, of TaintEngine in backend/app/scan/taint_engine.py. The engine
-- collects findings and summaries in `Found`, whose `summary` is the function that is analyzed.
use multi_stage_agentic_sast.Findings.{
  SourceRef, SinkRef, TaintStep, sink, CandidateFinding, Evidence, FunctionSummary,
}
use multi_stage_agentic_sast.Scan.Syntax.{Expr, collect_calls}
use multi_stage_agentic_sast.Scan.Expressions.{Taint, Tainted, Context, taint_of}
use multi_stage_agentic_sast.Prelude.Text.{join}
use multi_stage_agentic_sast.Prelude.Sort.{sorted}
use multi_stage_agentic_sast.Prelude.{
  String, eqb, map, ltb, List, ◌∷◌, ◌++◌, ℕ, [], none, Option, Bool, some, any, if◌then◌else◌,
}

-- _FnSummary; its tainted_params are set at the end.
pub record Summary : Type 0 where
  pub qualified_name : String
  pub line : ℕ
  pub sinks : List SinkRef
  pub returns_taint : Bool

pub record Found : Type 0 where
  pub findings : List CandidateFinding
  pub summaries : List FunctionSummary
  pub summary : Option Summary

-- Every line once, in ascending order.
abbrev pub distinct : List ℕ → List ℕ
distinct [] = []
distinct (n ∷ ns) = let rest = distinct ns in if any (eqb n) rest then rest else n ∷ rest

abbrev pub relevant_lines : List TaintStep → List ℕ
relevant_lines path = sorted ltb (distinct (map (λ (s : TaintStep). s.line) path))

-- EvidenceBuilder.build
abbrev pub evidence_of : SourceRef → SinkRef → List TaintStep → List String → Evidence
evidence_of ref sink_ref path observations = record {
  source_snippet = ref.snippet;
  sink_snippet = sink_ref.snippet;
  taint_path = path;
  relevant_lines = relevant_lines path;
  sanitizer_observations = observations;
}

abbrev pub sink_step : Context → SinkRef → TaintStep
sink_step ctx s = record { file = ctx.file; line = s.line; snippet = s.snippet; step_type = sink }

-- The finding's id: a digest of the project, the type, the file and the two lines.
unfoldable pub finding_id : Context → ℕ → ℕ → String
unfolding join
finding_id ctx source_line sink_line = ctx.python.sha256_hex (
    join "|" (
      ctx.project_id
      ∷ ctx.rule.vulnerability_type
      ∷ ctx.file
      ∷ ctx.python.show source_line
      ∷ ctx.python.show sink_line
      ∷ []))

-- The first step of a path; a taint has at least one.
abbrev pub first_step : TaintStep → List TaintStep → TaintStep
first_step default [] = default
first_step default (s ∷ steps) = s

-- _source_ref_from_step
abbrev pub source_ref_from_step : TaintStep → String → SourceRef
source_ref_from_step s kind = record {
  file = s.file;
  line = s.line;
  snippet = s.snippet;
  kind = kind;
}

-- The finding of _emit_finding.
abbrev pub finding_at : Context → SinkRef → Taint → CandidateFinding
finding_at ctx s t =
    let path = t.steps ++ sink_step ctx s ∷ [] in
    let ref = source_ref_from_step (first_step (sink_step ctx s) t.steps) t.source_kind in
    record {
      id = finding_id ctx ref.line s.line;
      vulnerability_type = ctx.rule.vulnerability_type;
      severity = ctx.rule.severity;
      confidence = ctx.rule.confidence path t.source_kind;
      source_ref = ref;
      sink_ref = s;
      taint_path = path;
      evidence = evidence_of ref s path ("no sanitizer observed at sink" ∷ []);
    }

abbrev pub add_sink : SinkRef → Option Summary → Option Summary
add_sink s none = none
add_sink s (some m) = some (record m { sinks = m.sinks ++ s ∷ [] })

-- _emit_finding, after the sink is added to the summary.
unfoldable pub emit : Context → SinkRef → Taint → Found → Found
unfolding finding_id sorted
emit ctx s t found = record found {
  findings = found.findings ++ finding_at ctx s t ∷ [];
  summary = add_sink s found.summary;
}

abbrev pub emit_if : Context → SinkRef → Option Taint → Found → Found
emit_if ctx s none found = found
emit_if ctx s (some t) found = emit ctx s t found

-- The taint of the expression that matters at a sink, if there is one.
abbrev pub taint_at : Context → Tainted → Option Expr → Option Taint
taint_at ctx tainted none = none
taint_at ctx tainted (some e) = taint_of ctx tainted e

abbrev pub check_sink : Context → Tainted → Expr → Option SinkRef → Found → Found
check_sink ctx tainted c none found = found
check_sink ctx tainted c (some s) found =
    if ctx.rule.is_sanitized c s
    then found
    else emit_if ctx s (taint_at ctx tainted (ctx.rule.sink_expression c)) found

unfoldable pub check_calls : Context → Tainted → List Expr → Found → Found
unfolding emit taint_of
check_calls ctx tainted [] found = found
check_calls ctx tainted (c ∷ cs) found =
    check_calls ctx tainted cs
      (check_sink ctx tainted c (ctx.rule.match_sink c ctx.file ctx.source) found)

-- _check_sinks
unfoldable pub check_sinks : Context → Expr → Tainted → Found → Found
unfolding check_calls collect_calls
check_sinks ctx e tainted found = check_calls ctx tainted (collect_calls e) found
