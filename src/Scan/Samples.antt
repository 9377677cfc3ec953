-- ===== src/Scan/Samples.antt =====
-- A view that takes a request parameter into a query: the inputs of the examples below.
use multi_stage_agentic_sast.Prelude.{
  ◌∷◌, map, [], All, refl, false, ◌≡◌, none, String, select, length, true, is_some,
}
use multi_stage_agentic_sast.Scan.Expressions.{Context, taint_of}
use multi_stage_agentic_sast.Scan.Syntax.{
  Expr, Block, Stmt, call, assign, stmt, if_stmt, variable, expr, expr_stmt, attribute, no_stmts,
  constant, no_exprs, no_keywords, collect_calls, while_stmt, try_stmt, block, no_blocks,
  formatted_value, joined_str,
}
use multi_stage_agentic_sast.Prelude.Text.{starts_with, last_part, has_part}
use multi_stage_agentic_sast.Scan.Coverage.{Covers}
use multi_stage_agentic_sast.Scan.Reachability.{Names, is_tainted, names_of}
use multi_stage_agentic_sast.Scan.Engine.{
  analyze_file, CodeFile, apply_stmt, context_of, assign_value, analyze_block, nothing_found,
  set_targets, Stack,
}
use multi_stage_agentic_sast.Prelude.Dict.{contains, get, set_item, update}
use multi_stage_agentic_sast.Scan.Rule.{Python, source_segment, line_text}
use multi_stage_agentic_sast.Findings.{ScanReport, CandidateFinding}
use multi_stage_agentic_sast.Scan.Service.{ReportEnv, scan, default_rules, or_zero}
use multi_stage_agentic_sast.Scan.Traces.{IsTraced}
use multi_stage_agentic_sast.Scan.Reports.{
  IsReported, reports_are_traced, of_type, total_of, report_counts,
}
use multi_stage_agentic_sast.Scan.Trails.{bind, passes, then_branch, assigns, ends}
use multi_stage_agentic_sast.Scan.Rules.Sql.{
  sql_injection_rule, match_sql_sink, is_database, is_parameterized,
}
use multi_stage_agentic_sast.Scan.Traced.{findings_are-IsTraced}
use multi_stage_agentic_sast.Scan.Sinks.{check_sinks, check_calls, emit}
use multi_stage_agentic_sast.Scan.Flows.{stays, goes, of_piece, call_source, Provenance, first}
use multi_stage_agentic_sast.Scan.Origins.{taint_has_origin, origin_gives_taint}
use multi_stage_agentic_sast.Scan.Refinement.{trails_are_covered}
use multi_stage_agentic_sast.Scan.Rules.{request_source, taint_confidence}
use multi_stage_agentic_sast.Scan.Confidence.{IsGraded, confidence_by_source}

-- A small stand-in for Python's library: the source is given line by line in advance, and a digest
-- is its text.
abbrev python : Python
python = record {
  unparse = λ e. "cursor";
  get_source_segment = λ source e. none;
  splitlines = λ source. "q = request.args.get('q')" ∷ "cursor.execute(q)" ∷ [];
  strip = λ s. s;
  sha256_hex = λ s. s;
  show = λ n. "n";
}

-- request.args.get("q")
abbrev request_get : Expr
request_get =
    call 1 (attribute 1 (attribute 1 (variable 1 "request") "args") "get")
      (expr (constant 1 false) no_exprs) no_keywords

-- cursor.execute(q)
abbrev execute_q : Expr
execute_q =
    call 2 (attribute 2 (variable 2 "cursor") "execute") (expr (variable 2 "q") no_exprs)
      no_keywords

abbrev assign_q : Stmt
assign_q = assign 1 (expr (variable 1 "q") no_exprs) request_get

abbrev view : CodeFile
view = record {
  path = "app.py";
  source = "";
  failed = false;
  body = stmt assign_q (stmt (expr_stmt execute_q) no_stmts);
}

abbrev ctx : Context
ctx = context_of python (sql_injection_rule python) "p" view

-- The scan of the view finds one injection, of a request parameter: confidence 0.9.
view_confidences :
    map
      (λ (f : CandidateFinding). f.confidence)
      (analyze_file python (sql_injection_rule python) "p" view).0
    ≡ 90 ∷ []
unfolding analyze_file apply_stmt assign_value check_sinks check_calls emit taint_of get set_targets
    set_item request_source match_sql_sink is_database is_parameterized taint_confidence starts_with
    has_part last_part contains source_segment line_text collect_calls
view_confidences = refl

findings_are-IsTraced_example :
    All (IsTraced ctx) (analyze_file python (sql_injection_rule python) "p" view).0
findings_are-IsTraced_example = findings_are-IsTraced python (sql_injection_rule python) "p" view

abbrev env : ReportEnv
env = record { id = "rep"; now = 7 }

reports_are_traced_example :
    All
      (IsReported python (default_rules python) "p" (view ∷ []))
      (scan python env (default_rules python) "p" (view ∷ [])).findings
reports_are_traced_example = reports_are_traced python "p" env (default_rules python) (view ∷ [])

report_counts_example :
    let r : ScanReport = scan python env (default_rules python) "p" (view ∷ []) in
    ((t : String) → or_zero (get t r.summary.by_type) ≡ length (select (of_type t) r.findings))
    × (total_of r.summary.by_type ≡ r.summary.total)
    × (r.summary.total ≡ length r.findings)
report_counts_example = report_counts python env (default_rules python) "p" (view ∷ [])

-- f"{request.args.get('q')}"
abbrev piece : Expr
piece = formatted_value 1 request_get no_exprs

abbrev greeting : Expr
greeting = joined_str 1 (expr piece no_exprs)

greeting_tainted : is_some (taint_of ctx [] greeting) ≡ true
unfolding taint_of request_source
greeting_tainted = refl

taint_has_origin_example : Provenance ctx (names_of []) greeting
taint_has_origin_example = taint_has_origin ctx [] greeting greeting_tainted

origin_gives_taint_example : is_some (taint_of ctx [] greeting) ≡ true
unfolding request_source
origin_gives_taint_example =
    origin_gives_taint ctx [] request_get greeting (call_source refl) (goes stays (of_piece first))

abbrev nothing : Names
nothing x = false

-- if c: q = request.args.get("q")
abbrev branching : Block
branching = stmt (if_stmt (variable 1 "c") (stmt assign_q no_stmts) no_stmts) no_stmts

abbrev module_level : Stack
module_level = record { classes = []; functions = [] }

trails_are_covered_example :
    Covers
      (bind (variable 1 "q" ∷ []) (is_tainted ctx nothing request_get) nothing)
      (analyze_block ctx module_level branching ([], nothing_found)).0
trails_are_covered_example =
    trails_are_covered ctx module_level {s = nothing} ([], nothing_found)
      (passes (then_branch (passes (assigns {targets = expr (variable 1 "q") no_exprs}) ends)) ends)
      (λ x h. absurd (cc h))

-- r = q
abbrev assign_r : Stmt
assign_r = assign 2 (expr (variable 2 "r") no_exprs) (variable 2 "q")

-- while c: q = request.args.get("q") else: r = q
abbrev body_then_else : Block
body_then_else =
    stmt (while_stmt (variable 1 "c") (stmt assign_q no_stmts) (stmt assign_r no_stmts)) no_stmts

-- The body taints q, and the `else` that follows it taints r, which the engine misses.
else_is_missed :
    get "r" (analyze_block ctx module_level body_then_else ([], nothing_found)).0 ≡ none
unfolding apply_stmt assign_value check_sinks check_calls emit taint_of get set_targets set_item
    request_source collect_calls update
else_is_missed = refl

-- try: pass except: q = request.args.get("q") finally: r = q
abbrev handler_then_finally : Block
handler_then_finally =
    stmt
      (try_stmt no_stmts (block (stmt assign_q no_stmts) no_blocks) no_stmts
        (stmt assign_r no_stmts))
      no_stmts

-- The handler taints q, and the `finally` that follows it taints r, which the engine misses.
finally_is_missed :
    get "r" (analyze_block ctx module_level handler_then_finally ([], nothing_found)).0 ≡ none
unfolding apply_stmt assign_value check_sinks check_calls emit taint_of get set_targets set_item
    request_source collect_calls update
finally_is_missed = refl

confidence_by_source_example :
    All IsGraded (scan python env (default_rules python) "p" (view ∷ [])).findings
confidence_by_source_example = confidence_by_source python env "p" (view ∷ [])
