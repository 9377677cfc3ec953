-- ===== src/Scan/Engine.antt =====
-- The statements and functions of TaintEngine in backend/app/scan/taint_engine.py.
use multi_stage_agentic_sast.Findings.{assignment, source, CandidateFinding, FunctionSummary}
use multi_stage_agentic_sast.Scan.Syntax.{
  Expr, variable, attribute, subscript, call, display, tuple_display, Params, Stmt, assign,
  ann_assign, aug_assign, if_stmt, while_stmt, for_stmt, try_stmt, with_stmt, function_def,
  class_def, expr_stmt, return_stmt, other_stmt, Block, no_stmts, stmt, Blocks, no_blocks, block,
  exprs_list, param_names,
}
use multi_stage_agentic_sast.Scan.Rule.{Python, Rule}
use multi_stage_agentic_sast.Scan.Expressions.{
  Taint, Tainted, Context, taint_of, source_at, propagation_step, step_at, extend, propagated,
}
use multi_stage_agentic_sast.Prelude.Text.{join}
use multi_stage_agentic_sast.Prelude.Sort.{sorted, text_ltb}
use multi_stage_agentic_sast.Prelude.Dict.{get, set_item, update}
use multi_stage_agentic_sast.Prelude.{
  String, List, ◌∷◌, false, ◌++◌, ◌||◌, ℕ, [], is_some, none, Option, ◌&&◌, Bool, ◌==◌, some, any,
  if◌then◌else◌, true,
}
use multi_stage_agentic_sast.Scan.Sinks.{Summary, Found, check_sinks}

-- The names among some targets are given this taint.
unfoldable pub set_targets : List Expr → Taint → Tainted → Tainted
set_targets [] t tainted = tainted
set_targets (variable l x ∷ targets) t tainted = set_targets targets t (set_item x t tainted)
set_targets (_ ∷ targets) t tainted = set_targets targets t tainted

abbrev pub set_targets_if : List Expr → Option Taint → Tainted → Tainted
set_targets_if targets none tainted = tainted
set_targets_if targets (some t) tainted = set_targets targets t tainted

-- An expression that a rule is asked about.
abbrev pub is_access : Expr → Bool
is_access (call l f args kws) = true
is_access (attribute l e a) = true
is_access (subscript l e i) = true
is_access _ = false

abbrev pub is_variable : Expr → Bool
is_variable (variable l x) = true
is_variable _ = false

-- The value's taint, with a step for the assignment of a source or of a plain name.
abbrev pub assigned : Context → ℕ → Expr → Option Taint → Option Taint
assigned ctx line value none = none
assigned ctx line value (some t) =
    if is_access value && is_some (source_at ctx value) || is_variable value
    then some (extend t (step_at ctx assignment line))
    else some t

unfoldable pub either_taint : Option Taint → Option Taint → Option Taint
either_taint none b = b
either_taint (some a) b = some a

-- An augmented assignment, to a name or to something else.
abbrev pub augment : Context → ℕ → Expr → Option Taint → Tainted → Tainted
augment ctx line (variable l x) value tainted =
    set_targets_if (variable l x ∷ [])
      (propagated (propagation_step ctx line) (either_taint (get x tainted) value)) tainted
augment ctx line _ value tainted = tainted

-- _apply_assign for `targets = value`
unfoldable pub assign_value : Context → ℕ → List Expr → Expr → Tainted × Found → Tainted × Found
unfolding check_sinks taint_of set_targets
assign_value ctx line targets value (tainted, found) = (
  set_targets_if targets (assigned ctx line value (taint_of ctx tainted value)) tainted,
  check_sinks ctx value tainted found,
)

abbrev pub for_targets : Expr → List Expr
for_targets (display l tuple_display items) = exprs_list items
for_targets e = e ∷ []

abbrev pub mark_return : Option Taint → Option Summary → Option Summary
mark_return none summary = summary
mark_return (some t) none = none
mark_return (some t) (some m) = some (record m { returns_taint = true })

-- The enclosing classes and functions.
pub record Stack : Type 0 where
  pub classes : List String
  pub functions : List String

abbrev pub poisoned : Context → ℕ → List String → Tainted → Tainted
poisoned ctx line [] tainted = tainted
poisoned ctx line (n ∷ ns) tainted = poisoned ctx line ns (
    set_item n (record { steps = step_at ctx source line ∷ []; source_kind = "function_param" })
      tainted)

-- What a function's analysis starts from.
abbrev pub parameters : Context → ℕ → Params → Tainted
parameters ctx line params =
    if ctx.rule.poison_params then poisoned ctx line (param_names params) [] else []

abbrev pub new_summary : Stack → ℕ → String → Summary
new_summary stack line name = record {
  qualified_name = join "." (stack.classes ++ (stack.functions ++ name ∷ []));
  line = line;
  sinks = [];
  returns_taint = false;
}

-- set(names), sorted
abbrev pub distinct_names : List String → List String
distinct_names [] = []
distinct_names (n ∷ ns) =
    let rest = distinct_names ns in if any (λ m. m == n) rest then rest else n ∷ rest

abbrev pub sorted_names : List String → List String
sorted_names ns = sorted text_ltb (distinct_names ns)

abbrev pub summary_or : Summary → Option Summary → Summary
summary_or m none = m
summary_or m (some n) = n

-- The end of _analyze_function: the summary that the body left is recorded, and the enclosing
-- function's is taken up again.
abbrev pub close_function : Context → Summary → List String → Option Summary → Found → Found
close_function ctx fresh params outer found =
    let m = summary_or fresh found.summary in
    record {
      findings = found.findings;
      summaries =
          found.summaries
          ++ record {
            qualified_name = fresh.qualified_name;
            file = ctx.file;
            line = fresh.line;
            tainted_params = sorted_names params;
            sinks = m.sinks;
            returns_taint = m.returns_taint;
          }
            ∷ [];
      summary = outer;
    }

-- The two branches of a statement, joined with what was tainted before.
abbrev pub join_branches : Tainted → Tainted × Found → Tainted × Found → Tainted × Found
join_branches tainted (a, f) (b, g) = (update tainted (update a b), g)

-- `tainted.update(self._analyze_block(...))`
abbrev pub updated : Tainted → Tainted × Found → Tainted × Found
updated tainted (a, found) = (update tainted a, found)

unfoldable mutual
  unfolding assign_value update

  -- _apply_stmt
  pub apply_stmt : Context → Stack → Stmt → Tainted × Found → Tainted × Found
  apply_stmt ctx k (assign l targets value) s = assign_value ctx l (exprs_list targets) value s
  apply_stmt ctx k (ann_assign l target none) s = s
  apply_stmt ctx k (ann_assign l target (some value)) s = assign_value ctx l (target ∷ []) value s
  apply_stmt ctx k (aug_assign l target value) (tainted, found) = (
    augment ctx l target (taint_of ctx tainted value) tainted,
    check_sinks ctx value tainted found,
  )
  apply_stmt ctx k (if_stmt test body orelse) (tainted, found) =
      let a = analyze_block ctx k body (tainted, check_sinks ctx test tainted found) in
      join_branches tainted a (analyze_block ctx k orelse (tainted, a.1))
  apply_stmt ctx k (while_stmt test body orelse) (tainted, found) =
      let a = analyze_block ctx k body (tainted, check_sinks ctx test tainted found) in
      join_branches tainted a (analyze_block ctx k orelse (tainted, a.1))
  apply_stmt ctx k (for_stmt l target iter body orelse) (tainted, found) =
      let t =
        set_targets_if (for_targets target)
          (propagated (propagation_step ctx l) (taint_of ctx tainted iter)) tainted in
      let a = analyze_block ctx k body (t, check_sinks ctx iter tainted found) in
      join_branches t a (analyze_block ctx k orelse (t, a.1))
  apply_stmt ctx k (try_stmt body handlers orelse final) s =
      let a = updated s.0 (analyze_block ctx k body s) in
      let b = updated a.0 (analyze_block ctx k orelse a) in
      update_blocks ctx k handlers (updated b.0 (analyze_block ctx k final b))
  apply_stmt ctx k (with_stmt items body) s = updated s.0 (analyze_block ctx k body s)
  apply_stmt ctx k (function_def l name params body) (tainted, found) =
      let fresh = new_summary k l name in
      let inner =
        analyze_block ctx (record k { functions = k.functions ++ name ∷ [] }) body
          (parameters ctx l params, record found { summary = some fresh }) in
      (
        tainted,
        close_function ctx fresh (if ctx.rule.poison_params then param_names params else [])
            found.summary inner.1,
      )
  apply_stmt ctx k (class_def name body) (tainted, found) =
      let inner =
        analyze_block ctx (record k { classes = k.classes ++ name ∷ [] }) body
          ([], record found { summary = none }) in
      (tainted, record inner.1 { summary = found.summary })
  apply_stmt ctx k (expr_stmt e) (tainted, found) = (tainted, check_sinks ctx e tainted found)
  apply_stmt ctx k (return_stmt none) s = s
  apply_stmt ctx k (return_stmt (some e)) (tainted, found) =
      let f = check_sinks ctx e tainted found in
      (tainted, record f { summary = mark_return (taint_of ctx tainted e) f.summary })
  apply_stmt ctx k other_stmt s = s

  -- _analyze_block
  pub analyze_block : Context → Stack → Block → Tainted × Found → Tainted × Found
  analyze_block ctx k no_stmts s = s
  analyze_block ctx k (stmt st rest) s = analyze_block ctx k rest (apply_stmt ctx k st s)

  pub update_blocks : Context → Stack → Blocks → Tainted × Found → Tainted × Found
  update_blocks ctx k no_blocks s = s
  update_blocks ctx k (block b bs) s =
      update_blocks ctx k bs (updated s.0 (analyze_block ctx k b s))

abbrev pub nothing_found : Found
nothing_found = record { findings = []; summaries = []; summary = none }

-- SourceFile, as far as the scanner reads it: `failed` says that its parse did, and `body` is what
-- ast.parse makes of the source.
pub record CodeFile : Type 0 where
  pub path : String
  pub source : String
  pub failed : Bool
  pub body : Block

abbrev pub context_of : Python → Rule → String → CodeFile → Context
context_of py rule project f = record {
  python = py;
  rule = rule;
  project_id = project;
  file = f.path;
  source = f.source;
}

-- analyze_file
unfoldable pub analyze_file :
    Python → Rule → String → CodeFile → List CandidateFinding × List FunctionSummary
unfolding apply_stmt
analyze_file py rule project f =
    if f.failed
    then ([], [])
    else (let found =
          (analyze_block (context_of py rule project f) (record { classes = []; functions = [] })
            f.body ([], nothing_found)).1 in
        (found.findings, found.summaries))
