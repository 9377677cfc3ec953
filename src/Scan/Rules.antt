-- ===== src/Scan/Rules.antt =====
-- backend/app/scan/rules: what the rules share, and the four rules.
pub mod Sql
pub mod Command
pub mod Ssrf
pub mod Deserialization
use multi_stage_agentic_sast.Findings.{
  SourceRef, TaintStep, StepType, assignment, propagation, string_construction,
}
use multi_stage_agentic_sast.Scan.Syntax.{
  Expr, constant, variable, attribute, subscript, call, expr, no_exprs,
}
use multi_stage_agentic_sast.Scan.Rule.{Python, source_segment}
use multi_stage_agentic_sast.Prelude.Text.{starts_with}
use multi_stage_agentic_sast.Prelude.Dict.{contains}
use multi_stage_agentic_sast.Prelude.{
  ℕ, String, length, select, ◌==◌, if◌then◌else◌, Bool, none, leb, true, Option, some, ◌∷◌, ◌&&◌,
  [], List, false, ◌-◌,
}

-- REQUEST_ATTRS
abbrev pub request_attrs : List String
request_attrs = "args" ∷ "form" ∷ "values" ∷ "json" ∷ "cookies" ∷ "headers" ∷ []

-- `request.<attr>` with an attribute that the user controls
abbrev pub is_request : Expr → String → Bool
is_request (variable l x) a = x == "request" && contains a request_attrs
is_request _ a = false

-- `request.<attr>` as a whole
abbrev pub is_request_attribute : Expr → Bool
is_request_attribute (attribute l e a) = is_request e a
is_request_attribute _ = false

abbrev pub reference : Python → String → String → ℕ → Expr → String → SourceRef
reference py file source line e kind = record {
  file = file;
  line = line;
  snippet = source_segment py source e;
  kind = kind;
}

-- request_source
unfoldable pub request_source : Python → Expr → String → String → Option SourceRef
unfolding contains source_segment
request_source py (attribute l e a) file source =
    let rest = request_source py e file source in
    if is_request e a
    then some (
        reference py file source l (attribute l e a)
          (if a == "json" then "request_json" else "request_param"))
    else rest
request_source py (subscript l e i) file source = request_source py e file source
request_source py (call l (attribute m receiver a) args kws) file source =
    if a == "get" && is_request_attribute receiver
    then some
        (reference py file source l (call l (attribute m receiver a) args kws) "request_param")
    else none
request_source py _ file source = none

abbrev pub is_intermediate : StepType → Bool
is_intermediate assignment = true
is_intermediate propagation = true
is_intermediate string_construction = true
is_intermediate _ = false

-- taint_confidence, in hundredths
unfoldable pub taint_confidence : List TaintStep → String → ℕ
unfolding starts_with
taint_confidence path source_kind =
    let base = if starts_with "request" source_kind then 90 else 70 in
    let intermediate = select (λ (s : TaintStep). is_intermediate s.step_type) path in
    base - (if leb 3 (length intermediate) then 10 else 0)

-- sink_expression, as ScanRule has it: the first positional argument.
abbrev pub first_argument : Expr → Option Expr
first_argument (call l f (expr e es) kws) = some e
first_argument _ = none
