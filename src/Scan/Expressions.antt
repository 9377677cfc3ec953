-- ===== src/Scan/Expressions.antt =====
-- The taint of an expression: _merge, _kind and TaintEngine._taint_of of
-- backend/app/scan/taint_engine.py.
use multi_stage_agentic_sast.Findings.{
  SourceRef, TaintStep, StepType, source, assignment, propagation, string_construction, sink,
}
use multi_stage_agentic_sast.Scan.Syntax.{
  Operator, add, mod_op, other_op, Expr, constant, variable, attribute, subscript, call, joined_str,
  formatted_value, bin_op, display, dict_display, if_exp, lambda_exp, other_expr, Exprs, no_exprs,
  expr,
}
use multi_stage_agentic_sast.Scan.Rule.{Python, Rule, line_text}
use multi_stage_agentic_sast.Prelude.Text.{starts_with}
use multi_stage_agentic_sast.Prelude.{
  false, ◌&&◌, some, none, ◌∷◌, any, ◌||◌, Option, String, ℕ, [], find_first, List, Bool, ◌++◌, eqb,
  if◌then◌else◌, true, ◌==◌,
}
use multi_stage_agentic_sast.Prelude.Dict.{Dict, get}

-- _Taint
pub record Taint : Type 0 where
  pub steps : List TaintStep
  pub source_kind : String

abbrev pub Tainted : Type 0
Tainted = Dict Taint

-- What a file's analysis does not change.
pub record Context : Type 0 where
  pub python : Python
  pub rule : Rule
  pub project_id : String
  pub file : String
  pub source : String

abbrev pub same_type : StepType → StepType → Bool
same_type source source = true
same_type assignment assignment = true
same_type propagation propagation = true
same_type string_construction string_construction = true
same_type sink sink = true
same_type _ _ = false

abbrev pub same_step : TaintStep → TaintStep → Bool
same_step a b =
    same_type a.step_type b.step_type
    && (a.file == b.file && (eqb a.line b.line && a.snippet == b.snippet))

-- The steps so far, and those of `new` that are not among them, each once.
unfoldable pub add_steps : List TaintStep → List TaintStep → List TaintStep
add_steps steps [] = steps
add_steps steps (s ∷ new) =
    add_steps (if any (same_step s) steps then steps else steps ++ s ∷ []) new

unfoldable pub merge_from : List TaintStep → List Taint → List TaintStep
unfolding add_steps
merge_from steps [] = steps
merge_from steps (p ∷ parts) = merge_from (add_steps steps p.steps) parts

-- _merge
abbrev pub merge : List Taint → List TaintStep
merge parts = merge_from [] parts

abbrev pub kind_or : String → Option Taint → String
kind_or kind none = kind
kind_or kind (some t) = t.source_kind

-- _kind: the first kind that is a request's, or the first.
unfoldable pub kind : Taint → List Taint → String
unfolding starts_with
kind p parts =
    kind_or p.source_kind
      (find_first (λ (t : Taint). starts_with "request" t.source_kind) (p ∷ parts))

abbrev pub step_at : Context → StepType → ℕ → TaintStep
step_at ctx type line = record {
  file = ctx.file;
  line = line;
  snippet = line_text ctx.python ctx.source line;
  step_type = type;
}

-- _string_step and _propagation_step
abbrev pub string_step : Context → ℕ → TaintStep
string_step ctx line = step_at ctx string_construction line

abbrev pub propagation_step : Context → ℕ → TaintStep
propagation_step ctx line = step_at ctx propagation line

abbrev pub source_taint : Context → ℕ → SourceRef → Taint
source_taint ctx line ref = record {
  steps = record { file = ctx.file; line = line; snippet = ref.snippet; step_type = source } ∷ [];
  source_kind = ref.kind;
}

-- The taint of a source, or what the expression has otherwise.
abbrev pub source_or : Context → ℕ → Option SourceRef → Option Taint → Option Taint
source_or ctx line none otherwise = otherwise
source_or ctx line (some ref) otherwise = some (source_taint ctx line ref)

abbrev pub extend : Taint → TaintStep → Taint
extend t step = record { steps = t.steps ++ step ∷ []; source_kind = t.source_kind }

-- A tainted value, taken further.
abbrev pub propagated : TaintStep → Option Taint → Option Taint
propagated step none = none
propagated step (some t) = some (extend t step)

-- A value that is made of several.
abbrev pub combined : TaintStep → List Taint → Option Taint
combined step [] = none
combined step (p ∷ parts) =
    some (record { steps = merge (p ∷ parts) ++ step ∷ []; source_kind = kind p parts })

abbrev pub part : Option Taint → List Taint
part none = []
part (some t) = t ∷ []

-- str, repr and bytes
abbrev pub is_conversion : String → Bool
is_conversion f = f == "str" || (f == "repr" || f == "bytes")

abbrev pub is_string_operator : Operator → Bool
is_string_operator add = true
is_string_operator mod_op = true
is_string_operator other_op = false

-- The rule's answer, for an expression that it is asked about.
abbrev pub source_at : Context → Expr → Option SourceRef
source_at ctx e = ctx.rule.is_source e ctx.file ctx.source

module _ (ctx : Context) (tainted : Tainted) where
  unfoldable mutual
    unfolding get merge_from kind line_text

    pub taint_of : Expr → Option Taint
    taint_of (constant l n) = none
    taint_of (variable l x) = get x tainted
    taint_of (attribute l e a) =
        source_or ctx l (source_at ctx (attribute l e a))
          (propagated (propagation_step ctx l) (taint_of e))
    taint_of (subscript l e i) =
        source_or ctx l (source_at ctx (subscript l e i))
          (propagated (propagation_step ctx l) (taint_of e))
    taint_of (call l (variable m f) (expr a args) kws) =
        source_or ctx l (source_at ctx (call l (variable m f) (expr a args) kws))
          (if is_conversion f then propagated (propagation_step ctx l) (taint_of a) else none)
    taint_of (call l (attribute m e f) args kws) =
        source_or ctx l (source_at ctx (call l (attribute m e f) args kws)) (
          if f == "format"
          then combined (string_step ctx l) (part (taint_of e) ++ parts_of args)
          else none)
    taint_of (call l f args kws) = source_or ctx l (source_at ctx (call l f args kws)) none
    taint_of (joined_str l pieces) = combined (string_step ctx l) (formatted_parts pieces)
    taint_of (formatted_value l e spec) = none
    taint_of (bin_op l op a b) =
        if is_string_operator op
        then combined (string_step ctx l) (part (taint_of a) ++ part (taint_of b))
        else none
    taint_of (display l k items) = combined (propagation_step ctx l) (parts_of items)
    taint_of (dict_display l ks vs) = combined (propagation_step ctx l) (parts_of ks ++ parts_of vs)
    taint_of (if_exp l c a b) =
        combined (propagation_step ctx l)
          (part (taint_of c) ++ (part (taint_of a) ++ part (taint_of b)))
    taint_of (lambda_exp l children) = none
    taint_of (other_expr l children) = none

    pub parts_of : Exprs → List Taint
    parts_of no_exprs = []
    parts_of (expr e es) = part (taint_of e) ++ parts_of es

    -- The parts of an f-string: what its fields format.
    pub formatted_parts : Exprs → List Taint
    formatted_parts no_exprs = []
    formatted_parts (expr (formatted_value l e spec) es) = part (taint_of e) ++ formatted_parts es
    formatted_parts (expr _ es) = formatted_parts es
