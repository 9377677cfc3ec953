-- ===== src/Scan/Reachability.antt =====
-- When an expression is tainted, from the names that are, without the steps that lead there.
use multi_stage_agentic_sast.Scan.Syntax.{
  Expr, constant, variable, attribute, subscript, call, joined_str, formatted_value, bin_op,
  display, dict_display, if_exp, lambda_exp, other_expr, Exprs, no_exprs, expr,
}
use multi_stage_agentic_sast.Prelude.{
  arith, true, [], refl, List, some, if◌then◌else◌, Option, Bool, none, ◌||◌, ◌≡◌, false, ◌++◌,
  ◌&&◌, ℕ, ◌∷◌, is_some, String, ◌==◌,
}
use multi_stage_agentic_sast.Findings.{TaintStep, SourceRef}
use multi_stage_agentic_sast.Prelude.Dict.{get}
use multi_stage_agentic_sast.Scan.Expressions.{
  Context, Tainted, Taint, source_at, is_conversion, taint_of, is_string_operator, parts_of, part,
  source_or, combined, propagated, formatted_parts,
}

abbrev pub Names : Type 0
Names = String → Bool

abbrev pub is_source : Context → Expr → Bool
is_source ctx e = is_some (source_at ctx e)

module _ (ctx : Context) (s : Names) where
  unfoldable mutual
    pub is_tainted : Expr → Bool
    is_tainted (constant l n) = false
    is_tainted (variable l x) = s x
    is_tainted (attribute l e a) = is_source ctx (attribute l e a) || is_tainted e
    is_tainted (subscript l e i) = is_source ctx (subscript l e i) || is_tainted e
    is_tainted (call l (variable m f) (expr a args) kws) =
        is_source ctx (call l (variable m f) (expr a args) kws) || is_conversion f && is_tainted a
    is_tainted (call l (attribute m e f) args kws) =
        is_source ctx (call l (attribute m e f) args kws)
        || f == "format" && (is_tainted e || any_tainted args)
    is_tainted (call l f args kws) = is_source ctx (call l f args kws)
    is_tainted (joined_str l pieces) = any_formatted pieces
    is_tainted (formatted_value l e spec) = false
    is_tainted (bin_op l op a b) = is_string_operator op && (is_tainted a || is_tainted b)
    is_tainted (display l k items) = any_tainted items
    is_tainted (dict_display l ks vs) = any_tainted ks || any_tainted vs
    is_tainted (if_exp l c a b) = is_tainted c || (is_tainted a || is_tainted b)
    is_tainted (lambda_exp l children) = false
    is_tainted (other_expr l children) = false

    pub any_tainted : Exprs → Bool
    any_tainted no_exprs = false
    any_tainted (expr e es) = is_tainted e || any_tainted es

    pub any_formatted : Exprs → Bool
    any_formatted no_exprs = false
    any_formatted (expr (formatted_value l e spec) es) = is_tainted e || any_formatted es
    any_formatted (expr _ es) = any_formatted es

-- The names that are tainted.
abbrev pub names_of : Tainted → Names
names_of d x = is_some (get x d)

abbrev some_parts : List Taint → Bool
some_parts [] = false
some_parts (t ∷ ts) = true

some_parts-append : (ps qs : List Taint) → some_parts (ps ++ qs) ≡ (some_parts ps || some_parts qs)
some_parts-append [] qs = ground arith
some_parts-append (p ∷ ps) qs = ground arith

some_parts-part : (o : Option Taint) → some_parts (part o) ≡ is_some o
some_parts-part none = refl
some_parts-part (some t) = refl

is_some-combined : (step : TaintStep) (ps : List Taint) → is_some (combined step ps) ≡ some_parts ps
is_some-combined step [] = refl
is_some-combined step (p ∷ ps) = refl

pub is_some-propagated :
    (step : TaintStep) (o : Option Taint) → is_some (propagated step o) ≡ is_some o
is_some-propagated step none = refl
is_some-propagated step (some t) = refl

is_some-source_or :
    (ctx : Context) (l : ℕ) (ref : Option SourceRef) (o : Option Taint)
    → is_some (source_or ctx l ref o) ≡ (is_some ref || is_some o)
is_some-source_or ctx l none o = ground arith
is_some-source_or ctx l (some ref) o = ground arith

is_some-source :
    (ctx : Context) (l : ℕ) (ref : Option SourceRef)
    → is_some (source_or ctx l ref none) ≡ is_some ref
is_some-source ctx l none = refl
is_some-source ctx l (some ref) = refl

is_some-if : (b : Bool) (o : Option Taint) → is_some (if b then o else none) ≡ (b && is_some o)
is_some-if true o = ground arith
is_some-if false o = refl

ruleset some_laws = (
  some_parts-append, some_parts-part, is_some-combined, is_some-propagated, is_some-source_or,
  is_some-if,
)

module _ (ctx : Context) (d : Tainted) where
  mutual
    unfolding taint_of is_tainted

    taint_of_lem : (e : Expr) → is_some (taint_of ctx d e) ≡ is_tainted ctx (names_of d) e
    taint_of_lem (constant l n) = refl
    taint_of_lem (variable l x) = refl
    taint_of_lem (attribute l e a) = simp (some_laws, taint_of_lem e)
    taint_of_lem (subscript l e i) = simp (some_laws, taint_of_lem e)
    taint_of_lem (call l (variable m f) (expr a args) kws) = simp (some_laws, taint_of_lem a)
    taint_of_lem (call l (attribute m e f) args kws) =
        simp (some_laws, taint_of_lem e, some_parts-parts_of args)
    taint_of_lem (call l f args kws) = is_some-source ctx l (source_at ctx (call l f args kws))
    taint_of_lem (joined_str l pieces) = simp (some_laws, some_parts-formatted_parts pieces)
    taint_of_lem (formatted_value l e spec) = refl
    taint_of_lem (bin_op l op a b) = simp (some_laws, taint_of_lem a, taint_of_lem b)
    taint_of_lem (display l k items) = simp (some_laws, some_parts-parts_of items)
    taint_of_lem (dict_display l ks vs) =
        simp (some_laws, some_parts-parts_of ks, some_parts-parts_of vs)
    taint_of_lem (if_exp l c a b) = simp (some_laws, taint_of_lem c, taint_of_lem a, taint_of_lem b)
    taint_of_lem (lambda_exp l children) = refl
    taint_of_lem (other_expr l children) = refl

    some_parts-parts_of :
        (es : Exprs) → some_parts (parts_of ctx d es) ≡ any_tainted ctx (names_of d) es
    some_parts-parts_of no_exprs = refl
    some_parts-parts_of (expr e es) = simp (some_laws, taint_of_lem e, some_parts-parts_of es)

    some_parts-formatted_parts :
        (es : Exprs) → some_parts (formatted_parts ctx d es) ≡ any_formatted ctx (names_of d) es
    some_parts-formatted_parts no_exprs = refl
    some_parts-formatted_parts (expr (formatted_value l e spec) es) =
        simp (some_laws, taint_of_lem e, some_parts-formatted_parts es)
    some_parts-formatted_parts (expr _ es) = some_parts-formatted_parts es

-- Whether there is a taint depends on which names are tainted only, not on their steps.
pub taint_is_reachability :
    (ctx : Context) (d : Tainted) (e : Expr)
    → is_some (taint_of ctx d e) ≡ is_tainted ctx (names_of d) e
taint_is_reachability ctx d e = taint_of_lem ctx d e
