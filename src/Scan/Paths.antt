-- ===== src/Scan/Paths.antt =====
-- Every taint goes back to a source, and every finding's path leads from a source to its sink.
use multi_stage_agentic_sast.Scan.Syntax.{
  Expr, constant, variable, attribute, subscript, call, joined_str, formatted_value, bin_op,
  display, dict_display, if_exp, lambda_exp, other_expr, Exprs, no_exprs, expr,
}
use multi_stage_agentic_sast.Scan.Expressions.{
  Taint, Tainted, Context, taint_of, merge_from, add_steps, same_type, part, combined, same_step,
  propagated, merge, source_or, propagation_step, is_conversion, string_step, parts_of,
  is_string_operator, formatted_parts, source_at,
}
use multi_stage_agentic_sast.Prelude.{
  String, ◌≡◌, Bool-cases, Bool, ℕ, inr, false, Option, ◌++◌, All, All-append, [], some, none, refl,
  if◌then◌else◌, List, any, inl, ◌∷◌, ◌==◌, true,
}
use multi_stage_agentic_sast.Prelude.Dict.{get, update, set_item}
use multi_stage_agentic_sast.Findings.{TaintStep, SourceRef, source}

-- Steps that begin at a source.
abbrev pub starts_at_source : List TaintStep → Bool
starts_at_source [] = false
starts_at_source (s ∷ steps) = same_type s.step_type source

abbrev pub IsRooted : Taint → Type 0
IsRooted t = starts_at_source t.steps ≡ true

-- A taint, if there is one, is rooted.
abbrev pub RootedOption : Option Taint → Type 0
RootedOption none = Unit
RootedOption (some t) = IsRooted t

abbrev pub AllRooted : Tainted → Type 0
AllRooted tainted = All (λ (p : String × Taint). IsRooted p.1) tainted

pub RootedOption-get : (x : String) (d : Tainted) → AllRooted d → RootedOption (get x d)
unfolding get
RootedOption-get x [] h = tt
RootedOption-get x ((k, t) ∷ d) (h, hs) = elim (Bool-cases (k == x)) [
  | inl e ↦ rw e h
  | inr n ↦ rw n (RootedOption-get x d hs)
]

pub AllRooted-set_item :
    (x : String) (t : Taint) (d : Tainted) → IsRooted t → AllRooted d → AllRooted (set_item x t d)
unfolding set_item
AllRooted-set_item x t [] r h = (r, tt)
AllRooted-set_item x t ((k, u) ∷ d) r (h, hs) = elim (Bool-cases (k == x)) [
  | inl e ↦ rw e (r, hs)
  | inr n ↦ rw n (h, AllRooted-set_item x t d r hs)
]

pub AllRooted-update : (d e : Tainted) → AllRooted d → AllRooted e → AllRooted (update d e)
unfolding update
AllRooted-update d [] h g = h
AllRooted-update d ((k, t) ∷ e) h (g, gs) =
    AllRooted-update (set_item k t d) e (AllRooted-set_item k t d g h) gs

pub starts-append :
    (xs ys : List TaintStep) → starts_at_source xs ≡ true → starts_at_source (xs ++ ys) ≡ true
starts-append [] ys h = cc
starts-append (x ∷ xs) ys h = h

starts-add_steps :
    (xs ys : List TaintStep)
    → starts_at_source xs ≡ true
    → starts_at_source (add_steps xs ys) ≡ true
unfolding add_steps
starts-add_steps xs [] h = h
starts-add_steps xs (y ∷ ys) h = elim (Bool-cases (any (same_step y) xs)) [
  | inl old ↦ rw old (starts-add_steps xs ys h)
  | inr new ↦ rw new (starts-add_steps (xs ++ y ∷ []) ys (starts-append xs (y ∷ []) h))
]

starts-merge_from :
    (xs : List TaintStep) (ps : List Taint)
    → starts_at_source xs ≡ true
    → starts_at_source (merge_from xs ps) ≡ true
unfolding merge_from
starts-merge_from xs [] h = h
starts-merge_from xs (p ∷ ps) h =
    starts-merge_from (add_steps xs p.steps) ps (starts-add_steps xs p.steps h)

-- The first step is always new.
starts-first_steps :
    (xs : List TaintStep) → starts_at_source xs ≡ true → starts_at_source (add_steps [] xs) ≡ true
unfolding add_steps
starts-first_steps [] h = h
starts-first_steps (x ∷ xs) h = starts-add_steps (x ∷ []) xs h

IsRooted-combined :
    (step : TaintStep) (ps : List Taint) → All IsRooted ps → RootedOption (combined step ps)
unfolding merge_from
IsRooted-combined step [] h = tt
IsRooted-combined step (p ∷ ps) (h, hs) =
    starts-append (merge (p ∷ ps)) (step ∷ [])
      (starts-merge_from (add_steps [] p.steps) ps (starts-first_steps p.steps h))

pub IsRooted-propagated :
    (step : TaintStep) (o : Option Taint) → RootedOption o → RootedOption (propagated step o)
IsRooted-propagated step none h = tt
IsRooted-propagated step (some t) h = starts-append t.steps (step ∷ []) h

IsRooted-source_or :
    (ctx : Context) (l : ℕ) (ref : Option SourceRef) (o : Option Taint)
    → RootedOption o
    → RootedOption (source_or ctx l ref o)
IsRooted-source_or ctx l none o h = h
IsRooted-source_or ctx l (some ref) o h = refl

All-part : (o : Option Taint) → RootedOption o → All IsRooted (part o)
All-part none h = tt
All-part (some t) h = (h, tt)

RootedOption-if :
    (b : Bool) (o : Option Taint) → RootedOption o → RootedOption (if b then o else none)
RootedOption-if true o h = h
RootedOption-if false o h = tt

module _ (ctx : Context) (tainted : Tainted) (rooted : AllRooted tainted) where
  mutual
    unfolding taint_of

    pub IsRooted-taint_of : (e : Expr) → RootedOption (taint_of ctx tainted e)
    IsRooted-taint_of (constant l n) = tt
    IsRooted-taint_of (variable l x) = RootedOption-get x tainted rooted
    IsRooted-taint_of (attribute l e a) =
        IsRooted-source_or ctx l _ _
          (IsRooted-propagated (propagation_step ctx l) _ (IsRooted-taint_of e))
    IsRooted-taint_of (subscript l e i) =
        IsRooted-source_or ctx l _ _
          (IsRooted-propagated (propagation_step ctx l) _ (IsRooted-taint_of e))
    IsRooted-taint_of (call l (variable m f) (expr a args) kws) = IsRooted-source_or ctx l _ _ (
        RootedOption-if (is_conversion f) _
          (IsRooted-propagated (propagation_step ctx l) _ (IsRooted-taint_of a)))
    IsRooted-taint_of (call l (attribute m e f) args kws) = IsRooted-source_or ctx l _ _ (
        RootedOption-if (f == "format") _ (
          IsRooted-combined (string_step ctx l) _ (
            All-append IsRooted (part (taint_of ctx tainted e)) (parts_of ctx tainted args)
              (All-part _ (IsRooted-taint_of e)) (All-parts_of args))))
    IsRooted-taint_of (call l f args kws) =
        IsRooted-source_or ctx l (source_at ctx (call l f args kws)) none tt
    IsRooted-taint_of (joined_str l pieces) =
        IsRooted-combined (string_step ctx l) _ (All-formatted_parts pieces)
    IsRooted-taint_of (formatted_value l e spec) = tt
    IsRooted-taint_of (bin_op l op a b) = RootedOption-if (is_string_operator op) _ (
        IsRooted-combined (string_step ctx l) _ (
          All-append IsRooted (part (taint_of ctx tainted a)) (part (taint_of ctx tainted b))
            (All-part _ (IsRooted-taint_of a)) (All-part _ (IsRooted-taint_of b))))
    IsRooted-taint_of (display l k items) =
        IsRooted-combined (propagation_step ctx l) _ (All-parts_of items)
    IsRooted-taint_of (dict_display l ks vs) = IsRooted-combined (propagation_step ctx l) _ (
        All-append IsRooted (parts_of ctx tainted ks) (parts_of ctx tainted vs) (All-parts_of ks)
          (All-parts_of vs))
    IsRooted-taint_of (if_exp l c a b) = IsRooted-combined (propagation_step ctx l) _ (
        All-append IsRooted (part (taint_of ctx tainted c)) _ (All-part _ (IsRooted-taint_of c)) (
          All-append IsRooted (part (taint_of ctx tainted a)) (part (taint_of ctx tainted b))
            (All-part _ (IsRooted-taint_of a)) (All-part _ (IsRooted-taint_of b))))
    IsRooted-taint_of (lambda_exp l children) = tt
    IsRooted-taint_of (other_expr l children) = tt

    All-parts_of : (es : Exprs) → All IsRooted (parts_of ctx tainted es)
    All-parts_of no_exprs = tt
    All-parts_of (expr e es) =
        All-append IsRooted (part (taint_of ctx tainted e)) (parts_of ctx tainted es)
          (All-part _ (IsRooted-taint_of e)) (All-parts_of es)

    All-formatted_parts : (es : Exprs) → All IsRooted (formatted_parts ctx tainted es)
    All-formatted_parts no_exprs = tt
    All-formatted_parts (expr (formatted_value l e spec) es) =
        All-append IsRooted (part (taint_of ctx tainted e)) (formatted_parts ctx tainted es)
          (All-part _ (IsRooted-taint_of e)) (All-formatted_parts es)
    All-formatted_parts (expr _ es) = All-formatted_parts es
