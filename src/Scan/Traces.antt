-- ===== src/Scan/Traces.antt =====
-- What each step of a file's analysis keeps: rooted taints and traced findings.
use multi_stage_agentic_sast.Scan.Syntax.{Expr, variable, Params, collect_calls, param_names}
use multi_stage_agentic_sast.Prelude.{
  refl, ◌&&◌, ℕ, All, List, ◌∷◌, String, All-append, none, Option, true, inr, ◌≡◌, ◌||◌, inl, [],
  ◌++◌, some, is_some, false, Bool-cases,
}
use multi_stage_agentic_sast.Prelude.Dict.{get, set_item, update}
use multi_stage_agentic_sast.Scan.Expressions.{
  Context, Taint, Tainted, taint_of, source_at, propagation_step, step_at,
}
use multi_stage_agentic_sast.Scan.Engine.{
  either_taint, set_targets, assign_value, assigned, augment, join_branches, parameters, updated,
  set_targets_if, poisoned, is_access, is_variable,
}
use multi_stage_agentic_sast.Findings.{CandidateFinding, TaintStep, SinkRef, assignment}
use multi_stage_agentic_sast.Scan.Paths.{
  AllRooted, RootedOption, IsRooted, AllRooted-set_item, AllRooted-update, IsRooted-taint_of,
  IsRooted-propagated, starts_at_source, starts-append, RootedOption-get,
}
use multi_stage_agentic_sast.Scan.Sinks.{
  check_sinks, taint_at, emit, check_calls, sink_step, Found, emit_if, source_ref_from_step,
  check_sink, first_step, finding_at, finding_id,
}

-- A finding, with the steps before its sink and the call that the rule matched.
pub record IsTraced (ctx : Context) (f : CandidateFinding) : Type 0 where
  pub steps : List TaintStep
  pub site : Expr
  pub path : f.taint_path ≡ steps ++ sink_step ctx f.sink_ref ∷ []
  pub rooted : starts_at_source steps ≡ true
  pub origin :
      f.source_ref
      ≡ source_ref_from_step (first_step (sink_step ctx f.sink_ref) steps) f.source_ref.kind
  pub named : f.id ≡ finding_id ctx f.source_ref.line f.sink_ref.line
  pub typed : f.vulnerability_type ≡ ctx.rule.vulnerability_type
  pub scored : f.confidence ≡ ctx.rule.confidence f.taint_path f.source_ref.kind
  pub matched : ctx.rule.match_sink site ctx.file ctx.source ≡ some f.sink_ref
  pub unsanitized : ctx.rule.is_sanitized site f.sink_ref ≡ false

abbrev pub AllTraced : Context → Found → Type 0
AllTraced ctx found = All (IsTraced ctx) found.findings

-- The taints are rooted and the findings traced.
pub record IsSound (ctx : Context) (s : Tainted × Found) : Type 0 where
  pub rooted : AllRooted s.0
  pub traced : AllTraced ctx s.1

module _ (ctx : Context) where
  pub AllTraced-emit_if :
      (c : Expr) (s : SinkRef) (o : Option Taint) (found : Found)
      → ctx.rule.match_sink c ctx.file ctx.source ≡ some s
      → ctx.rule.is_sanitized c s ≡ false
      → RootedOption o
      → AllTraced ctx found
      → AllTraced ctx (emit_if ctx s o found)
  unfolding emit
  AllTraced-emit_if c s none found m n r h = h
  AllTraced-emit_if c s (some t) found m n r h =
      All-append (IsTraced ctx) found.findings (finding_at ctx s t ∷ []) h (
        record {
          steps = t.steps;
          site = c;
          path = refl;
          rooted = r;
          origin = refl;
          named = refl;
          typed = refl;
          scored = refl;
          matched = m;
          unsanitized = n;
        },
        tt,
      )

  pub RootedOption-taint_at :
      (tainted : Tainted) (o : Option Expr)
      → AllRooted tainted
      → RootedOption (taint_at ctx tainted o)
  RootedOption-taint_at tainted none h = tt
  RootedOption-taint_at tainted (some e) h = IsRooted-taint_of ctx tainted h e

  pub AllTraced-check_sink :
      (tainted : Tainted) (c : Expr) (o : Option SinkRef) (found : Found)
      → ctx.rule.match_sink c ctx.file ctx.source ≡ o
      → AllRooted tainted
      → AllTraced ctx found
      → AllTraced ctx (check_sink ctx tainted c o found)
  AllTraced-check_sink tainted c none found m r h = h
  AllTraced-check_sink tainted c (some s) found m r h =
      elim (Bool-cases (ctx.rule.is_sanitized c s)) [
        | inl y ↦ rw y h
        | inr n ↦ rw n (
            AllTraced-emit_if c s (taint_at ctx tainted (ctx.rule.sink_expression c)) found m n
              (RootedOption-taint_at tainted (ctx.rule.sink_expression c) r) h)
      ]

  pub AllTraced-check_calls :
      (tainted : Tainted) (cs : List Expr) (found : Found)
      → AllRooted tainted
      → AllTraced ctx found
      → AllTraced ctx (check_calls ctx tainted cs found)
  unfolding check_calls
  AllTraced-check_calls tainted [] found r h = h
  AllTraced-check_calls tainted (c ∷ cs) found r h =
      let o = ctx.rule.match_sink c ctx.file ctx.source in
      AllTraced-check_calls tainted cs (check_sink ctx tainted c o found) r
        (AllTraced-check_sink tainted c o found refl r h)

  pub AllTraced-check_sinks :
      (e : Expr) (tainted : Tainted) (found : Found)
      → AllRooted tainted
      → AllTraced ctx found
      → AllTraced ctx (check_sinks ctx e tainted found)
  unfolding check_sinks
  AllTraced-check_sinks e tainted found r h =
      AllTraced-check_calls tainted (collect_calls e) found r h

  pub AllRooted-set_targets :
      (targets : List Expr) (t : Taint) (tainted : Tainted)
      → IsRooted t
      → AllRooted tainted
      → AllRooted (set_targets targets t tainted)
  unfolding set_targets
  AllRooted-set_targets [] t tainted r h = h
  AllRooted-set_targets (variable l x ∷ ts) t tainted r h =
      AllRooted-set_targets ts t (set_item x t tainted) r (AllRooted-set_item x t tainted r h)
  AllRooted-set_targets (_ ∷ ts) t tainted r h = AllRooted-set_targets ts t tainted r h

  pub AllRooted-set_targets_if :
      (targets : List Expr) (o : Option Taint) (tainted : Tainted)
      → RootedOption o
      → AllRooted tainted
      → AllRooted (set_targets_if targets o tainted)
  AllRooted-set_targets_if targets none tainted r h = h
  AllRooted-set_targets_if targets (some t) tainted r h =
      AllRooted-set_targets targets t tainted r h

  pub RootedOption-assigned :
      (l : ℕ) (value : Expr) (o : Option Taint)
      → RootedOption o
      → RootedOption (assigned ctx l value o)
  RootedOption-assigned l value none r = tt
  RootedOption-assigned l value (some t) r =
      elim (Bool-cases (is_access value && is_some (source_at ctx value) || is_variable value)) [
        | inl y ↦ rw y (starts-append t.steps (step_at ctx assignment l ∷ []) r)
        | inr n ↦ rw n r
      ]

  pub IsSound-assign_value :
      (l : ℕ) (targets : List Expr) (value : Expr) (s : Tainted × Found)
      → IsSound ctx s
      → IsSound ctx (assign_value ctx l targets value s)
  unfolding assign_value
  IsSound-assign_value l targets value (tainted, found) h = record {
    rooted =
        AllRooted-set_targets_if targets (assigned ctx l value (taint_of ctx tainted value)) tainted
          (RootedOption-assigned l value (taint_of ctx tainted value)
            (IsRooted-taint_of ctx tainted h.rooted value))
          h.rooted;
    traced = AllTraced-check_sinks value tainted found h.rooted h.traced;
  }

  pub RootedOption-either_taint :
      (a b : Option Taint) → RootedOption a → RootedOption b → RootedOption (either_taint a b)
  unfolding either_taint
  RootedOption-either_taint none b h g = g
  RootedOption-either_taint (some a) b h g = h

  pub AllRooted-augment :
      (l : ℕ) (target : Expr) (value : Option Taint) (tainted : Tainted)
      → RootedOption value
      → AllRooted tainted
      → AllRooted (augment ctx l target value tainted)
  AllRooted-augment l (variable m x) value tainted r h =
      AllRooted-set_targets_if (variable m x ∷ []) _ tainted
        (IsRooted-propagated (propagation_step ctx l) (either_taint (get x tainted) value)
          (RootedOption-either_taint (get x tainted) value (RootedOption-get x tainted h) r))
        h
  AllRooted-augment l _ value tainted r h = h

  pub AllRooted-poisoned :
      (l : ℕ) (ns : List String) (tainted : Tainted)
      → AllRooted tainted
      → AllRooted (poisoned ctx l ns tainted)
  AllRooted-poisoned l [] tainted h = h
  AllRooted-poisoned l (n ∷ ns) tainted h =
      AllRooted-poisoned l ns _ (AllRooted-set_item n _ tainted refl h)

  pub AllRooted-parameters : (l : ℕ) (p : Params) → AllRooted (parameters ctx l p)
  AllRooted-parameters l p = elim (Bool-cases ctx.rule.poison_params) [
    | inl y ↦ rw y (AllRooted-poisoned l (param_names p) [] tt)
    | inr n ↦ rw n tt
  ]

  pub IsSound-updated :
      (tainted : Tainted) (s : Tainted × Found)
      → AllRooted tainted
      → IsSound ctx s
      → IsSound ctx (updated tainted s)
  IsSound-updated tainted (a, found) r h = record {
    rooted = AllRooted-update tainted a r h.rooted;
    traced = h.traced;
  }

  pub IsSound-join_branches :
      (tainted : Tainted) (a b : Tainted × Found)
      → AllRooted tainted
      → IsSound ctx a
      → IsSound ctx b
      → IsSound ctx (join_branches tainted a b)
  IsSound-join_branches tainted (a, f) (b, g) r h k = record {
    rooted = AllRooted-update tainted (update a b) r (AllRooted-update a b h.rooted k.rooted);
    traced = k.traced;
  }
