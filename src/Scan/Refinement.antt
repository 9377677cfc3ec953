-- ===== src/Scan/Refinement.antt =====
-- The engine refines the paths: it over-approximates the names that are tainted on each of them.
use multi_stage_agentic_sast.Scan.Syntax.{
  Expr, variable, Stmt, Block, no_stmts, Blocks, no_blocks, block, exprs_list,
}
use multi_stage_agentic_sast.Scan.Trails.{
  Step, Trail, Handles, first, later, assigns, declares, initializes, augments, then_branch,
  else_branch, while_body, while_else, for_body, for_else, no_exception, handled, enters, defines,
  defines_class, evaluates, returns, others, ends, passes, bind, bind_augmented,
}
use multi_stage_agentic_sast.Prelude.{◌||◌, ℕ, some, [], ◌∷◌, Option, ◌∙◌, none}
use multi_stage_agentic_sast.Prelude.Dict.{get, update}
use multi_stage_agentic_sast.Scan.Expressions.{
  Context, Tainted, taint_of, Taint, propagated, propagation_step,
}
use multi_stage_agentic_sast.Scan.Engine.{
  apply_stmt, Stack, updated, update_blocks, join_branches, analyze_block, augment, set_targets_if,
  for_targets, either_taint,
}
use multi_stage_agentic_sast.Scan.Reachability.{Names, is_tainted, is_some-propagated}
use multi_stage_agentic_sast.Scan.Coverage.{
  Covers, Covers-assign_value, Covers-left, Covers-right, Covers-for_targets, Covers-bind,
  Covers-set_targets_if, is_some-either, or_mono, is_some-taint_of,
}
use multi_stage_agentic_sast.Scan.Sinks.{Found, check_sinks}

module _ (ctx : Context) where
  Covers-augment :
      (l : ℕ) (target value : Expr) (s : Names) (d : Tainted)
      → Covers s d
      → Covers
          (bind_augmented target (is_tainted ctx s value) s)
          (augment ctx l target (taint_of ctx d value) d)
  unfolding bind
  Covers-augment l (variable m x) value s d h =
      let o : Option Taint = either_taint (get x d) (taint_of ctx d value) in
      Covers-bind (variable m x ∷ []) (s x || is_tainted ctx s value)
        (propagated (propagation_step ctx l) o) s d
        (λ g.
          is_some-propagated (propagation_step ctx l) o
          ∙ (is_some-either (get x d) (taint_of ctx d value)
              ∙ or_mono (s x) (is_tainted ctx s value) _ _ (h x) (is_some-taint_of ctx s d value h)
                  g))
        h
  Covers-augment l _ value s d h = h

  Covers-first :
      (s : Names) (d : Tainted) (a b : Tainted × Found)
      → Covers s a.0
      → Covers s (join_branches d a b).0
  Covers-first s d (a, f) (b, g) h = Covers-right s d (update a b) (Covers-left s a b h)

  Covers-second :
      (s : Names) (d : Tainted) (a b : Tainted × Found)
      → Covers s b.0
      → Covers s (join_branches d a b).0
  Covers-second s d (a, f) (b, g) h = Covers-right s d (update a b) (Covers-right s a b h)

  -- Two branches from the same names, as an `if` or a loop has them.
  abbrev branches : Stack → Block → Block → Tainted → Found → Tainted × Found
  branches k body orelse d found =
      let a : Tainted × Found = analyze_block ctx k body (d, found) in
      join_branches d a (analyze_block ctx k orelse (d, a.1))

  -- The names that are tainted in a `for` over this value.
  abbrev iterated : ℕ → Expr → Expr → Tainted → Tainted
  iterated l target iter d =
      set_targets_if (for_targets target)
        (propagated (propagation_step ctx l) (taint_of ctx d iter)) d

  Covers-body :
      (k : Stack) (body orelse : Block) (t : Names) (d : Tainted) (found : Found)
      → Covers t (analyze_block ctx k body (d, found)).0
      → Covers t (branches k body orelse d found).0
  Covers-body k body orelse t d found h =
      let a : Tainted × Found = analyze_block ctx k body (d, found) in
      Covers-first t d a (analyze_block ctx k orelse (d, a.1)) h

  Covers-orelse :
      (k : Stack) (body orelse : Block) (t : Names) (d : Tainted) (found : Found)
      → ((f : Found) → Covers t (analyze_block ctx k orelse (d, f)).0)
      → Covers t (branches k body orelse d found).0
  Covers-orelse k body orelse t d found h =
      let a : Tainted × Found = analyze_block ctx k body (d, found) in
      Covers-second t d a (analyze_block ctx k orelse (d, a.1)) (h a.1)

  Covers-kept :
      (s : Names) (d : Tainted) (a : Tainted × Found) → Covers s d → Covers s (updated d a).0
  Covers-kept s d (a, f) h = Covers-left s d a h

  Covers-gained :
      (s : Names) (d : Tainted) (a : Tainted × Found) → Covers s a.0 → Covers s (updated d a).0
  Covers-gained s d (a, f) h = Covers-right s d a h

  Covers-update_blocks :
      (k : Stack) (bs : Blocks) (s : Names) (a : Tainted × Found)
      → Covers s a.0
      → Covers s (update_blocks ctx k bs a).0
  unfolding apply_stmt
  Covers-update_blocks k no_blocks s a h = h
  Covers-update_blocks k (block b bs) s a h =
      Covers-update_blocks k bs s _ (Covers-kept s a.0 (analyze_block ctx k b a) h)

  -- Whatever a handler adds to what precedes it is there after all of them.
  Covers-handler :
      (k : Stack) {b : Block} {bs : Blocks} {s t : Names} (a : Tainted × Found)
      → Handles b bs
      → ((c : Tainted × Found) → Covers s c.0 → Covers t (analyze_block ctx k b c).0)
      → Covers s a.0
      → Covers t (update_blocks ctx k bs a).0
  unfolding apply_stmt
  Covers-handler k {b = b} {t = t} a (first {bs = bs}) p h =
      Covers-update_blocks k bs t (updated a.0 (analyze_block ctx k b a))
        (Covers-gained t a.0 (analyze_block ctx k b a) (p a h))
  Covers-handler k {s = s} a (later {a = c} m) p h =
      Covers-handler k (updated a.0 (analyze_block ctx k c a)) m p
        (Covers-kept s a.0 (analyze_block ctx k c a) h)

  mutual
    unfolding apply_stmt bind

    Covers-apply_stmt :
        (k : Stack) {st : Stmt} {s t : Names} (d : Tainted) (found : Found)
        → Step ctx st s t
        → Covers s d
        → Covers t (apply_stmt ctx k st (d, found)).0
    Covers-apply_stmt k d found (assigns {l = l} {targets = targets} {value = value} {s = s}) h =
        Covers-assign_value ctx l (exprs_list targets) value s d found h
    Covers-apply_stmt k d found declares h = h
    Covers-apply_stmt k d found (initializes {l = l} {target = target} {value = value} {s = s}) h =
        Covers-assign_value ctx l (target ∷ []) value s d found h
    Covers-apply_stmt k d found (augments {l = l} {target = target} {value = value} {s = s}) h =
        Covers-augment l target value s d h
    Covers-apply_stmt k d found (then_branch {test = test} {body = body} {orelse = o} {t = t} p) h =
        let f : Found = check_sinks ctx test d found in
        Covers-body k body o t d f (Covers-analyze_block k (d, f) p h)
    Covers-apply_stmt k d found (else_branch {test = test} {body = body} {orelse = o} {t = t} p) h =
        Covers-orelse k body o t d (check_sinks ctx test d found)
          (λ f. Covers-analyze_block k (d, f) p h)
    Covers-apply_stmt k d found (while_body {test = test} {body = body} {orelse = o} {t = t} p) h =
        let f : Found = check_sinks ctx test d found in
        Covers-body k body o t d f (Covers-analyze_block k (d, f) p h)
    Covers-apply_stmt k d found (while_else {test = test} {body = body} {orelse = o} {t = t} p) h =
        Covers-orelse k body o t d (check_sinks ctx test d found)
          (λ f. Covers-analyze_block k (d, f) p h)
    Covers-apply_stmt k d found
          (for_body {l = l} {target = x} {iter = i} {body = body} {orelse = o} {s = s} {t = t} p)
          h =
        let e : Tainted = iterated l x i d in
        let f : Found = check_sinks ctx i d found in
        Covers-body k body o t e f
          (Covers-analyze_block k (e, f) p (Covers-for_targets ctx l x i s d h))
    Covers-apply_stmt k d found
          (for_else {l = l} {target = x} {iter = i} {body = body} {orelse = o} {s = s} {t = t} p)
          h =
        let e : Tainted = iterated l x i d in
        Covers-orelse k body o t e (check_sinks ctx i d found)
          (λ f. Covers-analyze_block k (e, f) p (Covers-set_targets_if (for_targets x) _ s d h))
    Covers-apply_stmt k d found
          (no_exception {body = body} {orelse = orelse} {final = final} {handlers = hs} {s = s}
            {t = t} {u = u} {v = v} p q r)
          h =
        let a : Tainted × Found = updated d (analyze_block ctx k body (d, found)) in
        let b : Tainted × Found = updated a.0 (analyze_block ctx k orelse a) in
        Covers-update_blocks k hs v _ (
          Covers-gained v b.0 (analyze_block ctx k final b) (
            Covers-analyze_block k b r (
              Covers-gained u a.0 (analyze_block ctx k orelse a) (
                Covers-analyze_block k a q (
                  Covers-gained t d (analyze_block ctx k body (d, found))
                    (Covers-analyze_block k (d, found) p h))))))
    Covers-apply_stmt k d found
          (handled {body = body} {orelse = orelse} {handler = handler} {handlers = hs} {s = s}
            {t = t} {u = u} p m q)
          h =
        let a : Tainted × Found = updated d (analyze_block ctx k body (d, found)) in
        let b : Tainted × Found = updated a.0 (analyze_block ctx k orelse a) in
        Covers-handler k _ m (λ c g. Covers-analyze_block k c q g)
          (Covers-kept t b.0 (analyze_block ctx k no_stmts b) (
            Covers-kept t a.0 (analyze_block ctx k orelse a) (
              Covers-gained t d (analyze_block ctx k body (d, found))
                (Covers-analyze_block k (d, found) p h))))
    Covers-apply_stmt k d found (enters {items = items} {body = body} {s = s} {t = t} p) h =
        Covers-gained t d (analyze_block ctx k body (d, found))
          (Covers-analyze_block k (d, found) p h)
    Covers-apply_stmt k d found defines h = h
    Covers-apply_stmt k d found defines_class h = h
    Covers-apply_stmt k d found evaluates h = h
    Covers-apply_stmt k d found (returns {e = none}) h = h
    Covers-apply_stmt k d found (returns {e = some v}) h = h
    Covers-apply_stmt k d found others h = h

    Covers-analyze_block :
        (k : Stack) {b : Block} {s t : Names} (a : Tainted × Found)
        → Trail ctx b s t
        → Covers s a.0
        → Covers t (analyze_block ctx k b a).0
    Covers-analyze_block k a ends h = h
    Covers-analyze_block k a (passes {st} {rest} p q) h =
        Covers-analyze_block k (apply_stmt ctx k st a) q (Covers-apply_stmt k a.0 a.1 p h)

-- The paths are those of Scan.Trails: every statement is run whole; an `if` takes either branch; a
-- loop passes its body once and leaves before its `else`, or passes only its `else`; a `try` passes
-- its body, `else` and `finally` without an exception, or, only when it has no `finally`, its whole
-- body and then one handler. What changes the tainted names is an assignment to a name, plain,
-- annotated or augmented, and a `for` with a name or names as its target; a value is tainted as in
-- Scan.Reachability. A tuple as a target of an assignment, the `as` of a `with`, a definition and the
-- statements that the engine skips (among them match, async for and async with) are taken to change
-- nothing. On each of these paths through a block, every name that ends tainted is tainted in what
-- the engine makes of the block, when the engine started from all that was tainted. Nothing is stated
-- of a path that passes a loop's body twice, or its body and then its `else`, that leaves the body of
-- a `try` halfway, or that passes a handler and then a `finally`.
pub trails_are_covered :
    (ctx : Context) (k : Stack) {b : Block} {s t : Names} (a : Tainted × Found)
    → Trail ctx b s t
    → Covers s a.0
    → Covers t (analyze_block ctx k b a).0
trails_are_covered ctx k a p h = Covers-analyze_block ctx k a p h
