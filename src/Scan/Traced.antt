-- ===== src/Scan/Traced.antt =====
-- Every finding of a file is traced: its path leads from a source to an unsanitized sink.
use multi_stage_agentic_sast.Scan.Syntax.{
  Stmt, assign, ann_assign, aug_assign, if_stmt, while_stmt, for_stmt, try_stmt, with_stmt,
  function_def, class_def, expr_stmt, return_stmt, other_stmt, Block, no_stmts, stmt, Blocks,
  no_blocks, block, exprs_list,
}
use multi_stage_agentic_sast.Prelude.{All, ◌∷◌, String, none, inr, inl, [], ◌++◌, some, Bool-cases}
use multi_stage_agentic_sast.Scan.Expressions.{
  Context, Tainted, taint_of, propagation_step, propagated,
}
use multi_stage_agentic_sast.Scan.Engine.{
  analyze_file, apply_stmt, Stack, parameters, set_targets_if, CodeFile, context_of, nothing_found,
  analyze_block, for_targets, new_summary, update_blocks,
}
use multi_stage_agentic_sast.Scan.Rule.{Python, Rule}
use multi_stage_agentic_sast.Scan.Paths.{IsRooted-taint_of, IsRooted-propagated}
use multi_stage_agentic_sast.Scan.Traces.{
  IsTraced, IsSound, IsSound-assign_value, AllRooted-augment, AllTraced-check_sinks,
  IsSound-join_branches, AllRooted-set_targets_if, IsSound-updated, AllRooted-parameters,
}
use multi_stage_agentic_sast.Scan.Sinks.{Found, check_sinks}

module _ (ctx : Context) where
  mutual
    unfolding apply_stmt

    IsSound-apply_stmt :
        (k : Stack) (st : Stmt) (s : Tainted × Found)
        → IsSound ctx s
        → IsSound ctx (apply_stmt ctx k st s)
    IsSound-apply_stmt k (assign l targets value) s h =
        IsSound-assign_value ctx l (exprs_list targets) value s h
    IsSound-apply_stmt k (ann_assign l target none) s h = h
    IsSound-apply_stmt k (ann_assign l target (some value)) s h =
        IsSound-assign_value ctx l (target ∷ []) value s h
    IsSound-apply_stmt k (aug_assign l target value) (tainted, found) h = record {
      rooted =
          AllRooted-augment ctx l target (taint_of ctx tainted value) tainted
            (IsRooted-taint_of ctx tainted h.rooted value) h.rooted;
      traced = AllTraced-check_sinks ctx value tainted found h.rooted h.traced;
    }
    IsSound-apply_stmt k (if_stmt test body orelse) (tainted, found) h =
        let s : Tainted × Found = (tainted, check_sinks ctx test tainted found) in
        let c : IsSound ctx s = record {
          rooted = h.rooted;
          traced = AllTraced-check_sinks ctx test tainted found h.rooted h.traced;
        } in
        let a = IsSound-analyze_block k body s c in
        IsSound-join_branches ctx tainted _ _ h.rooted a (
          IsSound-analyze_block k orelse (tainted, (analyze_block ctx k body s).1)
            (record { rooted = h.rooted; traced = a.traced }))
    IsSound-apply_stmt k (while_stmt test body orelse) (tainted, found) h =
        let s : Tainted × Found = (tainted, check_sinks ctx test tainted found) in
        let c : IsSound ctx s = record {
          rooted = h.rooted;
          traced = AllTraced-check_sinks ctx test tainted found h.rooted h.traced;
        } in
        let a = IsSound-analyze_block k body s c in
        IsSound-join_branches ctx tainted _ _ h.rooted a (
          IsSound-analyze_block k orelse (tainted, (analyze_block ctx k body s).1)
            (record { rooted = h.rooted; traced = a.traced }))
    IsSound-apply_stmt k (for_stmt l target iter body orelse) (tainted, found) h =
        let o = propagated (propagation_step ctx l) (taint_of ctx tainted iter) in
        let t = set_targets_if (for_targets target) o tainted in
        let r =
          AllRooted-set_targets_if ctx (for_targets target) o tainted
            (IsRooted-propagated (propagation_step ctx l) (taint_of ctx tainted iter)
              (IsRooted-taint_of ctx tainted h.rooted iter))
            h.rooted in
        let s : Tainted × Found = (t, check_sinks ctx iter tainted found) in
        let c : IsSound ctx s = record {
          rooted = r;
          traced = AllTraced-check_sinks ctx iter tainted found h.rooted h.traced;
        } in
        let a = IsSound-analyze_block k body s c in
        IsSound-join_branches ctx t _ _ r a (
          IsSound-analyze_block k orelse (t, (analyze_block ctx k body s).1)
            (record { rooted = r; traced = a.traced }))
    IsSound-apply_stmt k (try_stmt body handlers orelse final) s h =
        let a = IsSound-updated ctx s.0 _ h.rooted (IsSound-analyze_block k body s h) in
        let b = IsSound-updated ctx _ _ a.rooted (IsSound-analyze_block k orelse _ a) in
        IsSound-update_blocks k handlers _
          (IsSound-updated ctx _ _ b.rooted (IsSound-analyze_block k final _ b))
    IsSound-apply_stmt k (with_stmt items body) s h =
        IsSound-updated ctx s.0 _ h.rooted (IsSound-analyze_block k body s h)
    IsSound-apply_stmt k (function_def l name params body) (tainted, found) h = record {
      rooted = h.rooted;
      traced =
          (IsSound-analyze_block (record k { functions = k.functions ++ name ∷ [] }) body
            (parameters ctx l params, record found { summary = some (new_summary k l name) })
            (record { rooted = AllRooted-parameters ctx l params; traced = h.traced })).traced;
    }
    IsSound-apply_stmt k (class_def name body) (tainted, found) h = record {
      rooted = h.rooted;
      traced =
          (IsSound-analyze_block (record k { classes = k.classes ++ name ∷ [] }) body
            ([], record found { summary = none })
            (record { rooted = tt; traced = h.traced })).traced;
    }
    IsSound-apply_stmt k (expr_stmt e) (tainted, found) h = record {
      rooted = h.rooted;
      traced = AllTraced-check_sinks ctx e tainted found h.rooted h.traced;
    }
    IsSound-apply_stmt k (return_stmt none) s h = h
    IsSound-apply_stmt k (return_stmt (some e)) (tainted, found) h = record {
      rooted = h.rooted;
      traced = AllTraced-check_sinks ctx e tainted found h.rooted h.traced;
    }
    IsSound-apply_stmt k other_stmt s h = h

    pub IsSound-analyze_block :
        (k : Stack) (b : Block) (s : Tainted × Found)
        → IsSound ctx s
        → IsSound ctx (analyze_block ctx k b s)
    IsSound-analyze_block k no_stmts s h = h
    IsSound-analyze_block k (stmt st rest) s h =
        IsSound-analyze_block k rest (apply_stmt ctx k st s) (IsSound-apply_stmt k st s h)

    pub IsSound-update_blocks :
        (k : Stack) (bs : Blocks) (s : Tainted × Found)
        → IsSound ctx s
        → IsSound ctx (update_blocks ctx k bs s)
    IsSound-update_blocks k no_blocks s h = h
    IsSound-update_blocks k (block b bs) s h =
        IsSound-update_blocks k bs _
          (IsSound-updated ctx s.0 _ h.rooted (IsSound-analyze_block k b s h))

-- Whatever the file and the rule, each finding of the file's analysis has a path that begins at a
-- source, where its source reference points, and ends at its sink; that sink is one that the rule
-- matched at a call, and did not take for sanitized; its type and confidence are the rule's, and its
-- id is the digest of the project, the type, the file and the two lines.
pub findings_are-IsTraced :
    (py : Python) (rule : Rule) (project : String) (f : CodeFile)
    → All (IsTraced (context_of py rule project f)) (analyze_file py rule project f).0
unfolding analyze_file
findings_are-IsTraced py rule project f = elim (Bool-cases f.failed) [
  | inl y ↦ rw y tt
  | inr n ↦
      rw n
        (IsSound-analyze_block (context_of py rule project f)
          (record { classes = []; functions = [] }) f.body ([], nothing_found)
          (record { rooted = tt; traced = tt })).traced
]
