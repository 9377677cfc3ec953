-- ===== src/Scan/Trails.antt =====
-- Paths of a program through its statements, with the names that are really tainted on them: an
-- assignment of an untainted value makes its name untainted again. These are the paths on which the
-- engine, which joins them, has every one of those names. Not all runs are among them: the engine
-- analyzes the `else` of a loop from the state before the body, and a `finally` before the handlers
-- (Scan.Samples has a name that it misses for each).
use multi_stage_agentic_sast.Scan.Syntax.{
  Expr, variable, Exprs, Stmt, assign, ann_assign, aug_assign, if_stmt, while_stmt, for_stmt,
  try_stmt, with_stmt, function_def, class_def, expr_stmt, return_stmt, other_stmt, Block, no_stmts,
  stmt, Blocks, block, Params, exprs_list,
}
use multi_stage_agentic_sast.Scan.Reachability.{Names, is_tainted}
use multi_stage_agentic_sast.Prelude.{
  Option, if◌then◌else◌, Bool, String, List, none, ◌==◌, ◌∷◌, some, ◌||◌, ℕ, [],
}
use multi_stage_agentic_sast.Scan.Expressions.{Context}
use multi_stage_agentic_sast.Scan.Engine.{for_targets}

-- The names among the targets are tainted, or not, as the value is.
unfoldable pub bind : List Expr → Bool → Names → Names
bind [] b s = s
bind (variable l x ∷ targets) b s = bind targets b (λ y. if x == y then b else s y)
bind (_ ∷ targets) b s = bind targets b s

abbrev pub bind_augmented : Expr → Bool → Names → Names
bind_augmented (variable l x) b s = λ y. if x == y then s x || b else s y
bind_augmented _ b s = s

-- The bodies of the handlers of a try.
pub data Handles : Block → Blocks → Type 0 where
  first : {b : Block} {bs : Blocks} → Handles b (block b bs)
  later : {a b : Block} {bs : Blocks} → Handles b bs → Handles b (block a bs)

module _ (ctx : Context) where
  mutual
    -- What a statement makes of the tainted names on one path. The body of a loop is passed once
    -- and left by a `break` at its end (or there is no `else`), or only the `else` is passed; a
    -- `try` is passed without an exception, or, when it has no `finally`, its whole body and then
    -- one handler.
    pub data Step : Stmt → Names → Names → Type 0 where
      assigns :
          {l : ℕ} {targets : Exprs} {value : Expr} {s : Names}
          → Step (assign l targets value) s (bind (exprs_list targets) (is_tainted ctx s value) s)
      declares : {l : ℕ} {target : Expr} {s : Names} → Step (ann_assign l target none) s s
      initializes :
          {l : ℕ} {target value : Expr} {s : Names}
          → Step
              (ann_assign l target (some value))
              s
              (bind (target ∷ []) (is_tainted ctx s value) s)
      augments :
          {l : ℕ} {target value : Expr} {s : Names}
          → Step (aug_assign l target value) s (bind_augmented target (is_tainted ctx s value) s)
      then_branch :
          {test : Expr} {body orelse : Block} {s t : Names}
          → Trail body s t
          → Step (if_stmt test body orelse) s t
      else_branch :
          {test : Expr} {body orelse : Block} {s t : Names}
          → Trail orelse s t
          → Step (if_stmt test body orelse) s t
      while_body :
          {test : Expr} {body orelse : Block} {s t : Names}
          → Trail body s t
          → Step (while_stmt test body orelse) s t
      while_else :
          {test : Expr} {body orelse : Block} {s t : Names}
          → Trail orelse s t
          → Step (while_stmt test body orelse) s t
      for_body :
          {l : ℕ} {target iter : Expr} {body orelse : Block} {s t : Names}
          → Trail body (bind (for_targets target) (is_tainted ctx s iter) s) t
          → Step (for_stmt l target iter body orelse) s t
      for_else :
          {l : ℕ} {target iter : Expr} {body orelse : Block} {s t : Names}
          → Trail orelse s t
          → Step (for_stmt l target iter body orelse) s t
      no_exception :
          {body orelse final : Block} {handlers : Blocks} {s t u v : Names}
          → Trail body s t
          → Trail orelse t u
          → Trail final u v
          → Step (try_stmt body handlers orelse final) s v
      handled :
          {body orelse handler : Block} {handlers : Blocks} {s t u : Names}
          → Trail body s t
          → Handles handler handlers
          → Trail handler t u
          → Step (try_stmt body handlers orelse no_stmts) s u
      enters :
          {items : Exprs} {body : Block} {s t : Names}
          → Trail body s t
          → Step (with_stmt items body) s t
      defines :
          {l : ℕ} {name : String} {params : Params} {body : Block} {s : Names}
          → Step (function_def l name params body) s s
      defines_class : {name : String} {body : Block} {s : Names} → Step (class_def name body) s s
      evaluates : {e : Expr} {s : Names} → Step (expr_stmt e) s s
      returns : {e : Option Expr} {s : Names} → Step (return_stmt e) s s
      others : {s : Names} → Step other_stmt s s

    pub data Trail : Block → Names → Names → Type 0 where
      ends : {s : Names} → Trail no_stmts s s
      passes :
          {st : Stmt} {rest : Block} {s t u : Names}
          → Step st s t
          → Trail rest t u
          → Trail (stmt st rest) s u
