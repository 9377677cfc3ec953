-- ===== src/Scan/Syntax.antt =====
-- The Python syntax trees that the scanner reads, with the node types that it tells apart; any other
-- expression is its line and its children, in order. A number first is the line of the node.
use multi_stage_agentic_sast.Prelude.{
  ℕ, String, Bool, Option, List, [], ◌∷◌, ◌++◌, true, false, if◌then◌else◌, not, select, ◌||◌, ◌==◌,
  none, some,
}
use multi_stage_agentic_sast.Prelude.Dict.{values}

-- The operators that the engine asks for, and the others.
pub data Operator : Type 0 where
  add mod_op other_op : Operator

pub data DisplayKind : Type 0 where
  list_display tuple_display set_display : DisplayKind

mutual
  -- A constant says whether its value is None; the keys of a dict are those that are there (`**`
  -- has none); the children of a lambda are its defaults and its body.
  pub data Expr : Type 0 where
    constant : ℕ → Bool → Expr
    variable : ℕ → String → Expr
    attribute : ℕ → Expr → String → Expr
    subscript : ℕ → Expr → Expr → Expr
    call : ℕ → Expr → Exprs → Keywords → Expr
    joined_str : ℕ → Exprs → Expr
    formatted_value : ℕ → Expr → Exprs → Expr
    bin_op : ℕ → Operator → Expr → Expr → Expr
    display : ℕ → DisplayKind → Exprs → Expr
    dict_display : ℕ → Exprs → Exprs → Expr
    if_exp : ℕ → Expr → Expr → Expr → Expr
    lambda_exp : ℕ → Exprs → Expr
    other_expr : ℕ → Exprs → Expr

  pub data Exprs : Type 0 where
    no_exprs : Exprs
    expr : Expr → Exprs → Exprs

  -- The keyword arguments of a call; `**kwargs` has no name.
  pub data Keywords : Type 0 where
    no_keywords : Keywords
    keyword : Option String → Expr → Keywords → Keywords

-- The parameters of a function, by their kinds.
pub record Params : Type 0 where
  pub posonlyargs : List String
  pub args : List String
  pub kwonlyargs : List String
  pub vararg : Option String
  pub kwarg : Option String

mutual
  pub data Stmt : Type 0 where
    assign : ℕ → Exprs → Expr → Stmt
    ann_assign : ℕ → Expr → Option Expr → Stmt
    aug_assign : ℕ → Expr → Expr → Stmt
    if_stmt while_stmt : Expr → Block → Block → Stmt
    for_stmt : ℕ → Expr → Expr → Block → Block → Stmt
    try_stmt : Block → Blocks → Block → Block → Stmt
    with_stmt : Exprs → Block → Stmt
    function_def : ℕ → String → Params → Block → Stmt
    class_def : String → Block → Stmt
    expr_stmt : Expr → Stmt
    return_stmt : Option Expr → Stmt
    other_stmt : Stmt

  pub data Block : Type 0 where
    no_stmts : Block
    stmt : Stmt → Block → Block

  -- The bodies of the handlers of a try.
  pub data Blocks : Type 0 where
    no_blocks : Blocks
    block : Block → Blocks → Blocks

abbrev pub line_of : Expr → ℕ
line_of (constant l n) = l
line_of (variable l x) = l
line_of (attribute l e a) = l
line_of (subscript l e i) = l
line_of (call l f args kws) = l
line_of (joined_str l values) = l
line_of (formatted_value l e spec) = l
line_of (bin_op l op a b) = l
line_of (display l k items) = l
line_of (dict_display l ks vs) = l
line_of (if_exp l c a b) = l
line_of (lambda_exp l children) = l
line_of (other_expr l children) = l

abbrev pub is_lambda : Expr → Bool
is_lambda (lambda_exp l children) = true
is_lambda _ = false

-- A lambda below the root keeps its calls to itself.
abbrev pub below : Expr → List Expr → List Expr
below e calls = if is_lambda e then [] else calls

unfoldable mutual
  -- _collect_calls, its inner `walk`: a lambda below the root is skipped.
  pub collect_calls : Expr → List Expr
  collect_calls (constant l n) = []
  collect_calls (variable l x) = []
  collect_calls (attribute l e a) = below e (collect_calls e)
  collect_calls (subscript l e i) = below e (collect_calls e) ++ below i (collect_calls i)
  collect_calls (call l f args kws) =
      call l f args kws ∷ (below f (collect_calls f) ++ (calls_in args ++ calls_in_keywords kws))
  collect_calls (joined_str l parts) = calls_in parts
  collect_calls (formatted_value l e spec) = below e (collect_calls e) ++ calls_in spec
  collect_calls (bin_op l op a b) = below a (collect_calls a) ++ below b (collect_calls b)
  collect_calls (display l k items) = calls_in items
  collect_calls (dict_display l ks vs) = calls_in ks ++ calls_in vs
  collect_calls (if_exp l c a b) =
      below c (collect_calls c) ++ (below a (collect_calls a) ++ below b (collect_calls b))
  collect_calls (lambda_exp l children) = calls_in children
  collect_calls (other_expr l children) = calls_in children

  pub calls_in : Exprs → List Expr
  calls_in no_exprs = []
  calls_in (expr e es) = below e (collect_calls e) ++ calls_in es

  pub calls_in_keywords : Keywords → List Expr
  calls_in_keywords no_keywords = []
  calls_in_keywords (keyword k e kws) = below e (collect_calls e) ++ calls_in_keywords kws

abbrev pub exprs_list : Exprs → List Expr
exprs_list no_exprs = []
exprs_list (expr e es) = e ∷ exprs_list es

abbrev pub keywords_list : Keywords → List (Option String × Expr)
keywords_list no_keywords = []
keywords_list (keyword k e kws) = (k, e) ∷ keywords_list kws

abbrev option_list : Option String → List String
option_list none = []
option_list (some x) = x ∷ []

-- _param_names
abbrev pub param_names : Params → List String
param_names p =
    select (λ (n : String). not (n == "self" || n == "cls"))
      (p.posonlyargs ++ (p.args ++ (p.kwonlyargs ++ (option_list p.vararg ++ option_list p.kwarg))))
