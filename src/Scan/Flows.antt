-- ===== src/Scan/Flows.antt =====
-- How a taint goes through an expression of backend/app/scan/taint_engine.py (_taint_of): the places
-- inside it that hand a taint on, and the sources and tainted names that it starts from.
use multi_stage_agentic_sast.Scan.Syntax.{
  Expr, variable, attribute, subscript, call, joined_str, formatted_value, bin_op, display,
  dict_display, if_exp, Exprs, expr, Keywords, DisplayKind, Operator,
}
use multi_stage_agentic_sast.Scan.Reachability.{
  Names, is_tainted, any_tainted, any_formatted, is_source,
}
use multi_stage_agentic_sast.Scan.Expressions.{Context, is_conversion, is_string_operator}
use multi_stage_agentic_sast.Prelude.{String, ◌≡◌, true, ℕ, arith, ◌==◌}

-- An expression of the list.
pub data Among (e : Expr) : Exprs → Type 0 where
  first : {es : Exprs} → Among e (expr e es)
  later : {x : Expr} {es : Exprs} → Among e es → Among e (expr x es)

-- The value of the first expression goes into the value of the second: not the index of a subscript,
-- and not a keyword argument.
pub data Feeds (e : Expr) : Expr → Type 0 where
  of_attribute : {l : ℕ} {a : String} → Feeds e (attribute l e a)
  of_subscript : {l : ℕ} {i : Expr} → Feeds e (subscript l e i)
  of_conversion :
      {l m : ℕ} {f : String} {args : Exprs} {kws : Keywords}
      → is_conversion f ≡ true
      → Feeds e (call l (variable m f) (expr e args) kws)
  of_template :
      {l m : ℕ} {f : String} {args : Exprs} {kws : Keywords}
      → (f == "format") ≡ true
      → Feeds e (call l (attribute m e f) args kws)
  of_argument :
      {l m : ℕ} {template : Expr} {f : String} {args : Exprs} {kws : Keywords}
      → (f == "format") ≡ true
      → Among e args
      → Feeds e (call l (attribute m template f) args kws)
  of_piece :
      {l m : ℕ} {spec : Exprs} {pieces : Exprs}
      → Among (formatted_value m e spec) pieces
      → Feeds e (joined_str l pieces)
  of_left :
      {l : ℕ} {op : Operator} {b : Expr} → is_string_operator op ≡ true → Feeds e (bin_op l op e b)
  of_right :
      {l : ℕ} {op : Operator} {a : Expr} → is_string_operator op ≡ true → Feeds e (bin_op l op a e)
  of_item : {l : ℕ} {k : DisplayKind} {items : Exprs} → Among e items → Feeds e (display l k items)
  of_key : {l : ℕ} {ks vs : Exprs} → Among e ks → Feeds e (dict_display l ks vs)
  of_value : {l : ℕ} {ks vs : Exprs} → Among e vs → Feeds e (dict_display l ks vs)
  of_test : {l : ℕ} {a b : Expr} → Feeds e (if_exp l e a b)
  of_then : {l : ℕ} {c b : Expr} → Feeds e (if_exp l c e b)
  of_else : {l : ℕ} {c a : Expr} → Feeds e (if_exp l c a e)

-- From one expression into another, over any number of places.
pub data Flows (x : Expr) : Expr → Type 0 where
  stays : Flows x x
  goes : {e f : Expr} → Flows x e → Feeds e f → Flows x f

module _ (ctx : Context) (s : Names) where
  -- A tainted name, or a source of the rule.
  pub data IsOrigin : Expr → Type 0 where
    tainted_name : {l : ℕ} {x : String} → s x ≡ true → IsOrigin (variable l x)
    attribute_source :
        {l : ℕ} {e : Expr} {a : String}
        → is_source ctx (attribute l e a) ≡ true
        → IsOrigin (attribute l e a)
    subscript_source :
        {l : ℕ} {e i : Expr} → is_source ctx (subscript l e i) ≡ true → IsOrigin (subscript l e i)
    call_source :
        {l : ℕ} {f : Expr} {args : Exprs} {kws : Keywords}
        → is_source ctx (call l f args kws) ≡ true
        → IsOrigin (call l f args kws)

  call-is_tainted :
      (l : ℕ) (f : Expr) (args : Exprs) (kws : Keywords)
      → is_source ctx (call l f args kws) ≡ true
      → is_tainted ctx s (call l f args kws) ≡ true
  unfolding is_tainted
  call-is_tainted l (variable m f) (expr a args) kws h = ground (arith, h)
  call-is_tainted l (attribute m e f) args kws h = ground (arith, h)
  call-is_tainted l f args kws h = h

  pub origin-is_tainted : {x : Expr} → IsOrigin x → is_tainted ctx s x ≡ true
  unfolding is_tainted
  origin-is_tainted (tainted_name h) = h
  origin-is_tainted (attribute_source h) = ground (arith, h)
  origin-is_tainted (subscript_source h) = ground (arith, h)
  origin-is_tainted (call_source {l} {f} {args} {kws} h) = call-is_tainted l f args kws h

  among-any_tainted :
      (e : Expr) {es : Exprs} → Among e es → is_tainted ctx s e ≡ true → any_tainted ctx s es ≡ true
  unfolding is_tainted
  among-any_tainted e first h = ground (arith, h)
  among-any_tainted e (later m) h = ground (arith, among-any_tainted e m h)

  any_formatted-cons :
      (x : Expr) (es : Exprs)
      → any_formatted ctx s es ≡ true
      → any_formatted ctx s (expr x es) ≡ true
  unfolding is_tainted
  any_formatted-cons (formatted_value l e spec) es h = ground (arith, h)
  any_formatted-cons x es h = h

  among-any_formatted :
      (l : ℕ) (e : Expr) (spec : Exprs) {es : Exprs}
      → Among (formatted_value l e spec) es
      → is_tainted ctx s e ≡ true
      → any_formatted ctx s es ≡ true
  unfolding is_tainted
  among-any_formatted l e spec first h = ground (arith, h)
  among-any_formatted l e spec (later {x} {es} m) h =
      any_formatted-cons x es (among-any_formatted l e spec m h)

  Feeds-is_tainted :
      (e f : Expr) → Feeds e f → is_tainted ctx s e ≡ true → is_tainted ctx s f ≡ true
  unfolding is_tainted
  Feeds-is_tainted e _ of_attribute h = ground (arith, h)
  Feeds-is_tainted e _ of_subscript h = ground (arith, h)
  Feeds-is_tainted e _ (of_conversion c) h = ground (arith, h, c)
  Feeds-is_tainted e _ (of_template c) h = ground (arith, h, c)
  Feeds-is_tainted e _ (of_argument c m) h = ground (arith, c, among-any_tainted e m h)
  Feeds-is_tainted e _ (of_piece {m = l} {spec = spec} m) h = among-any_formatted l e spec m h
  Feeds-is_tainted e _ (of_left c) h = ground (arith, h, c)
  Feeds-is_tainted e _ (of_right c) h = ground (arith, h, c)
  Feeds-is_tainted e _ (of_item m) h = among-any_tainted e m h
  Feeds-is_tainted e _ (of_key m) h = ground (arith, among-any_tainted e m h)
  Feeds-is_tainted e _ (of_value m) h = ground (arith, among-any_tainted e m h)
  Feeds-is_tainted e _ of_test h = ground (arith, h)
  Feeds-is_tainted e _ of_then h = ground (arith, h)
  Feeds-is_tainted e _ of_else h = ground (arith, h)

  pub Flows-is_tainted :
      {x e : Expr} → Flows x e → is_tainted ctx s x ≡ true → is_tainted ctx s e ≡ true
  Flows-is_tainted stays h = h
  Flows-is_tainted (goes {e} {f} p q) h = Feeds-is_tainted e f q (Flows-is_tainted p h)

  -- The origin of the taint of an expression.
  pub record Provenance (e : Expr) : Type 0 where
    pub place : Expr
    pub is_origin : IsOrigin place
    pub flows : Flows place e

  pub itself : (e : Expr) → IsOrigin e → Provenance e
  itself e h = record { place = e; is_origin = h; flows = stays }

  pub through : (e f : Expr) → Feeds e f → Provenance e → Provenance f
  through e f q o = record { place = o.place; is_origin = o.is_origin; flows = goes o.flows q }
