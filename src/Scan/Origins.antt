-- ===== src/Scan/Origins.antt =====
-- Every taint of an expression has an origin in it, and no origin is lost: _taint_of of
-- backend/app/scan/taint_engine.py.
use multi_stage_agentic_sast.Scan.Syntax.{
  Expr, constant, variable, attribute, subscript, call, joined_str, formatted_value, bin_op,
  display, dict_display, if_exp, lambda_exp, other_expr, Exprs, no_exprs, expr,
}
use multi_stage_agentic_sast.Scan.Flows.{
  Among, first, later, Feeds, of_attribute, of_subscript, of_conversion, of_template, of_argument,
  of_piece, of_left, of_right, of_item, of_key, of_value, of_test, of_then, of_else, Flows,
  IsOrigin, tainted_name, attribute_source, subscript_source, call_source, Provenance, itself,
  through, origin-is_tainted, Flows-is_tainted,
}
use multi_stage_agentic_sast.Scan.Reachability.{
  Names, is_tainted, taint_is_reachability, any_tainted, any_formatted, names_of, is_source,
}
use multi_stage_agentic_sast.Scan.Expressions.{
  Context, Tainted, taint_of, is_conversion, is_string_operator,
}
use multi_stage_agentic_sast.Prelude.{
  is_some, sym, true, ◌||◌, false, ◌&&◌, ◌⊎◌, ℕ, ◌∙◌, inl, ◌==◌, refl, ◌≡◌, Bool, arith, inr,
}

or_cases : (a b : Bool) → (a || b) ≡ true → (a ≡ true) ⊎ (b ≡ true)
or_cases true b h = inl refl
or_cases false b h = inr h

and_left : (a b : Bool) → (a && b) ≡ true → a ≡ true
and_left a b h = ground (arith, h)

and_right : (a b : Bool) → (a && b) ≡ true → b ≡ true
and_right a b h = ground (arith, h)

module _ (ctx : Context) (s : Names) where
  -- Where an attribute or a subscript has its taint from.
  source_or_below :
      (e f : Expr) (b : Bool)
      → (is_source ctx f ≡ true → IsOrigin ctx s f)
      → Feeds e f
      → (b ≡ true → Provenance ctx s e)
      → (is_source ctx f || b) ≡ true
      → Provenance ctx s f
  source_or_below e f b origin q below h = elim (or_cases (is_source ctx f) b h) [
    | inl y ↦ itself ctx s f (origin y)
    | inr y ↦ through ctx s e f q (below y)
  ]

  -- An expression among the given ones, with the origin of its taint.
  record ItemProvenance (es : Exprs) : Type 0 where
    item : Expr
    among : Among item es
    origin : Provenance ctx s item

  record PieceProvenance (es : Exprs) : Type 0 where
    line : ℕ
    piece : Expr
    spec : Exprs
    among : Among (formatted_value line piece spec) es
    origin : Provenance ctx s piece

  ItemProvenance-later : (x : Expr) (es : Exprs) → ItemProvenance es → ItemProvenance (expr x es)
  ItemProvenance-later x es o = record { item = o.item; among = later o.among; origin = o.origin }

  PieceProvenance-later : (x : Expr) (es : Exprs) → PieceProvenance es → PieceProvenance (expr x es)
  PieceProvenance-later x es o = record {
    line = o.line;
    piece = o.piece;
    spec = o.spec;
    among = later o.among;
    origin = o.origin;
  }

  through_item :
      (es : Exprs) (f : Expr)
      → ((e : Expr) → Among e es → Feeds e f)
      → ItemProvenance es
      → Provenance ctx s f
  through_item es f q o = through ctx s o.item f (q o.item o.among) o.origin

  mutual
    unfolding is_tainted

    find_origin : (e : Expr) → is_tainted ctx s e ≡ true → Provenance ctx s e
    find_origin (constant l n) h = absurd (cc h)
    find_origin (variable l x) h = itself ctx s _ (tainted_name h)
    find_origin (attribute l e a) h =
        source_or_below e (attribute l e a) _ attribute_source of_attribute (find_origin e) h
    find_origin (subscript l e i) h =
        source_or_below e (subscript l e i) _ subscript_source of_subscript (find_origin e) h
    find_origin (call l (variable m f) (expr a args) kws) h =
        elim (or_cases (is_source ctx (call l (variable m f) (expr a args) kws)) _ h) [
          | inl y ↦ itself ctx s _ (call_source y)
          | inr y ↦
              through ctx s a _ (of_conversion (and_left (is_conversion f) _ y))
                (find_origin a (and_right (is_conversion f) _ y))
        ]
    find_origin (call l (attribute m e f) args kws) h =
        elim (or_cases (is_source ctx (call l (attribute m e f) args kws)) _ h) [
          | inl y ↦ itself ctx s _ (call_source y)
          | inr y ↦ elim (or_cases (is_tainted ctx s e) _ (and_right (f == "format") _ y)) [
            | inl z ↦
                through ctx s e _ (of_template (and_left (f == "format") _ y)) (find_origin e z)
            | inr z ↦
                through_item args _ (λ x. of_argument (and_left (f == "format") _ y))
                  (find_among args z)
          ]
        ]
    find_origin (call l f args kws) h = itself ctx s _ (call_source h)
    find_origin (joined_str l pieces) h =
        let o = find_piece pieces h in through ctx s o.piece _ (of_piece o.among) o.origin
    find_origin (formatted_value l e spec) h = absurd (cc h)
    find_origin (bin_op l op a b) h =
        let c = and_left (is_string_operator op) _ h in
        elim (or_cases (is_tainted ctx s a) _ (and_right (is_string_operator op) _ h)) [
          | inl y ↦ through ctx s a _ (of_left c) (find_origin a y)
          | inr y ↦ through ctx s b _ (of_right c) (find_origin b y)
        ]
    find_origin (display l k items) h = through_item items _ (λ x. of_item) (find_among items h)
    find_origin (dict_display l ks vs) h = elim (or_cases (any_tainted ctx s ks) _ h) [
      | inl y ↦ through_item ks _ (λ x. of_key) (find_among ks y)
      | inr y ↦ through_item vs _ (λ x. of_value) (find_among vs y)
    ]
    find_origin (if_exp l c a b) h = elim (or_cases (is_tainted ctx s c) _ h) [
      | inl y ↦ through ctx s c _ of_test (find_origin c y)
      | inr y ↦ elim (or_cases (is_tainted ctx s a) _ y) [
        | inl z ↦ through ctx s a _ of_then (find_origin a z)
        | inr z ↦ through ctx s b _ of_else (find_origin b z)
      ]
    ]
    find_origin (lambda_exp l children) h = absurd (cc h)
    find_origin (other_expr l children) h = absurd (cc h)

    find_among : (es : Exprs) → any_tainted ctx s es ≡ true → ItemProvenance es
    find_among no_exprs h = absurd (cc h)
    find_among (expr e es) h = elim (or_cases (is_tainted ctx s e) _ h) [
      | inl y ↦ record { item = e; among = first; origin = find_origin e y }
      | inr y ↦ ItemProvenance-later e es (find_among es y)
    ]

    find_piece : (es : Exprs) → any_formatted ctx s es ≡ true → PieceProvenance es
    find_piece no_exprs h = absurd (cc h)
    find_piece (expr (formatted_value l e spec) es) h = elim (or_cases (is_tainted ctx s e) _ h) [
      | inl y ↦ record { line = l; piece = e; spec = spec; among = first; origin = find_origin e y }
      | inr y ↦ PieceProvenance-later _ es (find_piece es y)
    ]
    find_piece (expr x es) h = PieceProvenance-later x es (find_piece es h)

-- A taint has an origin: the engine gives an expression a taint only if a tainted name, or an
-- attribute, subscript or call that the rule takes for a source, is the expression itself or flows
-- into it: by an attribute or a subscript of it, as the first argument of a conversion, as the
-- template or a positional argument of a `format` (no keyword argument counts), as a value in an
-- f-string, an operand of a string operator, an item of a display, or a part of a conditional.
pub taint_has_origin :
    (ctx : Context) (d : Tainted) (e : Expr)
    → is_some (taint_of ctx d e) ≡ true
    → Provenance ctx (names_of d) e
taint_has_origin ctx d e h =
    find_origin ctx (names_of d) e (sym (taint_is_reachability ctx d e) ∙ h)

-- No origin is lost: if a tainted name or a source of the rule flows into an expression, over any
-- number of the places above, then the engine gives the expression a taint.
pub origin_gives_taint :
    (ctx : Context) (d : Tainted) (x e : Expr)
    → IsOrigin ctx (names_of d) x
    → Flows x e
    → is_some (taint_of ctx d e) ≡ true
origin_gives_taint ctx d x e o p =
    taint_is_reachability ctx d e
    ∙ Flows-is_tainted ctx (names_of d) p (origin-is_tainted ctx (names_of d) o)
