-- ===== src/Scan/Coverage.antt =====
-- The engine's tainted names cover those of every path through a block.
use multi_stage_agentic_sast.Scan.Syntax.{
  Expr, constant, variable, attribute, subscript, call, joined_str, formatted_value, bin_op,
  display, dict_display, if_exp, lambda_exp, other_expr, Exprs, no_exprs, expr,
}
use multi_stage_agentic_sast.Scan.Reachability.{
  Names, is_tainted, taint_is_reachability, any_tainted, any_formatted, names_of,
  is_some-propagated, is_source,
}
use multi_stage_agentic_sast.Prelude.{
  arith, none, Bool-cases, inl, Bool, ◌||◌, some, is_some, ◌∙◌, inr, List, ◌==◌, ◌≡◌, if◌then◌else◌,
  false, String, ℕ, true, ◌&&◌, Option, refl, [], ◌∷◌,
}
use multi_stage_agentic_sast.Scan.Engine.{
  set_targets, assign_value, either_taint, for_targets, set_targets_if, assigned, is_access,
  is_variable,
}
use multi_stage_agentic_sast.Scan.Expressions.{
  Context, Tainted, taint_of, Taint, propagated, propagation_step, source_at, is_conversion,
  is_string_operator,
}
use multi_stage_agentic_sast.Prelude.Dict.{get-set_item, is_some-update, set_item, get, update}
use multi_stage_agentic_sast.Scan.Trails.{bind}
use multi_stage_agentic_sast.Scan.Sinks.{Found}

-- Every name that is tainted here has a taint there.
abbrev pub Covers : Names → Tainted → Type 0
Covers s d = (x : String) → s x ≡ true → is_some (get x d) ≡ true

pub or_mono :
    (a b c d : Bool)
    → (a ≡ true → c ≡ true)
    → (b ≡ true → d ≡ true)
    → (a || b) ≡ true
    → (c || d) ≡ true
or_mono true b c d f g h = ground (arith, f refl)
or_mono false b c d f g h = ground (arith, g)

and_mono : (a b c : Bool) → (b ≡ true → c ≡ true) → (a && b) ≡ true → (a && c) ≡ true
and_mono true b c f h = ground (arith, f)
and_mono false b c f h = h

module _ (ctx : Context) (s t : Names) (h : (x : String) → s x ≡ true → t x ≡ true) where
  mutual
    unfolding is_tainted

    pub is_tainted_mono : (e : Expr) → is_tainted ctx s e ≡ true → is_tainted ctx t e ≡ true
    is_tainted_mono (constant l n) g = g
    is_tainted_mono (variable l x) g = h x g
    is_tainted_mono (attribute l e a) g =
        or_mono (is_source ctx (attribute l e a)) _ _ _ (λ x. x) (is_tainted_mono e) g
    is_tainted_mono (subscript l e i) g =
        or_mono (is_source ctx (subscript l e i)) _ _ _ (λ x. x) (is_tainted_mono e) g
    is_tainted_mono (call l (variable m f) (expr a args) kws) g =
        or_mono (is_source ctx (call l (variable m f) (expr a args) kws)) _ _ _ (λ x. x)
          (and_mono (is_conversion f) _ _ (is_tainted_mono a)) g
    is_tainted_mono (call l (attribute m e f) args kws) g =
        or_mono (is_source ctx (call l (attribute m e f) args kws)) _ _ _ (λ x. x)
          (and_mono (f == "format") _ _
            (or_mono _ _ _ _ (is_tainted_mono e) (any_tainted_mono args)))
          g
    is_tainted_mono (call l f args kws) g = g
    is_tainted_mono (joined_str l pieces) g = any_formatted_mono pieces g
    is_tainted_mono (formatted_value l e spec) g = g
    is_tainted_mono (bin_op l op a b) g =
        and_mono (is_string_operator op) _ _
          (or_mono _ _ _ _ (is_tainted_mono a) (is_tainted_mono b)) g
    is_tainted_mono (display l k items) g = any_tainted_mono items g
    is_tainted_mono (dict_display l ks vs) g =
        or_mono _ _ _ _ (any_tainted_mono ks) (any_tainted_mono vs) g
    is_tainted_mono (if_exp l c a b) g =
        or_mono _ _ _ _ (is_tainted_mono c)
          (or_mono _ _ _ _ (is_tainted_mono a) (is_tainted_mono b)) g
    is_tainted_mono (lambda_exp l children) g = g
    is_tainted_mono (other_expr l children) g = g

    any_tainted_mono : (es : Exprs) → any_tainted ctx s es ≡ true → any_tainted ctx t es ≡ true
    any_tainted_mono no_exprs g = g
    any_tainted_mono (expr e es) g = or_mono _ _ _ _ (is_tainted_mono e) (any_tainted_mono es) g

    any_formatted_mono :
        (es : Exprs) → any_formatted ctx s es ≡ true → any_formatted ctx t es ≡ true
    any_formatted_mono no_exprs g = g
    any_formatted_mono (expr (formatted_value l e spec) es) g =
        or_mono _ _ _ _ (is_tainted_mono e) (any_formatted_mono es) g
    any_formatted_mono (expr _ es) g = any_formatted_mono es g

pub Covers-left : (s : Names) (d e : Tainted) → Covers s d → Covers s (update d e)
Covers-left s d e h x g = ground (arith, h x g, is_some-update x d e)

pub Covers-right : (s : Names) (d e : Tainted) → Covers s e → Covers s (update d e)
Covers-right s d e h x g = ground (arith, h x g, is_some-update x d e)

Covers-set_item :
    (s : Names) (y : String) (u : Taint) (d : Tainted) → Covers s d → Covers s (set_item y u d)
Covers-set_item s y u d h x g = ground (arith, h x g, get-set_item y x u d)

Covers-set_targets :
    (targets : List Expr) (u : Taint) (s : Names) (d : Tainted)
    → Covers s d
    → Covers s (set_targets targets u d)
unfolding set_targets
Covers-set_targets [] u s d h = h
Covers-set_targets (variable l x ∷ targets) u s d h =
    Covers-set_targets targets u s (set_item x u d) (Covers-set_item s x u d h)
Covers-set_targets (_ ∷ targets) u s d h = Covers-set_targets targets u s d h

pub Covers-set_targets_if :
    (targets : List Expr) (o : Option Taint) (s : Names) (d : Tainted)
    → Covers s d
    → Covers s (set_targets_if targets o d)
Covers-set_targets_if targets none s d h = h
Covers-set_targets_if targets (some u) s d h = Covers-set_targets targets u s d h

Covers-bind_taint :
    (targets : List Expr) (b : Bool) (u : Taint) (s : Names) (d : Tainted)
    → Covers s d
    → Covers (bind targets b s) (set_targets targets u d)
unfolding set_targets bind
Covers-bind_taint [] b u s d h = h
Covers-bind_taint (variable l x ∷ targets) b u s d h =
    Covers-bind_taint targets b u (λ y. if x == y then b else s y) (set_item x u d)
      (λ y g. ground (arith, h y, get-set_item x y u d))
Covers-bind_taint (_ ∷ targets) b u s d h = Covers-bind_taint targets b u s d h

Covers-bind_none :
    (targets : List Expr) (s : Names) (d : Tainted) → Covers s d → Covers (bind targets false s) d
unfolding bind
Covers-bind_none [] s d h = h
Covers-bind_none (variable l x ∷ targets) s d h =
    Covers-bind_none targets (λ y. if x == y then false else s y) d (λ y g. ground (arith, h y))
Covers-bind_none (_ ∷ targets) s d h = Covers-bind_none targets s d h

pub Covers-bind :
    (targets : List Expr) (b : Bool) (o : Option Taint) (s : Names) (d : Tainted)
    → (b ≡ true → is_some o ≡ true)
    → Covers s d
    → Covers (bind targets b s) (set_targets_if targets o d)
Covers-bind targets true none s d i h = absurd (cc (i refl))
Covers-bind targets false none s d i h = Covers-bind_none targets s d h
Covers-bind targets b (some u) s d i h = Covers-bind_taint targets b u s d h

is_some-assigned :
    (ctx : Context) (l : ℕ) (value : Expr) (o : Option Taint)
    → is_some (assigned ctx l value o) ≡ is_some o
is_some-assigned ctx l value none = refl
is_some-assigned ctx l value (some t) =
    elim (Bool-cases (is_access value && is_some (source_at ctx value) || is_variable value)) [
      | inl y ↦ rw y refl
      | inr n ↦ rw n refl
    ]

-- A value that is tainted on a path has a taint.
pub is_some-taint_of :
    (ctx : Context) (s : Names) (d : Tainted) (e : Expr)
    → Covers s d
    → is_tainted ctx s e ≡ true
    → is_some (taint_of ctx d e) ≡ true
is_some-taint_of ctx s d e h g =
    rw (taint_is_reachability ctx d e) (is_tainted_mono ctx s (names_of d) h e g)

pub Covers-assign_value :
    (ctx : Context) (l : ℕ) (targets : List Expr) (value : Expr) (s : Names) (d : Tainted)
    (found : Found)
    → Covers s d
    → Covers
        (bind targets (is_tainted ctx s value) s)
        (assign_value ctx l targets value (d, found)).0
unfolding assign_value
Covers-assign_value ctx l targets value s d found h =
    Covers-bind targets (is_tainted ctx s value) _ s d
      (λ g.
        is_some-assigned ctx l value (taint_of ctx d value) ∙ is_some-taint_of ctx s d value h g)
      h

pub Covers-for_targets :
    (ctx : Context) (l : ℕ) (target iter : Expr) (s : Names) (d : Tainted)
    → Covers s d
    → Covers (bind (for_targets target) (is_tainted ctx s iter) s) (
        set_targets_if
          (for_targets target)
          (propagated (propagation_step ctx l) (taint_of ctx d iter))
          d)
Covers-for_targets ctx l target iter s d h =
    Covers-bind (for_targets target) (is_tainted ctx s iter) _ s d
      (λ g.
        is_some-propagated (propagation_step ctx l) (taint_of ctx d iter)
        ∙ is_some-taint_of ctx s d iter h g)
      h

pub is_some-either : (a b : Option Taint) → is_some (either_taint a b) ≡ (is_some a || is_some b)
unfolding either_taint
is_some-either none b = ground arith
is_some-either (some a) b = ground arith
