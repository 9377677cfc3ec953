-- ===== src/Prelude/Dict.antt =====
-- Python's `dict` with string keys, in insertion order: an assignment to a key that is there keeps
-- its place, a new key goes to the end, and iteration follows that order.
use multi_stage_agentic_sast.Prelude.Tests.{if◌then◌else◌, is_some, Bool-cases}
use Prim.Native.String.{String}
use multi_stage_agentic_sast.Prelude.Lists.{find_first}
use mathlib.Core.Bool.{true, Bool, false, ◌||◌}
use mathlib.Core.Path.{◌≡◌, refl, sym, ap, ◌∙◌}
use mathlib.Core.Option.{Option, none, some}
use mathlib.Core.List.{List, [], ◌∷◌, append-nil, ◌++◌}
use native.Mathlib.Omega.{arith}
use text.Mathlib.Text.{◌==◌}
use text.Mathlib.TextEquality.{eq_iff}
use mathlib.Core.Logic.{inl, inr}

abbrev pub Dict {ℓ} : Type ℓ → Type ℓ
Dict V = List (String × V)

module _ {ℓ} {V : Type ℓ} where
  -- d.get(k)
  unfoldable pub get : String → Dict V → Option V
  get k [] = none
  get k ((j, v) ∷ d) = if j == k then some v else get k d

  -- d[k] = v
  unfoldable pub set_item : String → V → Dict V → Dict V
  set_item k v [] = (k, v) ∷ []
  set_item k v ((j, w) ∷ d) = if j == k then (j, v) ∷ d else (j, w) ∷ set_item k v d

  -- d.pop(k, None)
  unfoldable pub pop : String → Dict V → Dict V
  pop k [] = []
  pop k ((j, v) ∷ d) = let rest = pop k d in if j == k then rest else (j, v) ∷ rest

  -- list(d.values())
  unfoldable pub values : Dict V → List V
  values [] = []
  values ((j, v) ∷ d) = v ∷ values d

  -- list(d.keys())
  unfoldable pub keys : Dict V → List String
  keys [] = []
  keys ((j, v) ∷ d) = j ∷ keys d

  pub get-set_item :
      (k j : String) (v : V) (d : Dict V)
      → get j (set_item k v d) ≡ (if k == j then some v else get j d)
  unfolding get set_item
  get-set_item k j v [] = refl
  get-set_item k j v ((i, w) ∷ d) =
      ground (arith, eq_iff k j, eq_iff i k, eq_iff i j, get-set_item k j v d)

  pub get-pop : (k j : String) (d : Dict V) → get j (pop k d) ≡ (if k == j then none else get j d)
  unfolding get pop
  get-pop k j [] = ground arith
  get-pop k j ((i, w) ∷ d) = ground (arith, eq_iff k j, eq_iff i k, eq_iff i j, get-pop k j d)

pub ruleset dict_laws = (get-set_item, get-pop)

-- No key stands twice.
abbrev pub IsUnique {ℓ} : {V : Type ℓ} → Dict V → Type ℓ
IsUnique [] = Unit
IsUnique ((k, v) ∷ d) = (get k d ≡ none) × IsUnique d

-- x in xs
unfoldable pub contains : String → List String → Bool
contains x [] = false
contains x (y ∷ ys) = y == x || contains x ys

module _ {ℓ} {V : Type ℓ} where
  -- for k in ks: d.pop(k, None)
  unfoldable pub pop_all : List String → Dict V → Dict V
  pop_all [] d = d
  pop_all (k ∷ ks) d = pop_all ks (pop k d)

  pub get-pop_all :
      (ks : List String) (j : String) (d : Dict V)
      → get j (pop_all ks d) ≡ (if contains j ks then none else get j d)
  unfolding pop_all contains
  get-pop_all [] j d = refl
  get-pop_all (k ∷ ks) j d = ground (arith, get-pop_all ks j (pop k d), get-pop k j d)

module _ {ℓ} {V : Type ℓ} (p : V → Bool) (k : String) where
  -- A search that finds nothing has seen every value.
  pub find_first-none :
      (d : Dict V) (v : V) → find_first p (values d) ≡ none → get k d ≡ some v → p v ≡ false
  unfolding values get
  find_first-none [] v h g = cc
  find_first-none ((j, w) ∷ d) v h g = ground (arith, find_first-none d v)

  -- A new entry is searched last.
  pub find_first-set_item :
      (d : Dict V) (v : V)
      → find_first p (values d) ≡ none
      → get k d ≡ none
      → p v ≡ true
      → find_first p (values (set_item k v d)) ≡ some v
  unfolding values get set_item
  find_first-set_item [] v n g h = rw h
  find_first-set_item ((j, w) ∷ d) v n g h = ground (arith, find_first-set_item d v)

module _ {ℓ} {V : Type ℓ} where
  -- d.update(e)
  unfoldable pub update : Dict V → Dict V → Dict V
  update d [] = d
  update d ((k, v) ∷ e) = update (set_item k v d) e

  -- A key is there after an update if it was on either side.
  pub is_some-update :
      (j : String) (d e : Dict V)
      → is_some (get j (update d e)) ≡ (is_some (get j d) || is_some (get j e))
  unfolding update get
  is_some-update j d [] = ground arith
  is_some-update j d ((k, v) ∷ e) =
      ground (arith, is_some-update j (set_item k v d) e, get-set_item k j v d)

module _ {ℓ} {V : Type ℓ} where
  pub IsUnique-set_item : (k : String) (v : V) (d : Dict V) → IsUnique d → IsUnique (set_item k v d)
  unfolding set_item get
  IsUnique-set_item k v [] h = (refl, tt)
  IsUnique-set_item k v ((j, w) ∷ d) (fresh, h) = elim (Bool-cases (j == k)) [
    | inl y ↦ rw y (fresh, h)
    | inr n ↦
        rw n
          (ground (arith, get-set_item k j v d, eq_iff k j, eq_iff j k), IsUnique-set_item k v d h)
  ]

  pub IsUnique-pop : (k : String) (d : Dict V) → IsUnique d → IsUnique (pop k d)
  unfolding pop
  IsUnique-pop k [] h = tt
  IsUnique-pop k ((j, w) ∷ d) (fresh, h) = elim (Bool-cases (j == k)) [
    | inl y ↦ rw y (IsUnique-pop k d h)
    | inr n ↦ rw n (ground (arith, get-pop k j d), IsUnique-pop k d h)
  ]

module _ {ℓ} {V : Type ℓ} where
  set_item-new :
      (d : Dict V) (k : String) (v : V) (e : Dict V)
      → get k d ≡ none
      → set_item k v d ++ e ≡ d ++ (k, v) ∷ e
  unfolding set_item get
  set_item-new [] k v e h = refl
  set_item-new ((j, w) ∷ d) k v e h = elim (Bool-cases (j == k)) [
    | inl y ↦ absurd (ground (arith, h, y))
    | inr n ↦ rw n (ap (λ r. (j, w) ∷ r) (set_item-new d k v e (ground (arith, h, n))))
  ]

  -- None of the entries of `e` has a key of `d`.
  abbrev pub IsNew : Dict V → Dict V → Type ℓ
  IsNew d [] = Unit
  IsNew d ((k, v) ∷ e) = (get k d ≡ none) × IsNew d e

  IsNew-set_item :
      (k : String) (v : V) (d e : Dict V) → get k e ≡ none → IsNew d e → IsNew (set_item k v d) e
  unfolding get
  IsNew-set_item k v d [] f h = tt
  IsNew-set_item k v d ((j, w) ∷ e) f (g, h) = (
    ground (arith, get-set_item k j v d, eq_iff k j, eq_iff j k, f, g),
    IsNew-set_item k v d e (ground (arith, f)) h,
  )

  update-append : (d e : Dict V) → IsUnique e → IsNew d e → update d e ≡ d ++ e
  unfolding update
  update-append d [] u h = sym (append-nil d)
  update-append d ((k, v) ∷ e) (f, u) (g, h) =
      update-append (set_item k v d) e u (IsNew-set_item k v d e f h) ∙ set_item-new d k v e g

  IsNew-nil : (e : Dict V) → IsNew [] e
  unfolding get
  IsNew-nil [] = tt
  IsNew-nil ((k, v) ∷ e) = (refl, IsNew-nil e)

  pub update_unique : (d : Dict V) → IsUnique d → update [] d ≡ d
  update_unique d u = update-append [] d u (IsNew-nil d)
