-- ===== src/Database/Mirror.antt =====
-- The rows of a table mirror a dictionary, and loading them, in any order, gives its entries back.
use multi_stage_agentic_sast.Prelude.{
  ◌≡◌, refl, some, ◌∷◌, String, [], ◌==◌, Bool-cases, ap, inl, ◌∙◌, true, inr, none, arith, Option,
  sym, eq_iff,
}
use multi_stage_agentic_sast.Prelude.Dict.{IsUnique, Dict, set_item, pop, update_unique, get}
use mathlib.Core.Option.{some-injective}
use multi_stage_agentic_sast.Database.{
  Codec, validate_all, rehydrate, db_load_all, validated, cached, IsListing,
}

module _ {M P : Type 0} (c : Codec M P) where
  abbrev pub dump_all : Dict M → Dict P
  dump_all [] = []
  dump_all ((k, m) ∷ d) = (k, c.dump m) ∷ dump_all d

  pub dump_all-set_item :
      (k : String) (m : M) (d : Dict M)
      → set_item k (c.dump m) (dump_all d) ≡ dump_all (set_item k m d)
  unfolding set_item
  dump_all-set_item k m [] = refl
  dump_all-set_item k m ((j, w) ∷ d) = elim (Bool-cases (j == k)) [
    | inl y ↦ rw y refl
    | inr n ↦ rw n (ap (λ r. (j, c.dump w) ∷ r) (dump_all-set_item k m d))
  ]

  pub dump_all-pop : (k : String) (d : Dict M) → pop k (dump_all d) ≡ dump_all (pop k d)
  unfolding pop
  dump_all-pop k [] = refl
  dump_all-pop k ((j, w) ∷ d) = elim (Bool-cases (j == k)) [
    | inl y ↦ rw y (dump_all-pop k d)
    | inr n ↦ rw n (ap (λ r. (j, c.dump w) ∷ r) (dump_all-pop k d))
  ]

  abbrev dumped : Option M → Option P
  dumped none = none
  dumped (some m) = some (c.dump m)

  get-dump_all : (k : String) (d : Dict M) → get k (dump_all d) ≡ dumped (get k d)
  unfolding get
  get-dump_all k [] = refl
  get-dump_all k ((j, m) ∷ d) = elim (Bool-cases (j == k)) [
    | inl y ↦ rw y refl
    | inr n ↦ rw n (get-dump_all k d)
  ]

  dumped-none : (o : Option M) → dumped o ≡ none → o ≡ none
  dumped-none none h = refl
  dumped-none (some m) h = absurd (cc h)

  IsUnique-dump_all : (d : Dict M) → IsUnique d → IsUnique (dump_all d)
  IsUnique-dump_all [] u = tt
  IsUnique-dump_all ((k, m) ∷ d) (fresh, u) =
      (get-dump_all k d ∙ ap dumped fresh, IsUnique-dump_all d u)

  dump_all-IsUnique : (d : Dict M) → IsUnique (dump_all d) → IsUnique d
  dump_all-IsUnique [] u = tt
  dump_all-IsUnique ((k, m) ∷ d) (fresh, u) =
      (dumped-none (get k d) (sym (get-dump_all k d) ∙ fresh), dump_all-IsUnique d u)

  -- Every payload was dumped from a model.
  abbrev IsDumped : Dict P → Type 0
  IsDumped e = (k : String) (p : P) → get k e ≡ some p → (m : M) × (p ≡ c.dump m)

  dumped-some : (o : Option M) (p : P) → dumped o ≡ some p → (m : M) × (p ≡ c.dump m)
  dumped-some none p h = absurd (cc h)
  dumped-some (some m) p h = (m, cc h)

  IsDumped-tail :
      (j : String) (w : P) (e : Dict P) → IsUnique ((j, w) ∷ e) → IsDumped ((j, w) ∷ e) → IsDumped e
  unfolding get
  IsDumped-tail j w e (fresh, u) h k p g = elim (Bool-cases (j == k)) [
    | inl y ↦ absurd (ground (arith, eq_iff j k, y, g, fresh))
    | inr n ↦ h k p (rw n g)
  ]

  undump : (e : Dict P) → IsUnique e → IsDumped e → (d : Dict M) × (e ≡ dump_all d)
  unfolding get
  undump [] u h = ([], refl)
  undump ((j, w) ∷ e) u h =
      let (m, same) = h j w (rw ((eq_iff j j).1 refl) refl) in
      let (d, rest) = undump e u.1 (IsDumped-tail j w e u h) in ((j, m) ∷ d, rw (same, rest) refl)

  module _ (lawful : (m : M) → c.validate (c.dump m) ≡ some m) where
    validate_all-dump_all : (d : Dict M) → validate_all c (dump_all d) ≡ some d
    unfolding validate_all
    validate_all-dump_all [] = refl
    validate_all-dump_all ((k, m) ∷ d) =
        ap (λ o. validated c o (validate_all c (dump_all d)) k) (lawful m)
        ∙ ap (λ o. validated c (some m) o k) (validate_all-dump_all d)

    -- Rows that mirror a dictionary are loaded as that dictionary.
    rehydrate-listed :
        (query_all : Dict P → Dict P) (rows : Dict P) (d : Dict M)
        → IsUnique d
        → query_all rows ≡ dump_all d
        → rehydrate c true query_all rows ≡ some d
    unfolding rehydrate db_load_all
    rehydrate-listed query_all rows d u listed =
        ap (λ e. cached c (validate_all c e)) listed
        ∙ (ap (cached c) (validate_all-dump_all d) ∙ ap some (update_unique d u))

    dumped-injective : (a b : Option M) → dumped a ≡ dumped b → a ≡ b
    dumped-injective none none h = refl
    dumped-injective none (some m) h = absurd (cc h)
    dumped-injective (some m) none h = absurd (cc h)
    dumped-injective (some m) (some n) h =
        sym (lawful m) ∙ (ap c.validate (some-injective (c.dump m) (c.dump n) h) ∙ lawful n)

    -- Whatever the order of the query, the loaded entries are those of the dictionary.
    pub rehydrate-dump_all :
        (query_all : Dict P → Dict P) (d : Dict M)
        → IsListing query_all
        → IsUnique d
        → (loaded : Dict M) × (rehydrate c true query_all (dump_all d) ≡ some loaded)
          × IsUnique loaded
          × ((k : String) → get k loaded ≡ get k d)
    rehydrate-dump_all query_all d lists u =
        let rows = dump_all d in
        let unique = IsUnique-dump_all d u in
        let once = lists.once rows unique in
        let (e, listed) = undump (query_all rows) once (λ k p g.
          dumped-some (get k d) p
            (sym (get-dump_all k d) ∙ (sym (lists.every rows k unique) ∙ g))) in
        let unique_e = dump_all-IsUnique e (rw listed at once) in
        (
          e,
          rehydrate-listed query_all rows e unique_e listed,
          unique_e,
          λ k. dumped-injective (get k e) (get k d) (
              sym (get-dump_all k e)
              ∙ (ap (get k) (sym listed) ∙ (lists.every rows k unique ∙ get-dump_all k d))),
        )
