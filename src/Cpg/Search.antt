-- ===== src/Cpg/Search.antt =====
-- The search for data flow ends, and what it finds is there.
use mathlib.Core.List.{Memᴰ}
use multi_stage_agentic_sast.Prelude.Dict.{contains}
use multi_stage_agentic_sast.Prelude.{
  ◌≤◌, ◌∷◌, ℕ, inr, some, All-append, ◌∙◌, is_some, zero, All, none, ◌++◌, eq_refl, not,
  length-select-le, inl, ◌≡◌, Bool-cases, true, ◌||◌, select, sym, [], eq_iff, String, ap, leb,
  ◌==◌, suc, ◌&&◌, length-append, ◌+◌, refl, arith, subst, length, List, map, false, Bool, ◌⊎◌,
  Option,
}
use multi_stage_agentic_sast.Cpg.{
  CodePropertyGraph, successors, CpgEdge, has_type, is_dfg, edges_from, walk, Queue,
  dfg_reachability, enough_fuel,
}

-- A path of data-flow edges, by its number of edges.
pub data DfgPath (g : CodePropertyGraph) (source : String) : String → ℕ → Type 0 where
  start : DfgPath g source source 0
  extend :
      {n : ℕ} (e : CpgEdge)
      → DfgPath g source e.src n
      → Memᴰ e g.edges
      → is_dfg e ≡ true
      → DfgPath g source e.dst (suc n)

-- The edges that may still be put on the queue.
abbrev fresh : List String → List CpgEdge → ℕ
fresh visited edges = length (select (λ (e : CpgEdge). not (contains e.src visited)) edges)

abbrev leaving : String → List CpgEdge → ℕ
leaving c edges = length (select (λ (e : CpgEdge). e.src == c && has_type none e) edges)

fresh-visit :
    (c : String) (visited : List String) (edges : List CpgEdge)
    → contains c visited ≡ false
    → fresh (c ∷ visited) edges + leaving c edges ≡ fresh visited edges
unfolding contains
fresh-visit c visited [] h = omega arith
fresh-visit c visited (e ∷ es) h = elim (Bool-cases (e.src == c)) [
  | inl y ↦
      let same = (eq_iff e.src c).0 y in
      let seen = ap (λ x. contains x visited) same ∙ h in
      let back = ap (λ x. x == e.src) (sym same) ∙ eq_refl e.src in
      ground (arith, fresh-visit c visited es h, y, seen, back)
  | inr n ↦ ground (arith, fresh-visit c visited es h, n, eq_iff c e.src, eq_iff e.src c)
]

fresh-nil : (edges : List CpgEdge) → fresh [] edges ≡ length edges
unfolding contains
fresh-nil [] = refl
fresh-nil (e ∷ es) = omega (arith, fresh-nil es)

length-map : {A B : Type 0} (f : A → B) (xs : List A) → length (map f xs) ≡ length xs
length-map f [] = refl
length-map f (x ∷ xs) = ap suc (length-map f xs)

length-successors :
    (g : CodePropertyGraph) (c : String) (d : ℕ) → length (successors g c d) ≤ leaving c g.edges
unfolding successors
length-successors g c d = omega (
  arith,
  length-map {B = String × ℕ} (λ (e : CpgEdge). (e.dst, suc d))
      (select is_dfg (edges_from g c none)),
  length-select-le is_dfg (edges_from g c none),
)

deeper : (a b : ℕ) (c : Bool) → (leb a b || c) ≡ false → suc b ≤ a
deeper a b c h = ground (arith, h)

module _ (g : CodePropertyGraph) (target : String) (max_depth : ℕ) where
  walk_ends :
      (fuel : ℕ) (queue : Queue) (visited : List String)
      → length queue + fresh visited g.edges ≤ fuel
      → is_some (walk fuel g target max_depth queue visited) ≡ true
  unfolding walk
  walk_ends fuel [] visited h = refl
  walk_ends zero (c ∷ queue) visited h = absurd (omega (arith, h))
  walk_ends (suc fuel) ((c, d) ∷ queue) visited h = elim (Bool-cases (c == target)) [
    | inl y ↦ rw (y, walk) refl
    | inr n ↦ elim (Bool-cases (leb max_depth d || contains c visited)) [
      | inl y ↦ rw (n, y, walk) ((walk_ends fuel queue visited (omega (arith, h))))
      | inr m ↦
          let new : contains c visited ≡ false = ground (arith, m) in
          rw (n, m, walk)
            ((walk_ends fuel (queue ++ successors g c d) (c ∷ visited) (
              omega (
                arith,
                h,
                length-append queue (successors g c d),
                length-successors g c d,
                fresh-visit c visited g.edges new,
              ))))
    ]
  ]

  module _ (source : String) where
    -- A node on the queue is reached by as many edges as its depth.
    abbrev IsReached : String × ℕ → Type 0
    IsReached (v, d) = DfgPath g source v d × (d ≤ max_depth)

    All-extended :
        (c : String) (d : ℕ) (edges : List CpgEdge)
        → ((e : CpgEdge) → Memᴰ e edges → Memᴰ e g.edges)
        → DfgPath g source c d
        → suc d ≤ max_depth
        → All IsReached (
            map
              (λ (e : CpgEdge). (e.dst, suc d))
              (select is_dfg (select (λ (e : CpgEdge). e.src == c && has_type none e) edges)))
    All-extended c d [] within p l = tt
    All-extended c d (e ∷ es) within p l =
        let rest = All-extended c d es (λ x m. within x (Memᴰ.tail m)) p l in
        elim (Bool-cases (e.src == c)) [
          | inr n ↦ rw n rest
          | inl y ↦ elim (Bool-cases (is_dfg e)) [
            | inr n ↦ rw y (rw n rest)
            | inl z ↦
                let at_edge = subst (λ x. DfgPath g source x d) (sym ((eq_iff e.src c).0 y)) p in
                rw y (rw z ((extend e at_edge (within e (Memᴰ.head refl)) z, l), rest))
          ]
        ]

    walk_sound :
        (fuel : ℕ) (queue : Queue) (visited : List String)
        → All IsReached queue
        → walk fuel g target max_depth queue visited ≡ some true
        → (n : ℕ) × DfgPath g source target n × (n ≤ max_depth)
    unfolding walk successors
    walk_sound fuel [] visited r h = absurd (cc h)
    walk_sound zero (c ∷ queue) visited r h = absurd (cc h)
    walk_sound (suc fuel) ((c, d) ∷ queue) visited ((p, l), r) h = elim (Bool-cases (c == target)) [
      | inl y ↦ (d, subst (λ x. DfgPath g source x d) ((eq_iff c target).0 y) p, l)
      | inr n ↦ elim (Bool-cases (leb max_depth d || contains c visited)) [
        | inl y ↦ walk_sound fuel queue visited r (rw (n, y, walk) at h)
        | inr m ↦
            walk_sound fuel (queue ++ successors g c d) (c ∷ visited)
              (All-append IsReached queue (successors g c d) r
                (All-extended c d g.edges (λ x i. i) p (deeper max_depth d (contains c visited) m)))
              (rw (n, m, walk) at h)
      ]
    ]

answer : (o : Option Bool) → is_some o ≡ true → (o ≡ some false) ⊎ (o ≡ some true)
answer none h = absurd (cc h)
answer (some false) h = inl refl
answer (some true) h = inr refl

-- The search for data flow between two nodes ends with an answer, whatever cycles the graph has, after
-- at most one round for the source and one for each edge. It says that the target is not reachable,
-- or it says that it is and then a path of data-flow edges leads there from the source, with at most
-- `max_depth` of them.
pub dfg_search_answers :
    (g : CodePropertyGraph) (source target : String) (max_depth : ℕ)
    → (dfg_reachability g source target max_depth ≡ some false)
      ⊎ ((dfg_reachability g source target max_depth ≡ some true)
          × ((n : ℕ) × DfgPath g source target n × (n ≤ max_depth)))
unfolding dfg_reachability
dfg_search_answers g source target max_depth =
    let queue : Queue = (source, 0) ∷ [] in
    let ends =
      walk_ends g target max_depth (enough_fuel g) queue [] (omega (arith, fresh-nil g.edges)) in
    elim (answer (walk (enough_fuel g) g target max_depth queue []) ends) [
      | inl n ↦ inl n
      | inr y ↦ inr (
        y,
        walk_sound g target max_depth source (enough_fuel g) queue [] ((start, omega arith), tt) y,
      )
    ]
