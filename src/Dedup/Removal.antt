-- ===== src/Dedup/Removal.antt =====
-- What stays of the groups: consistency, and what the deletion of findings leaves.
use multi_stage_agentic_sast.Prelude.{
  inl, ap, suc, true, none, Option, select, eqb, ◌≡◌, inr, length-select-le, List, All, length,
  false, ◌∷◌, [], String, if◌then◌else◌, some, refl, Bool-cases, ◌==◌, arith, Bool, eq_iff, any,
  All-append, ◌∙◌, not, All-map,
}
use multi_stage_agentic_sast.Prelude.Dict.{Dict, contains, set_item, values, get}
use multi_stage_agentic_sast.Prelude.Sort.{All-sorted, sorted}
use multi_stage_agentic_sast.Dedup.Registry.{
  remove_findings, deduplicate, group_buckets, group_of, rebuilt_of_ordered, keep_group, Grouped,
  all_groups, stored, add_group, Registry, without, remove_from_groups, is_changed,
}
use multi_stage_agentic_sast.Dedup.{
  DeduplicationGroup, DedupLibrary, FindingFingerprint, ids, group_of_ordered, Bucket, by_id,
  fill_buckets, found,
}
use multi_stage_agentic_sast.Findings.{CandidateFinding}
use multi_stage_agentic_sast.Findings.Store.{FindingStore, get_finding}

-- The first member is canonical and represents the group, and the count is that of the members.
abbrev pub IsFirst : String → List String → Type 0
IsFirst c [] = ⊥
IsFirst c (m ∷ ms) = m ≡ c

pub record IsConsistent (g : DeduplicationGroup) : Type 0 where
  pub first : IsFirst g.canonical_finding_id g.member_finding_ids
  pub represented : g.representative_finding.id ≡ g.canonical_finding_id
  pub counted : g.occurrence_count ≡ length g.member_finding_ids

-- None of these findings is a member.
abbrev pub IsFree : List String → DeduplicationGroup → Type 0
IsFree removed g = All (λ m. contains m removed ≡ false) g.member_finding_ids

-- The store has each finding under its id.
abbrev pub IsKeyed : Dict CandidateFinding → Type 0
IsKeyed [] = Unit
IsKeyed ((k, f) ∷ d) = (f.id ≡ k) × IsKeyed d

abbrev Holds : (DeduplicationGroup → Type 0) → Option DeduplicationGroup → Type 0
Holds P none = Unit
Holds P (some g) = P g

module _ (P : DeduplicationGroup → Type 0) where
  All-set_item :
      (k : String) (g : DeduplicationGroup) (d : Dict DeduplicationGroup)
      → P g
      → All P (values d)
      → All P (values (set_item k g d))
  unfolding set_item values
  All-set_item k g [] p h = (p, tt)
  All-set_item k g ((j, w) ∷ d) p (q, h) = elim (Bool-cases (j == k)) [
    | inl y ↦ rw y (p, h)
    | inr n ↦ rw n (q, All-set_item k g d p h)
  ]

  All-add_group :
      (k : String) (o : Option DeduplicationGroup) (s : Grouped)
      → Holds P o
      → All P (values s.0)
      → All P (values (add_group k o s).0)
  All-add_group k none (r, gs) p h = h
  All-add_group k (some g) (r, gs) p h = All-set_item k g r p h

  All-keep_group :
      (k : String) (o : Option DeduplicationGroup) (rest : Dict DeduplicationGroup)
      → Holds P o
      → All P (values rest)
      → All P (values (keep_group k o rest))
  unfolding values
  All-keep_group k none rest p h = h
  All-keep_group k (some g) rest p h = (p, h)

length-ids : (fs : List CandidateFinding) → length fs ≡ length (ids fs)
length-ids [] = refl
length-ids (f ∷ fs) = ap suc (length-ids fs)

IsConsistent-group_of_ordered :
    (lib : DedupLibrary) (v : String) (p : FindingFingerprint) (fs : List CandidateFinding)
    → Holds IsConsistent (group_of_ordered lib v p fs)
IsConsistent-group_of_ordered lib v p [] = tt
IsConsistent-group_of_ordered lib v p (c ∷ cs) = record {
  first = refl;
  represented = refl;
  counted = ap suc (length-ids cs);
}

IsConsistent-group_buckets :
    (lib : DedupLibrary) (store : FindingStore) (submitted : List String) (bs : Dict Bucket)
    (s : Grouped)
    → All IsConsistent (values s.0)
    → All IsConsistent (values (group_buckets lib store submitted bs s).0)
unfolding group_buckets group_of
IsConsistent-group_buckets lib store submitted [] s h = h
IsConsistent-group_buckets lib store submitted ((v, (p, ms)) ∷ bs) s h =
    IsConsistent-group_buckets lib store submitted bs _
      (All-add_group IsConsistent v _ s (IsConsistent-group_of_ordered lib v p _) h)

IsConsistent-rebuilt_of_ordered :
    (lib : DedupLibrary) (g : DeduplicationGroup) (fs : List CandidateFinding)
    → Holds IsConsistent (rebuilt_of_ordered lib g fs)
IsConsistent-rebuilt_of_ordered lib g [] = tt
IsConsistent-rebuilt_of_ordered lib g (c ∷ cs) = record {
  first = refl;
  represented = refl;
  counted = ap suc (length-ids cs);
}

Holds-if :
    (P : DeduplicationGroup → Type 0) (b : Bool) (g : DeduplicationGroup)
    (o : Option DeduplicationGroup)
    → (b ≡ true → P g)
    → Holds P o
    → Holds P (if b then some g else o)
Holds-if P true g o p h = p refl
Holds-if P false g o p h = h

-- What a test keeps all of passes the test.
All-select :
    {A : Type 0} (p : A → Bool) (xs : List A)
    → eqb (length (select p xs)) (length xs) ≡ true
    → All (λ x. p x ≡ true) xs
All-select p [] h = tt
All-select p (x ∷ xs) h = (
  ground (arith, h, length-select-le p xs),
  All-select p xs (ground (arith, h, length-select-le p xs)),
)

module _ (lib : DedupLibrary) (store : FindingStore) (removed : List String) where
  abbrev kept : String → Bool
  kept m = not (contains m removed)

  Holds-without :
      (P : DeduplicationGroup → Type 0) (g : DeduplicationGroup)
      → (All (λ m. kept m ≡ true) g.member_finding_ids → P g)
      → Holds P (
          rebuilt_of_ordered lib g (sorted by_id (stored store (select kept g.member_finding_ids))))
      → Holds P (without lib store removed g)
  unfolding without
  Holds-without P g p h =
      Holds-if P (eqb (length (select kept g.member_finding_ids)) (length g.member_finding_ids)) g
        (rebuilt_of_ordered lib g (sorted by_id (stored store (select kept g.member_finding_ids))))
        (λ e. p (All-select kept g.member_finding_ids e)) h

  IsConsistent-remove_from_groups :
      (d : Dict DeduplicationGroup)
      → All IsConsistent (values d)
      → All IsConsistent (values (remove_from_groups lib store removed d))
  unfolding remove_from_groups values
  IsConsistent-remove_from_groups [] h = tt
  IsConsistent-remove_from_groups ((v, g) ∷ d) (c, h) =
      All-keep_group IsConsistent v (without lib store removed g) _
        (Holds-without IsConsistent g (λ a. c) (IsConsistent-rebuilt_of_ordered lib g _))
        (IsConsistent-remove_from_groups d h)

  free : (m : String) → kept m ≡ true → contains m removed ≡ false
  free m h = ground (arith, h)

  -- The stored findings with kept ids.
  kept-stored :
      (ms : List String)
      → IsKeyed store.findings
      → All
          (λ (f : CandidateFinding). contains f.id removed ≡ false)
          (stored store (select kept ms))
  unfolding stored get_finding get
  kept-stored [] k = tt
  kept-stored (m ∷ ms) k = elim (Bool-cases (kept m)) [
    | inl y ↦ rw y (
        All-append (λ (f : CandidateFinding). contains f.id removed ≡ false)
          (found (get m store.findings)) _ (found-keyed m store.findings k (free m y))
          (kept-stored ms k))
    | inr n ↦ rw n (kept-stored ms k)
  ]
    where
      found-keyed :
          (m : String) (d : Dict CandidateFinding)
          → IsKeyed d
          → contains m removed ≡ false
          → All (λ (f : CandidateFinding). contains f.id removed ≡ false) (found (get m d))
      found-keyed m [] k h = tt
      found-keyed m ((j, f) ∷ d) (e, k) h = elim (Bool-cases (j == m)) [
        | inl y ↦ rw y (ap (λ x. contains x removed) (e ∙ (eq_iff j m).0 y) ∙ h, tt)
        | inr n ↦ rw n (found-keyed m d k h)
      ]

  IsFree-rebuilt :
      (g : DeduplicationGroup) (fs : List CandidateFinding)
      → All (λ (f : CandidateFinding). contains f.id removed ≡ false) fs
      → Holds (IsFree removed) (rebuilt_of_ordered lib g fs)
  IsFree-rebuilt g [] h = tt
  IsFree-rebuilt g (c ∷ cs) (e, h) = (e, free-ids cs h)
    where
      free-ids :
          (fs : List CandidateFinding)
          → All (λ (f : CandidateFinding). contains f.id removed ≡ false) fs
          → All (λ m. contains m removed ≡ false) (ids fs)
      free-ids [] h = tt
      free-ids (f ∷ fs) (e, h) = (e, free-ids fs h)

  IsFree-remove_from_groups :
      (d : Dict DeduplicationGroup)
      → IsKeyed store.findings
      → All (IsFree removed) (values (remove_from_groups lib store removed d))
  unfolding remove_from_groups values
  IsFree-remove_from_groups [] k = tt
  IsFree-remove_from_groups ((v, g) ∷ d) k =
      All-keep_group (IsFree removed) v (without lib store removed g) _
        (Holds-without (IsFree removed) g (λ a. All-map _ free g.member_finding_ids a)
          (IsFree-rebuilt g _ (All-sorted by_id _ _ (kept-stored g.member_finding_ids k))))
        (IsFree-remove_from_groups d k)

  -- A registry that remove_findings leaves as it is has none of them.
  IsFree-unchanged :
      (gs : List DeduplicationGroup) → any (is_changed removed) gs ≡ false → All (IsFree removed) gs
  IsFree-unchanged [] h = tt
  IsFree-unchanged (g ∷ gs) h = (
    All-map _ free g.member_finding_ids (All-select kept g.member_finding_ids (ground (arith, h))),
    IsFree-unchanged gs (ground (arith, h)),
  )

-- When the finding store has each finding under its id, no group of the registry has a deleted
-- finding as a member after remove_findings.
pub deleted_findings_leave_groups :
    (lib : DedupLibrary) (store : FindingStore) (removed : List String) (r : Registry)
    → IsKeyed store.findings
    → All (IsFree removed) (all_groups (remove_findings lib store removed r))
unfolding remove_findings all_groups
deleted_findings_leave_groups lib store removed r k =
    elim (Bool-cases (any (is_changed removed) (values r.groups))) [
      | inl y ↦ rw y (IsFree-remove_from_groups lib store removed r.groups k)
      | inr n ↦ rw n (IsFree-unchanged lib store removed (values r.groups) n)
    ]

-- Deduplication and the removal of findings keep every group of the registry consistent: it has
-- members, the first of them is canonical and represents the group, and its count is theirs.
pub groups_stay-IsConsistent :
    (lib : DedupLibrary) (store : FindingStore) (fs : List CandidateFinding) (removed : List String)
    (r : Registry)
    → All IsConsistent (all_groups r)
    → All IsConsistent (all_groups (deduplicate lib store fs r).1)
      × All IsConsistent (all_groups (remove_findings lib store removed r))
unfolding deduplicate remove_findings all_groups
groups_stay-IsConsistent lib store fs removed r h = (
  IsConsistent-group_buckets lib store (ids fs) (fill_buckets lib fs []) (r.groups, []) h,
  elim (Bool-cases (any (is_changed removed) (values r.groups))) [
    | inl y ↦ rw y (IsConsistent-remove_from_groups lib store removed r.groups h)
    | inr n ↦ rw n h
  ],
)
