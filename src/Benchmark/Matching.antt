-- ===== src/Benchmark/Matching.antt =====
-- The greedy matching of two tools: every finding is accounted for, and no pair is missed.
use multi_stage_agentic_sast.Prelude.{
  [], Bool, ◌∷◌, All, inl, inr, ◌≡◌, length, ◌++◌, any, if◌then◌else◌, All-append, Option,
  Bool-cases, ◌+◌, select, ◌∙◌, arith, refl, length-append, Option-cases, some, List, ℕ, false,
  none,
}
use multi_stage_agentic_sast.Benchmark.{
  place, match_all, match_cross_tool, BenchmarkFinding, same, CrossMatch, take_partner,
}

abbrev pub count {ℓ} : {A : Type ℓ} → (A → Bool) → List A → ℕ
count p xs = length (select p xs)

abbrev pub one_if : Bool → ℕ
one_if b = if b then 1 else 0

pub count-snoc {ℓ} :
    {A : Type ℓ} (p : A → Bool) (xs : List A) (x : A)
    → count p (xs ++ x ∷ []) ≡ count p xs + one_if (p x)
count-snoc p [] x = ground arith
count-snoc p (y ∷ ys) x = ground (arith, count-snoc p ys x)

-- What a search takes, and what it leaves.
abbrev taken : Option (BenchmarkFinding × List BenchmarkFinding) → ℕ
taken none = 0
taken (some p) = 1

abbrev left_by :
    List BenchmarkFinding
    → Option (BenchmarkFinding × List BenchmarkFinding)
    → List BenchmarkFinding
left_by ts none = ts
left_by ts (some (t, left)) = left

module _ (p : BenchmarkFinding → Bool) where
  length-take_partner :
      (ts : List BenchmarkFinding)
      → taken (take_partner p ts) + length (left_by ts (take_partner p ts)) ≡ length ts
  unfolding take_partner
  length-take_partner [] = refl
  length-take_partner (t ∷ ts) = elim (Bool-cases (p t)) [
    | inl a ↦ rw a (omega arith)
    | inr a ↦ elim (Option-cases (take_partner p ts)) [
      | inl b ↦ ground (arith, length-take_partner ts)
      | inr ((u, left), b) ↦ ground (arith, length-take_partner ts)
    ]
  ]

  take_partner-none : (ts : List BenchmarkFinding) → take_partner p ts ≡ none → any p ts ≡ false
  unfolding take_partner
  take_partner-none [] h = refl
  take_partner-none (t ∷ ts) h = ground (arith, take_partner-none ts)

  -- What a search leaves was there.
  any-take_partner :
      (q : BenchmarkFinding → Bool) (ts : List BenchmarkFinding)
      → any q ts ≡ false
      → any q (left_by ts (take_partner p ts)) ≡ false
  unfolding take_partner
  any-take_partner q [] h = refl
  any-take_partner q (t ∷ ts) h = ground (arith, any-take_partner q ts)

-- The findings of `ours_only` have no partner left.
abbrev IsMaximal : ℕ → List BenchmarkFinding → List BenchmarkFinding → Type 0
IsMaximal tolerance theirs ours =
    All (λ (a : BenchmarkFinding). any (same tolerance a) theirs ≡ false) ours

count-place :
    (p : BenchmarkFinding → Bool) (f : BenchmarkFinding)
    (o : Option (BenchmarkFinding × List BenchmarkFinding)) (m : CrossMatch)
    → count p (place f o m).shared + count p (place f o m).ours_only
      ≡ count p m.shared + count p m.ours_only + one_if (p f)
unfolding place
count-place p f none m = omega (arith, count-snoc p m.ours_only f)
count-place p f (some (t, left)) m = omega (arith, count-snoc p m.shared f)

length-place :
    (f : BenchmarkFinding) (o : Option (BenchmarkFinding × List BenchmarkFinding)) (m : CrossMatch)
    → taken o + length (left_by m.theirs_only o) ≡ length m.theirs_only
    → length (place f o m).shared + length (place f o m).theirs_only
      ≡ length m.shared + length m.theirs_only
unfolding place
length-place f none m h = refl
length-place f (some (t, left)) m h = omega (arith, h, length-append m.shared (f ∷ []))

IsMaximal-left_by :
    (tolerance : ℕ) (f : BenchmarkFinding) (ts ours : List BenchmarkFinding)
    → IsMaximal tolerance ts ours
    → IsMaximal tolerance (left_by ts (take_partner (same tolerance f) ts)) ours
IsMaximal-left_by tolerance f ts [] h = h
IsMaximal-left_by tolerance f ts (a ∷ more) (h, hs) = (
  any-take_partner (same tolerance f) (same tolerance a) ts h,
  IsMaximal-left_by tolerance f ts more hs,
)

IsMaximal-place :
    (tolerance : ℕ) (f : BenchmarkFinding) (o : Option (BenchmarkFinding × List BenchmarkFinding))
    (m : CrossMatch)
    → take_partner (same tolerance f) m.theirs_only ≡ o
    → IsMaximal tolerance (left_by m.theirs_only o) m.ours_only
    → IsMaximal tolerance (place f o m).theirs_only (place f o m).ours_only
unfolding place
IsMaximal-place tolerance f none m found h =
    All-append (λ (a : BenchmarkFinding). any (same tolerance a) m.theirs_only ≡ false) m.ours_only
      (f ∷ []) h (take_partner-none (same tolerance f) m.theirs_only found, tt)
IsMaximal-place tolerance f (some (t, left)) m found h = h

match_all-count :
    (p : BenchmarkFinding → Bool) (tolerance : ℕ) (fs : List BenchmarkFinding) (m : CrossMatch)
    → count p (match_all tolerance fs m).shared + count p (match_all tolerance fs m).ours_only
      ≡ count p m.shared + count p m.ours_only + count p fs
unfolding match_all
match_all-count p tolerance [] m = omega arith
match_all-count p tolerance (f ∷ fs) m =
    let o = take_partner (same tolerance f) m.theirs_only in
    ground (arith, match_all-count p tolerance fs (place f o m), count-place p f o m)

match_all-length :
    (tolerance : ℕ) (fs : List BenchmarkFinding) (m : CrossMatch)
    → length (match_all tolerance fs m).shared + length (match_all tolerance fs m).theirs_only
      ≡ length m.shared + length m.theirs_only
unfolding match_all
match_all-length tolerance [] m = refl
match_all-length tolerance (f ∷ fs) m =
    let o = take_partner (same tolerance f) m.theirs_only in
    match_all-length tolerance fs (place f o m)
    ∙ length-place f o m (length-take_partner (same tolerance f) m.theirs_only)

match_all-IsMaximal :
    (tolerance : ℕ) (fs : List BenchmarkFinding) (m : CrossMatch)
    → IsMaximal tolerance m.theirs_only m.ours_only
    → IsMaximal tolerance
        (match_all tolerance fs m).theirs_only
        (match_all tolerance fs m).ours_only
unfolding match_all
match_all-IsMaximal tolerance [] m h = h
match_all-IsMaximal tolerance (f ∷ fs) m h =
    let o = take_partner (same tolerance f) m.theirs_only in
    match_all-IsMaximal tolerance fs (place f o m) (
      IsMaximal-place tolerance f o m refl
        (IsMaximal-left_by tolerance f m.theirs_only m.ours_only h))

-- The greedy matching of two lists of findings: by every test, the shared findings and ours alone
-- are together as many as ours; the shared findings and theirs alone are as many as theirs; and no
-- finding of ours alone is the same as one of theirs alone.
pub matching_is_maximal :
    (tolerance : ℕ) (ours theirs : List BenchmarkFinding) (p : BenchmarkFinding → Bool)
    → let m = match_cross_tool tolerance ours theirs in
      (count p m.shared + count p m.ours_only ≡ count p ours)
      × (length m.shared + length m.theirs_only ≡ length theirs)
      × All (λ (a : BenchmarkFinding). any (same tolerance a) m.theirs_only ≡ false) m.ours_only
unfolding match_cross_tool
matching_is_maximal tolerance ours theirs p =
    let m : CrossMatch = record { shared = []; ours_only = []; theirs_only = theirs } in
    (
      omega (arith, match_all-count p tolerance ours m),
      omega (arith, match_all-length tolerance ours m),
      match_all-IsMaximal tolerance ours m tt,
    )
