-- ===== src/Benchmark/Accounting.antt =====
-- The classification against ground truth, and the counts of the metrics.
use multi_stage_agentic_sast.Prelude.{
  [], ◌∷◌, ◌≡◌, length, ◌++◌, Option, ◌+◌, arith, not, eq_refl, String, refl, length-append, some,
  ◌≤◌, List, ℕ, none, ◌-◌,
}
use multi_stage_agentic_sast.Benchmark.{
  next_case, classify, compute_metrics, count_finding, classify_all, Floats, GroundTruthCase,
  BenchmarkFinding, Classification, vulnerable_cases, safe_cases, sub_ℕ,
}
use multi_stage_agentic_sast.Prelude.Dict.{contains}
use multi_stage_agentic_sast.Prelude.Int.{pos}
use multi_stage_agentic_sast.Benchmark.Matching.{count}

abbrev pub open_cases : List String → List GroundTruthCase → ℕ
open_cases consumed = count (λ (c : GroundTruthCase). not (contains c.case_id consumed))

open_cases_le :
    (x : String) (consumed : List String) (cases : List GroundTruthCase)
    → open_cases (x ∷ consumed) cases ≤ open_cases consumed cases
unfolding contains
open_cases_le x consumed [] = omega arith
open_cases_le x consumed (c ∷ cs) = ground (arith, open_cases_le x consumed cs)

-- A hit closes a case.
open_cases-next_case :
    (tolerance : ℕ) (consumed : List String) (f : BenchmarkFinding) (cases : List GroundTruthCase)
    (hit : GroundTruthCase)
    → next_case tolerance consumed f cases ≡ some hit
    → open_cases (hit.case_id ∷ consumed) cases + 1 ≤ open_cases consumed cases
unfolding next_case contains
open_cases-next_case tolerance consumed f [] hit h = cc
open_cases-next_case tolerance consumed f (c ∷ cs) hit h = ground (
  arith,
  open_cases_le hit.case_id consumed cs,
  open_cases-next_case tolerance consumed f cs hit,
  eq_refl c.case_id,
)

open_cases_all : (cases : List GroundTruthCase) → open_cases [] cases ≡ length cases
unfolding contains
open_cases_all [] = refl
open_cases_all (c ∷ cs) = ground (arith, open_cases_all cs)

-- What the matched cases and the open ones amount to, and the classified findings.
pub record Balance (vulnerable : List GroundTruthCase) (n m : Classification) (k : ℕ) : Type 0 where
  pub findings :
      length m.matched + length m.false_positives ≡ length n.matched + length n.false_positives + k
  pub cases :
      length m.matched + open_cases m.consumed_vulnerable vulnerable
      ≤ length n.matched + open_cases n.consumed_vulnerable vulnerable

Balance-count_finding :
    (tolerance : ℕ) (vulnerable : List GroundTruthCase) (f : BenchmarkFinding)
    (hit safe_hit : Option GroundTruthCase) (n : Classification)
    → next_case tolerance n.consumed_vulnerable f vulnerable ≡ hit
    → Balance vulnerable n (count_finding f hit safe_hit n) 1
unfolding count_finding
Balance-count_finding tolerance vulnerable f none safe_hit n found = record {
  findings = omega (arith, length-append n.false_positives (f ∷ []));
  cases = omega arith;
}
Balance-count_finding tolerance vulnerable f (some hit) safe_hit n found = record {
  findings = omega (arith, length-append n.matched (hit.case_id ∷ []));
  cases = omega (
    arith,
    length-append n.matched (hit.case_id ∷ []),
    open_cases-next_case tolerance n.consumed_vulnerable f vulnerable hit found,
  );
}

Balance-classify_all :
    (tolerance : ℕ) (vulnerable safe : List GroundTruthCase) (fs : List BenchmarkFinding)
    (n : Classification)
    → Balance vulnerable n (classify_all tolerance vulnerable safe fs n) (length fs)
unfolding classify_all
Balance-classify_all tolerance vulnerable safe [] n = record {
  findings = omega arith;
  cases = omega arith;
}
Balance-classify_all tolerance vulnerable safe (f ∷ fs) n =
    let hit = next_case tolerance n.consumed_vulnerable f vulnerable in
    let safe_hit = next_case tolerance n.consumed_safe f safe in
    let b = Balance-count_finding tolerance vulnerable f hit safe_hit n refl in
    let c = Balance-classify_all tolerance vulnerable safe fs (count_finding f hit safe_hit n) in
    record {
      findings = omega (arith, b.findings, c.findings);
      cases = omega (arith, b.cases, c.cases);
    }

classify_counts :
    (tolerance : ℕ) (fs : List BenchmarkFinding) (cases : List GroundTruthCase)
    → let (matched, refuted) = classify tolerance fs cases in
      (length matched + length refuted ≡ length fs)
      × (length matched ≤ length (vulnerable_cases cases))
unfolding classify
classify_counts tolerance fs cases =
    let n : Classification = record {
      matched = [];
      false_positives = [];
      consumed_vulnerable = [];
      consumed_safe = [];
    } in
    let b = Balance-classify_all tolerance (vulnerable_cases cases) (safe_cases cases) fs n in
    (omega (arith, b.findings), omega (arith, b.cases, open_cases_all (vulnerable_cases cases)))

vulnerable_split :
    (xs ys : List GroundTruthCase)
    → length (vulnerable_cases (vulnerable_cases xs ++ safe_cases ys))
      ≡ length (vulnerable_cases xs)
vulnerable_split [] [] = refl
vulnerable_split [] (y ∷ ys) = ground (arith, vulnerable_split [] ys)
vulnerable_split (x ∷ xs) ys = ground (arith, vulnerable_split xs ys)

difference : (a b : ℕ) → b ≤ a → (x : ℕ) × (sub_ℕ a b ≡ pos x) × (b + x ≡ a)
difference a b h = (a - b, ground (arith, h), omega (arith, h))

-- The counts of the metrics of a tool are a complete account: its true and false positives are
-- together its findings, and its false negatives are a number that makes up, with the true
-- positives, the vulnerable cases of the fixture. It is never negative.
pub metrics_account :
    (fl : Floats) (tolerance : ℕ) (tool : String) (findings : List BenchmarkFinding)
    (ground_truth : List GroundTruthCase)
    → let m = compute_metrics fl tolerance tool findings ground_truth in
      (m.true_positives + m.false_positives ≡ m.total_findings)
      × (m.total_findings ≡ length findings)
      × ((missed : ℕ) × (m.false_negatives ≡ pos missed)
          × (m.true_positives + missed ≡ length (vulnerable_cases ground_truth)))
unfolding compute_metrics
metrics_account fl tolerance tool findings ground_truth =
    let vulnerable = vulnerable_cases ground_truth in
    let cases = vulnerable ++ safe_cases ground_truth in
    let (total, bound) = classify_counts tolerance findings cases in
    let tp = length (classify tolerance findings cases).0 in
    (
      total,
      refl,
      difference (length vulnerable) tp
          (omega (arith, bound, vulnerable_split ground_truth ground_truth)),
    )
