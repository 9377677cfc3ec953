-- ===== src/Benchmark.antt =====
-- The benchmark against ground truth (backend/app/benchmark). The cases of a fixture and the
-- arithmetic of floats are inputs.
pub mod Matching
pub mod Accounting
mod Samples
use multi_stage_agentic_sast.Prelude.{
  ℕ, String, Bool, false, not, ◌&&◌, ◌||◌, Option, none, some, List, [], ◌∷◌, ◌++◌, ◌==◌, ◌+◌, ◌-◌,
  if◌then◌else◌, leb, select, find_first, length,
}
use multi_stage_agentic_sast.Prelude.Dict.{contains}
use multi_stage_agentic_sast.Prelude.Int.{ℤ, pos, sub_ℕ, ◌+ℤ◌}

pub record BenchmarkFinding : Type 0 where
  pub tool : String
  pub vulnerability_type : String
  pub file : String
  pub line : ℕ
  pub function : Option String
  pub message : String
  pub fingerprint : String

pub record GroundTruthCase : Type 0 where
  pub case_id : String
  pub file : String
  pub function : String
  pub vulnerability_type : String
  pub expected_vulnerable : Bool
  pub source_description : String
  pub sink_description : String
  pub source_line : ℕ
  pub sink_line : ℕ

abbrev pub default_tolerance : ℕ
default_tolerance = 3

-- abs(a - b) <= tolerance
abbrev pub is_close : ℕ → ℕ → ℕ → Bool
is_close tolerance a b = leb (a - b + (b - a)) tolerance

-- A name that is there, not empty, and this one.
abbrev pub names : Option String → String → Bool
names none g = false
names (some f) g = not (f == "") && f == g

abbrev pub same_function : Option String → Option String → Bool
same_function f none = false
same_function f (some g) = names f g

-- _same
unfoldable pub same : ℕ → BenchmarkFinding → BenchmarkFinding → Bool
same tolerance a b =
    a.file == b.file
    && a.vulnerability_type == b.vulnerability_type
    && (is_close tolerance a.line b.line || same_function a.function b.function)

unfoldable pub matches_case : ℕ → BenchmarkFinding → GroundTruthCase → Bool
matches_case tolerance finding c =
    finding.file == c.file
    && finding.vulnerability_type == c.vulnerability_type
    && (is_close tolerance finding.line c.source_line
        || is_close tolerance finding.line c.sink_line
        || names finding.function c.function)

-- The first of `remaining` that is the same, and `remaining` without it: `remove` takes the first
-- equal entry, and an earlier equal one would have been found.
unfoldable pub take_partner :
    (BenchmarkFinding → Bool)
    → List BenchmarkFinding
    → Option (BenchmarkFinding × List BenchmarkFinding)
take_partner p [] = none
take_partner p (t ∷ ts) =
    let rest = take_partner p ts in
    if p t
    then some (t, ts)
    else elim rest [ none ↦ none | some (partner, left) ↦ some (partner, t ∷ left) ]

-- shared, ours_only and theirs_only
pub record CrossMatch : Type 0 where
  pub shared : List BenchmarkFinding
  pub ours_only : List BenchmarkFinding
  pub theirs_only : List BenchmarkFinding

-- One round of match_cross_tool, `theirs_only` being what remains.
unfoldable pub place :
    BenchmarkFinding → Option (BenchmarkFinding × List BenchmarkFinding) → CrossMatch → CrossMatch
place finding none m = record m { ours_only = m.ours_only ++ finding ∷ [] }
place finding (some (partner, left)) m = record m {
  shared = m.shared ++ finding ∷ [];
  theirs_only = left;
}

unfoldable pub match_all : ℕ → List BenchmarkFinding → CrossMatch → CrossMatch
unfolding place take_partner same
match_all tolerance [] m = m
match_all tolerance (f ∷ fs) m =
    match_all tolerance fs (place f (take_partner (same tolerance f) m.theirs_only) m)

unfoldable pub match_cross_tool : ℕ → List BenchmarkFinding → List BenchmarkFinding → CrossMatch
unfolding match_all
match_cross_tool tolerance ours theirs =
    match_all tolerance ours (record { shared = []; ours_only = []; theirs_only = theirs })

-- What classify has found so far; the sets of consumed cases are lists of their ids.
pub record Classification : Type 0 where
  pub matched : List String
  pub false_positives : List BenchmarkFinding
  pub consumed_vulnerable : List String
  pub consumed_safe : List String

-- The first case that is not consumed and that the finding matches.
unfoldable pub next_case :
    ℕ → List String → BenchmarkFinding → List GroundTruthCase → Option GroundTruthCase
unfolding matches_case contains
next_case tolerance consumed finding cases =
    find_first
      (λ (c : GroundTruthCase).
        not (contains c.case_id consumed) && matches_case tolerance finding c)
      cases

abbrev pub consume : Option GroundTruthCase → List String → List String
consume none consumed = consumed
consume (some c) consumed = c.case_id ∷ consumed

-- One finding, with the vulnerable and the safe case that it hits.
unfoldable pub count_finding :
    BenchmarkFinding
    → Option GroundTruthCase
    → Option GroundTruthCase
    → Classification
    → Classification
count_finding finding (some hit) safe_hit n = record n {
  matched = n.matched ++ hit.case_id ∷ [];
  consumed_vulnerable = hit.case_id ∷ n.consumed_vulnerable;
}
count_finding finding none safe_hit n = record n {
  false_positives = n.false_positives ++ finding ∷ [];
  consumed_safe = consume safe_hit n.consumed_safe;
}

unfoldable pub classify_all :
    ℕ
    → List GroundTruthCase
    → List GroundTruthCase
    → List BenchmarkFinding
    → Classification
    → Classification
unfolding next_case count_finding
classify_all tolerance vulnerable safe [] n = n
classify_all tolerance vulnerable safe (f ∷ fs) n = classify_all tolerance vulnerable safe fs (
    count_finding f (next_case tolerance n.consumed_vulnerable f vulnerable)
      (next_case tolerance n.consumed_safe f safe) n)

abbrev pub vulnerable_cases : List GroundTruthCase → List GroundTruthCase
vulnerable_cases = select (λ (c : GroundTruthCase). c.expected_vulnerable)

abbrev pub safe_cases : List GroundTruthCase → List GroundTruthCase
safe_cases = select (λ (c : GroundTruthCase). not c.expected_vulnerable)

unfoldable pub classify :
    ℕ → List BenchmarkFinding → List GroundTruthCase → List String × List BenchmarkFinding
unfolding classify_all
classify tolerance findings cases =
    let n = classify_all tolerance (vulnerable_cases cases) (safe_cases cases) findings (record {
      matched = [];
      false_positives = [];
      consumed_vulnerable = [];
      consumed_safe = [];
    }) in
    (n.matched, n.false_positives)

-- Python's floats, as far as the metrics use them: `round(n / d, 4)`, the product and the sum, the
-- float of an int, and the tests `x == 0` and `x > 0`.
pub record Floats : Type 1 where
  pub Float : Type 0
  pub rounded_quotient : Float → Float → Float
  pub times : Float → Float → Float
  pub plus : Float → Float → Float
  pub of_int : ℤ → Float
  pub is_zero : Float → Bool
  pub is_positive : Float → Bool

-- _ratio
unfoldable pub ratio : (fl : Floats) → fl.Float → fl.Float → Option fl.Float
ratio fl numerator denominator =
    if fl.is_zero denominator then none else some (fl.rounded_quotient numerator denominator)

unfoldable pub f1_of : (fl : Floats) → Option fl.Float → Option fl.Float → Option fl.Float
unfolding ratio
f1_of fl (some precision) (some recall) =
    if fl.is_positive (fl.plus precision recall)
    then ratio fl (fl.times (fl.times (fl.of_int (pos 2)) precision) recall)
        (fl.plus precision recall)
    else none
f1_of fl _ _ = none

pub record BenchmarkMetrics (F : Type 0) : Type 0 where
  pub tool : String
  pub true_positives : ℕ
  pub false_positives : ℕ
  pub false_negatives : ℤ
  pub precision : Option F
  pub recall : Option F
  pub f1 : Option F
  pub total_findings : ℕ

-- compute_metrics; `ground_truth` is get_ground_truth of the fixture.
unfoldable pub compute_metrics :
    (fl : Floats)
    → ℕ
    → String
    → List BenchmarkFinding
    → List GroundTruthCase
    → BenchmarkMetrics fl.Float
unfolding classify ratio f1_of ◌+ℤ◌
compute_metrics fl tolerance tool findings ground_truth =
    let vulnerable = vulnerable_cases ground_truth in
    let (matched, refuted) = classify tolerance findings (vulnerable ++ safe_cases ground_truth) in
    let tp = length matched in
    let fn = sub_ℕ (length vulnerable) tp in
    let precision = ratio fl (fl.of_int (pos tp)) (fl.of_int (pos tp +ℤ pos (length refuted))) in
    let recall = ratio fl (fl.of_int (pos tp)) (fl.of_int (pos tp +ℤ fn)) in
    record {
      tool = tool;
      true_positives = tp;
      false_positives = length refuted;
      false_negatives = fn;
      precision = precision;
      recall = recall;
      f1 = f1_of fl precision recall;
      total_findings = length findings;
    }
