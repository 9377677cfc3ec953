-- ===== src/Benchmark/Samples.antt =====
-- Two findings of ours, one of the other tool, and one case: the inputs of the examples below.
use multi_stage_agentic_sast.Prelude.{
  false, ◌≡◌, any, Bool, true, none, ℕ, length, List, ◌∷◌, leb, All, ◌+◌, String, [],
}
use multi_stage_agentic_sast.Benchmark.{
  compute_metrics, match_cross_tool, BenchmarkFinding, Floats, vulnerable_cases, GroundTruthCase,
  same,
}
use multi_stage_agentic_sast.Prelude.Int.{pos, ℤ}
use multi_stage_agentic_sast.Benchmark.Matching.{count, matching_is_maximal}
use multi_stage_agentic_sast.Benchmark.Accounting.{metrics_account}

abbrev finding : String → ℕ → BenchmarkFinding
finding tool line = record {
  tool = tool;
  vulnerability_type = "sql_injection";
  file = "db.py";
  line = line;
  function = none;
  message = "m";
  fingerprint = "fp";
}

abbrev ours : List BenchmarkFinding
ours = finding "ours" 20 ∷ finding "ours" 40 ∷ []

abbrev theirs : List BenchmarkFinding
theirs = finding "semgrep" 18 ∷ []

abbrev ground_truth : List GroundTruthCase
ground_truth =
    record {
      case_id = "sql-db-query-users";
      file = "db.py";
      function = "query_users";
      vulnerability_type = "sql_injection";
      expected_vulnerable = true;
      source_description = "user_id interpolated into SQL f-string";
      sink_description = "self.execute";
      source_line = 19;
      sink_line = 20;
    }
    ∷ []

-- Numbers that stand in for floats.
abbrev whole : Floats
whole = record {
  Float = ℤ;
  rounded_quotient = λ a b. a;
  times = λ a b. a;
  plus = λ a b. a;
  of_int = λ n. n;
  is_zero = λ n. false;
  is_positive = λ n. true;
}

abbrev is_late : BenchmarkFinding → Bool
is_late f = leb 30 f.line

matching_is_maximal_example :
    let m = match_cross_tool 3 ours theirs in
    (count is_late m.shared + count is_late m.ours_only ≡ count is_late ours)
    × (length m.shared + length m.theirs_only ≡ length theirs)
    × All (λ (a : BenchmarkFinding). any (same 3 a) m.theirs_only ≡ false) m.ours_only
matching_is_maximal_example = matching_is_maximal 3 ours theirs is_late

metrics_account_example :
    let m = compute_metrics whole 3 "ours" ours ground_truth in
    (m.true_positives + m.false_positives ≡ m.total_findings)
    × (m.total_findings ≡ length ours)
    × ((missed : ℕ) × (m.false_negatives ≡ pos missed)
        × (m.true_positives + missed ≡ length (vulnerable_cases ground_truth)))
metrics_account_example = metrics_account whole 3 "ours" ours ground_truth
