-- ===== src/Scan/Reports.antt =====
-- What a scan reports: traced findings of the rules and the files it was given, and their counts.
use mathlib.Core.List.{Memᴰ}
use multi_stage_agentic_sast.Prelude.Sort.{All-sorted, sorted}
use multi_stage_agentic_sast.Prelude.{
  select, All, List, Bool, ◌==◌, suc, All-append, String, eq_iff, ◌≡◌, ◌∷◌, refl, ℕ, All-map,
  length, [], arith, ◌+◌,
}
use multi_stage_agentic_sast.Prelude.Dict.{get-set_item, get, Dict, set_item}
use multi_stage_agentic_sast.Scan.Service.{
  or_zero, scan, count_types, scan_files, scan_rules, ReportEnv, finding_before,
}
use multi_stage_agentic_sast.Scan.Rule.{Python, Rule}
use multi_stage_agentic_sast.Findings.{CandidateFinding, ScanReport}
use multi_stage_agentic_sast.Scan.Engine.{CodeFile, analyze_file, context_of}
use multi_stage_agentic_sast.Scan.Traces.{IsTraced}
use multi_stage_agentic_sast.Scan.Traced.{findings_are-IsTraced}

-- A finding of one of these rules in one of these files.
pub record IsReported (py : Python) (rules : List Rule) (project : String) (files : List CodeFile)
    (f : CandidateFinding) : Type 0 where
  pub rule : Rule
  pub file : CodeFile
  pub rule_listed : Memᴰ rule rules
  pub file_listed : Memᴰ file files
  pub traced : IsTraced (context_of py rule project file) f

-- The same, of one rule.
pub record IsReportedBy (py : Python) (rule : Rule) (project : String) (files : List CodeFile)
    (f : CandidateFinding) : Type 0 where
  pub file : CodeFile
  pub file_listed : Memᴰ file files
  pub traced : IsTraced (context_of py rule project file) f

module _ (py : Python) (project : String) where
  IsReportedBy-scan_files :
      (rule : Rule) (files : List CodeFile)
      → All (IsReportedBy py rule project files) (scan_files py rule project files).0
  unfolding scan_files
  IsReportedBy-scan_files rule [] = tt
  IsReportedBy-scan_files rule (f ∷ fs) =
      All-append (IsReportedBy py rule project (f ∷ fs)) (analyze_file py rule project f).0
        (scan_files py rule project fs).0
        (All-map _ (λ g h. record { file = f; file_listed = Memᴰ.head refl; traced = h })
          (analyze_file py rule project f).0 (findings_are-IsTraced py rule project f))
        (All-map _
          (λ g h. record {
            file = h.file;
            file_listed = Memᴰ.tail h.file_listed;
            traced = h.traced;
          })
          (scan_files py rule project fs).0 (IsReportedBy-scan_files rule fs))

  IsReported-scan_rules :
      (rules : List Rule) (files : List CodeFile)
      → All (IsReported py rules project files) (scan_rules py rules project files).0
  unfolding scan_rules
  IsReported-scan_rules [] files = tt
  IsReported-scan_rules (r ∷ rs) files =
      All-append (IsReported py (r ∷ rs) project files) (scan_files py r project files).0
        (scan_rules py rs project files).0
        (All-map _
          (λ g h. record {
            rule = r;
            file = h.file;
            rule_listed = Memᴰ.head refl;
            file_listed = h.file_listed;
            traced = h.traced;
          })
          (scan_files py r project files).0 (IsReportedBy-scan_files r files))
        (All-map _
          (λ g h. record {
            rule = h.rule;
            file = h.file;
            rule_listed = Memᴰ.tail h.rule_listed;
            file_listed = h.file_listed;
            traced = h.traced;
          })
          (scan_rules py rs project files).0 (IsReported-scan_rules rs files))

  -- Every finding of a scan's report is one of the given rules' in one of the given files, with a path
  -- that begins at a source and ends at a sink that this rule matched and did not take for
  -- sanitized.
  pub reports_are_traced :
      (env : ReportEnv) (rules : List Rule) (files : List CodeFile)
      → All (IsReported py rules project files) (scan py env rules project files).findings
  unfolding scan
  reports_are_traced env rules files =
      All-sorted finding_before (IsReported py rules project files)
        (scan_rules py rules project files).0 (IsReported-scan_rules rules files)

abbrev pub of_type : String → CandidateFinding → Bool
of_type t f = f.vulnerability_type == t

count_types-add :
    (t : String) (fs : List CandidateFinding) (d : Dict ℕ)
    → or_zero (get t (count_types fs d)) ≡ or_zero (get t d) + length (select (of_type t) fs)
unfolding count_types
count_types-add t [] d = omega arith
count_types-add t (f ∷ fs) d = ground (
  arith,
  count_types-add t fs
      (set_item f.vulnerability_type (suc (or_zero (get f.vulnerability_type d))) d),
  get-set_item f.vulnerability_type t (suc (or_zero (get f.vulnerability_type d))) d,
  eq_iff f.vulnerability_type t,
)

abbrev pub total_of : Dict ℕ → ℕ
total_of [] = 0
total_of ((k, n) ∷ d) = n + total_of d

total_of-set_item :
    (k : String) (d : Dict ℕ) → total_of (set_item k (suc (or_zero (get k d))) d) ≡ suc (total_of d)
unfolding set_item get
total_of-set_item k [] = omega arith
total_of-set_item k ((j, n) ∷ d) = ground (arith, total_of-set_item k d)

total_of-count_types :
    (fs : List CandidateFinding) (d : Dict ℕ) → total_of (count_types fs d) ≡ total_of d + length fs
unfolding count_types
total_of-count_types [] d = omega arith
total_of-count_types (f ∷ fs) d = omega (
  arith,
  total_of-count_types fs
      (set_item f.vulnerability_type (suc (or_zero (get f.vulnerability_type d))) d),
  total_of-set_item f.vulnerability_type d,
)

types_counted :
    (t : String) (fs : List CandidateFinding)
    → or_zero (get t (count_types fs [])) ≡ length (select (of_type t) fs)
unfolding get
types_counted t fs = omega (arith, count_types-add t fs [])

types_total : (fs : List CandidateFinding) → total_of (count_types fs []) ≡ length fs
types_total fs = omega (arith, total_of-count_types fs [])

-- The summary of a report counts each type as often as it stands among the findings, and the counts
-- add up to the total, which is the number of findings.
pub report_counts :
    (py : Python) (env : ReportEnv) (rules : List Rule) (project : String) (files : List CodeFile)
    → let r : ScanReport = scan py env rules project files in
      ((t : String) → or_zero (get t r.summary.by_type) ≡ length (select (of_type t) r.findings))
      × (total_of r.summary.by_type ≡ r.summary.total)
      × (r.summary.total ≡ length r.findings)
unfolding scan
report_counts py env rules project files =
    let fs : List CandidateFinding = sorted finding_before (scan_rules py rules project files).0 in
    (λ t. types_counted t fs, types_total fs, refl)
