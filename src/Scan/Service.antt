-- ===== src/Scan/Service.antt =====
-- ScanService of backend/app/scan/service.py: every rule over every file, then the report.
use multi_stage_agentic_sast.Prelude.{
  eqb, none, suc, some, length, Bool, ◌∷◌, List, [], if◌then◌else◌, ◌&&◌, ◌||◌, Option, String,
  ◌==◌, ltb, ◌++◌, ℕ,
}
use multi_stage_agentic_sast.Prelude.Datetime.{aware}
use multi_stage_agentic_sast.Findings.{FunctionSummary, CandidateFinding, ScanReport}
use multi_stage_agentic_sast.Prelude.Dict.{set_item, get, Dict}
use multi_stage_agentic_sast.Prelude.Sort.{text_ltb, sorted}
use multi_stage_agentic_sast.Scan.Engine.{analyze_file, sorted_names, CodeFile}
use multi_stage_agentic_sast.Scan.Rule.{Python, Rule}
use multi_stage_agentic_sast.Scan.Rules.Sql.{sql_injection_rule}
use multi_stage_agentic_sast.Scan.Rules.Command.{command_injection_rule}
use multi_stage_agentic_sast.Scan.Rules.Ssrf.{ssrf_rule}
use multi_stage_agentic_sast.Scan.Rules.Deserialization.{deserialization_rule}

-- The rules that the service has when it is given none.
abbrev pub default_rules : Python → List Rule
default_rules py =
    sql_injection_rule py ∷ command_injection_rule py ∷ ssrf_rule py ∷ deserialization_rule py ∷ []

abbrev pub Scanned : Type 0
Scanned = List CandidateFinding × List FunctionSummary

-- findings.extend(...) and summaries.extend(...)
abbrev pub joined : Scanned → Scanned → Scanned
joined (a, m) (b, n) = (a ++ b, m ++ n)

unfoldable pub scan_files : Python → Rule → String → List CodeFile → Scanned
unfolding analyze_file
scan_files py rule project [] = ([], [])
scan_files py rule project (f ∷ fs) =
    joined (analyze_file py rule project f) (scan_files py rule project fs)

unfoldable pub scan_rules : Python → List Rule → String → List CodeFile → Scanned
unfolding scan_files
scan_rules py [] project files = ([], [])
scan_rules py (r ∷ rs) project files =
    joined (scan_files py r project files) (scan_rules py rs project files)

-- The order of tuples: the first difference decides.
abbrev pub then_by : Bool → Bool → Bool → Bool
then_by less same rest = less || same && rest

-- (f.sink.file, f.sink.line, f.source.line)
abbrev pub finding_before : CandidateFinding → CandidateFinding → Bool
finding_before f g =
    then_by (text_ltb f.sink_ref.file g.sink_ref.file) (f.sink_ref.file == g.sink_ref.file) (
      then_by (ltb f.sink_ref.line g.sink_ref.line) (eqb f.sink_ref.line g.sink_ref.line)
        (ltb f.source_ref.line g.source_ref.line))

abbrev pub or_zero : Option ℕ → ℕ
or_zero none = 0
or_zero (some n) = n

unfoldable pub count_types : List CandidateFinding → Dict ℕ → Dict ℕ
unfolding get set_item
count_types [] by_type = by_type
count_types (f ∷ fs) by_type =
    count_types fs
      (set_item f.vulnerability_type (suc (or_zero (get f.vulnerability_type by_type))) by_type)

-- (s.file, s.line, s.qualified_name)
abbrev pub same_function : FunctionSummary → FunctionSummary → Bool
same_function m n = m.file == n.file && (eqb m.line n.line && m.qualified_name == n.qualified_name)

-- What two rules observed of one function.
abbrev pub both : FunctionSummary → FunctionSummary → FunctionSummary
both prev s = record {
  qualified_name = s.qualified_name;
  file = s.file;
  line = s.line;
  tainted_params = sorted_names (prev.tainted_params ++ s.tainted_params);
  sinks = prev.sinks ++ s.sinks;
  returns_taint = prev.returns_taint || s.returns_taint;
}

-- merged[key] = ..., where the entries stand for their keys
unfoldable pub merge_summary : FunctionSummary → List FunctionSummary → List FunctionSummary
unfolding sorted
merge_summary s [] = s ∷ []
merge_summary s (m ∷ merged) =
    if same_function m s then both m s ∷ merged else m ∷ merge_summary s merged

unfoldable pub merge_all : List FunctionSummary → List FunctionSummary → List FunctionSummary
unfolding merge_summary
merge_all [] merged = merged
merge_all (s ∷ ss) merged = merge_all ss (merge_summary s merged)

abbrev pub summary_before : FunctionSummary → FunctionSummary → Bool
summary_before m n =
    then_by (text_ltb m.file n.file) (m.file == n.file)
      (then_by (ltb m.line n.line) (eqb m.line n.line) (text_ltb m.qualified_name n.qualified_name))

-- _merge_summaries
unfoldable pub merge_summaries : List FunctionSummary → List FunctionSummary
unfolding merge_all sorted
merge_summaries ss = sorted summary_before (merge_all ss [])

-- The report's id is a random one.
pub record ReportEnv : Type 0 where
  pub id : String
  pub now : ℕ

-- scan
unfoldable pub scan : Python → ReportEnv → List Rule → String → List CodeFile → ScanReport
unfolding scan_rules merge_summaries count_types sorted
scan py env rules project files =
    let found : Scanned = scan_rules py rules project files in
    let findings : List CandidateFinding = sorted finding_before found.0 in
    record {
      id = env.id;
      created_at = aware env.now;
      scanned_file_count = length files;
      findings = findings;
      function_summaries = merge_summaries found.1;
      summary = record { total = length findings; by_type = count_types findings [] };
    }
