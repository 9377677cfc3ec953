-- ===== src/Remediation/Samples.antt =====
-- One finding whose fix is approved, applied and verified: the inputs of the examples below.
use multi_stage_agentic_sast.Remediation.{
  proposed, applied, RemediationRecord, PatchLibrary, RemediationProposal, RemediationStatus,
  get_record, apply_proposal, rest_after,
}
use multi_stage_agentic_sast.Approval.Models.{ApprovalRequest, approved, remediation}
use multi_stage_agentic_sast.Runs.Models.{ScanRun, completed}
use multi_stage_agentic_sast.Prelude.Exec.{and_then, ok}
use multi_stage_agentic_sast.Remediation.Service.{
  Surroundings, propose, World, project_for_finding, located, located_in, target_path,
  require_approved_approval,
}
use multi_stage_agentic_sast.Prelude.{◌∷◌, none, ◌⊎◌, ◌≡◌, false, refl, some, true, []}
use multi_stage_agentic_sast.Remediation.Verified.{IsRescanned, verification_is_rescan}
use multi_stage_agentic_sast.Prelude.Dict.{set_item, values, contains, get}
use multi_stage_agentic_sast.Prelude.Sort.{sorted, insert_sorted}
use multi_stage_agentic_sast.Remediation.Actions.{
  apply, verify, verification_for, ready_for, verified_record, ready_record_for, record_rescanned,
  ready_with, owner_rescanned, rescanned, ready_gated, gate, rescan, approved_and_confirmed,
}
use multi_stage_agentic_sast.Prelude.Datetime.{aware}
use multi_stage_agentic_sast.Scan.Rule.{Python}
use multi_stage_agentic_sast.Remediation.Guarded.{IsApplied, source_changes_are_authorized}
use multi_stage_agentic_sast.Runs.Reads.{runs_for_finding, runs_listed}
use multi_stage_agentic_sast.Scan.Service.{scan, scan_rules, scan_files}
use multi_stage_agentic_sast.Approval.Store.{find_for_finding, latest}

abbrev request : ApprovalRequest
request = record {
  id = "r";
  finding_id = "f";
  status = approved;
  requested_at = aware 1;
  requested_by = "ann";
  reviewed_at = some (aware 2);
  reviewed_by = some "mia";
  reason = none;
  action = remediation;
  version = 1;
  scan_run_id = none;
}

abbrev run : ScanRun
run = record {
  scan_run_id = "s";
  project_id = "p";
  status = completed;
  started_at = aware 0;
  completed_at = none;
  scanned_file_count = none;
  total_findings = none;
  error = none;
  created_at = aware 0;
}

abbrev patches : PatchLibrary
patches = record {
  splitlines_keepends = λ s. s ∷ [];
  rstrip_newlines = λ s. s;
  strip = λ s. s;
  indent = λ s. 0;
  ends_line = λ s. true;
  docstring_end = λ s. none;
  parses = λ s. true;
}

abbrev proposal : RemediationProposal
proposal = record {
  finding_id = "f";
  vulnerability_type = "command_injection";
  file = "a.py";
  line = 1;
  strategy = "shell_quote";
  before = "run(q)";
  replacement = "run(quote(q))";
  import_to_add = none;
  rationale = "quote";
}

abbrev python : Python
python = record {
  unparse = λ e. "";
  get_source_segment = λ source e. none;
  splitlines = λ source. [];
  strip = λ s. s;
  sha256_hex = λ s. s;
  show = λ n. "";
}

abbrev surroundings : Surroundings
surroundings = record {
  approvals = record { requests = ("r", request) ∷ []; events = []; factory = false; writes = [] };
  findings = record { findings = []; factory = false; writes = [] };
  runs = record {
    runs = ("s", run) ∷ [];
    stages = [];
    executions = [];
    lineage = ("s", "f" ∷ []) ∷ [];
    factory = false;
    writes = [];
  };
  project_of = λ id. some (record { id = id; snapshot_path = "snap" });
  workspace = "w";
  repo_of = λ p. p;
  resolve = λ repo file. file;
  is_relative_to = λ a b. true;
  patches = patches;
  build_proposal = λ f text. ok proposal;
  message = λ e. "";
  load_code_model = λ p. some [];
  python = python;
  report_env = record { id = "rep"; now = 3 };
  now = 4;
}

abbrev record_with : RemediationStatus → RemediationRecord
record_with status = record {
  finding_id = "f";
  approval_id = "r";
  status = status;
  proposal = some proposal;
  applied_at = none;
  applied_by = none;
  verified_at = none;
  verification = none;
  error_text = none;
  created_at = aware 2;
}

abbrev world : RemediationStatus → World
world status = record {
  store = record { records = ("f", record_with status) ∷ []; factory = false; writes = [] };
  files = ("a.py", "run(q)") ∷ [];
}

-- The patch is written when it is confirmed.
applied_when_confirmed :
    (apply surroundings "f" true (world proposed)).1.files ≡ ("a.py", "run(quote(q))") ∷ []
unfolding apply ready_for ready_record_for ready_with ready_gated gate approved_and_confirmed
    located located_in target_path project_for_finding runs_for_finding runs_listed contains sorted
    insert_sorted require_approved_approval find_for_finding latest values get get_record
    apply_proposal rest_after set_item and_then
applied_when_confirmed = refl

source_changes_are_authorized_example :
    ((propose surroundings "f" (world proposed)).1.files ≡ (world proposed).files)
    × ((verify surroundings "f" (world proposed)).1.files ≡ (world proposed).files)
    × (((apply surroundings "f" true (world proposed)).1.files ≡ (world proposed).files)
        ⊎ IsApplied surroundings "f" true
            (world proposed)
            (apply surroundings "f" true (world proposed)).1)
source_changes_are_authorized_example =
    source_changes_are_authorized surroundings "f" true (world proposed)

abbrev verified_fix : RemediationRecord
verified_fix = verified_record 4 false (record_with applied)

verifies : (verify surroundings "f" (world applied)).0 ≡ ok verified_fix
unfolding verify verification_for record_rescanned owner_rescanned rescanned rescan
    project_for_finding runs_for_finding runs_listed contains sorted insert_sorted get get_record
    scan scan_rules scan_files and_then
verifies = refl

verification_is_rescan_example : IsRescanned surroundings "f" (world applied) verified_fix
verification_is_rescan_example =
    verification_is_rescan surroundings "f" (world applied) verified_fix verifies
