-- ===== src/Remediation/Service.antt =====
-- RemediationService of backend/app/remediation/service.py.
use multi_stage_agentic_sast.Remediation.{
  RemediationStatus, proposed, no_fix_available, RemediationRecord, RemediationProposal, put_record,
  RemediationStore, get_record, PatchError, PatchLibrary,
}
use multi_stage_agentic_sast.Approval.Models.{
  ApprovalAction, remediation, ApprovalStatus, approved, ApprovalRequest,
}
use multi_stage_agentic_sast.Scan.Service.{ReportEnv}
use multi_stage_agentic_sast.Prelude.{
  String, if◌then◌else◌, none, length, List, ◌==◌, false, Bool, true, map, Option, ℕ, [], ◌∷◌, some,
}
use multi_stage_agentic_sast.Prelude.Exec.{err, Result, ok, and_then}
use multi_stage_agentic_sast.Prelude.Dict.{get, Dict}
use multi_stage_agentic_sast.Prelude.Sort.{sorted}
use multi_stage_agentic_sast.Prelude.Datetime.{aware}
use multi_stage_agentic_sast.Approval.Store.{ApprovalStore, find_for_finding}
use multi_stage_agentic_sast.Runs.Reads.{runs_for_finding}
use multi_stage_agentic_sast.Findings.Store.{get_finding, FindingStore}
use multi_stage_agentic_sast.Findings.{CandidateFinding}
use multi_stage_agentic_sast.Runs.Store.{RunStore}
use multi_stage_agentic_sast.Scan.Engine.{sorted_names, CodeFile}
use multi_stage_agentic_sast.Runs.Models.{ScanRun}
use multi_stage_agentic_sast.Scan.Rule.{Python}

-- Where RemediationGateError is raised, with what its message says; the last three are exceptions of
-- what the service calls.
pub data RemediationError : Type 0 where
  finding_not_found no_approval wrong_action not_approved : RemediationError
  ambiguous_project : ℕ → RemediationError
  project_gone outside_workspace escapes_repository : RemediationError
  no_proposal no_fix already_applied not_confirmed : RemediationError
  patch_failed : PatchError → RemediationError
  no_record not_applied : RemediationError
  unknown_run unreadable : RemediationError
  proposal_failed : PatchError → RemediationError

pub record Project : Type 0 where
  pub id : String
  pub snapshot_path : String

-- What the service reads: the other stores, the table of projects, paths as pathlib resolves them,
-- build_proposal of patches.py, the code model that PREPARE left of a project, and the scanner.
pub record Surroundings : Type 0 where
  pub approvals : ApprovalStore
  pub findings : FindingStore
  pub runs : RunStore
  pub project_of : String → Option Project
  pub workspace : String
  pub repo_of : String → String
  pub resolve : String → String → String
  pub is_relative_to : String → String → Bool
  pub patches : PatchLibrary
  pub build_proposal : CandidateFinding → String → Result PatchError RemediationProposal
  pub message : PatchError → String
  pub load_code_model : Project → Option (List CodeFile)
  pub python : Python
  pub report_env : ReportEnv
  pub now : ℕ

-- The store of the service, and the files of the workspace by their paths.
pub record World : Type 0 where
  pub store : RemediationStore
  pub files : Dict String

abbrev pub or_fail : {A : Type 0} → RemediationError → Option A → Result RemediationError A
or_fail e none = err e
or_fail e (some a) = ok a

abbrev pub check : RemediationError → Bool → Result RemediationError Bool
check e true = ok true
check e false = err e

abbrev pub is_remediation : ApprovalAction → Bool
is_remediation remediation = true
is_remediation _ = false

abbrev pub is_approved : ApprovalStatus → Bool
is_approved approved = true
is_approved _ = false

abbrev pub check_approval : ApprovalRequest → Result RemediationError ApprovalRequest
check_approval a =
    if is_remediation a.action
    then (if is_approved a.status then ok a else err not_approved)
    else err wrong_action

-- _require_approved_approval
unfoldable pub require_approved_approval :
    Surroundings → String → Result RemediationError ApprovalRequest
unfolding and_then find_for_finding
require_approved_approval w finding_id =
    and_then (or_fail no_approval (find_for_finding finding_id w.approvals)) check_approval

abbrev pub only_project : Surroundings → List String → Result RemediationError Project
only_project w (p ∷ []) = or_fail project_gone (w.project_of p)
only_project w ps = err (ambiguous_project (length ps))

-- _project_for_finding
unfoldable pub project_for_finding : Surroundings → String → Result RemediationError Project
unfolding and_then runs_for_finding sorted
project_for_finding w finding_id =
    and_then (or_fail unknown_run (runs_for_finding finding_id w.runs))
      (λ rs. only_project w (sorted_names (map (λ (r : ScanRun). r.project_id) rs)))

-- _workspace_repo_dir, then the path of a file below it
unfoldable pub target_path : Surroundings → Project → String → Result RemediationError String
target_path w p file =
    let repo = w.repo_of p.snapshot_path in
    let path = w.resolve repo file in
    if w.is_relative_to repo w.workspace
    then (if w.is_relative_to path repo then ok path else err escapes_repository)
    else err outside_workspace

-- read_text
abbrev pub read_text : String → Dict String → Result RemediationError String
read_text path files = or_fail unreadable (get path files)

abbrev pub read_at : Dict String → String → Result RemediationError (String × String)
read_at files path = and_then (read_text path files) (λ text. ok (path, text))

unfoldable pub located_in :
    Surroundings → String → Dict String → Project → Result RemediationError (String × String)
unfolding and_then target_path get
located_in e file files project = and_then (target_path e project file) (read_at files)

-- The path of a file in the workspace copy of the finding's repository, and the text there.
unfoldable pub located :
    Surroundings → String → String → Dict String → Result RemediationError (String × String)
unfolding and_then project_for_finding located_in
located e finding_id file files =
    and_then (project_for_finding e finding_id) (located_in e file files)

abbrev pub with_patch_error : {A : Type 0} → Result PatchError A → Result RemediationError A
with_patch_error (ok a) = ok a
with_patch_error (err e) = err (proposal_failed e)

abbrev pub proposal_status : RemediationProposal → RemediationStatus
proposal_status p = if p.strategy == "no_automatic_fix" then no_fix_available else proposed

abbrev pub proposed_record :
    ℕ
    → String
    → ApprovalRequest
    → RemediationProposal
    → Option RemediationRecord
    → RemediationRecord
proposed_record now finding_id a p none = record {
  finding_id = finding_id;
  approval_id = a.id;
  status = proposal_status p;
  proposal = some p;
  applied_at = none;
  applied_by = none;
  verified_at = none;
  verification = none;
  error_text = none;
  created_at = aware now;
}
proposed_record now finding_id a p (some r) = record r {
  approval_id = a.id;
  proposal = some p;
  status = proposal_status p;
  error_text = none;
}

abbrev pub Outcome : Type 0
Outcome = Result RemediationError RemediationRecord

-- The record that an action arrives at is stored, or nothing happens.
abbrev pub store_result : Outcome → World → Outcome × World
store_result (err e) w = (err e, w)
store_result (ok r) w = (ok r, record w { store = put_record r w.store })

-- What propose stores.
unfoldable pub proposal_for : Surroundings → String → World → Outcome
unfolding and_then require_approved_approval located get get_finding get_record
proposal_for e finding_id w =
    and_then (or_fail finding_not_found (get_finding finding_id e.findings)) (λ f.
      and_then (require_approved_approval e finding_id) (λ a.
        and_then (located e finding_id f.sink_ref.file w.files) (λ at.
          and_then (with_patch_error (e.build_proposal f at.1))
            (λ p. ok (proposed_record e.now finding_id a p (get_record finding_id w.store))))))

unfoldable pub propose : Surroundings → String → World → Outcome × World
unfolding proposal_for put_record
propose e finding_id w = store_result (proposal_for e finding_id w) w
