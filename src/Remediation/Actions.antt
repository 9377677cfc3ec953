-- ===== src/Remediation/Actions.antt =====
-- apply and verify of RemediationService, backend/app/remediation/service.py.
use multi_stage_agentic_sast.Remediation.{
  RemediationStatus, no_fix_available, applied, verified, still_present, error, RemediationRecord,
  RemediationProposal, put_record, get_record, PatchError, apply_proposal,
}
use multi_stage_agentic_sast.Approval.Models.{ApprovalRequest}
use multi_stage_agentic_sast.Scan.Service.{scan, default_rules}
use multi_stage_agentic_sast.Prelude.{String, none, ◌==◌, false, Bool, true, ℕ, any, some}
use multi_stage_agentic_sast.Prelude.Exec.{err, Result, ok, and_then}
use multi_stage_agentic_sast.Prelude.Dict.{set_item, Dict}
use multi_stage_agentic_sast.Prelude.Datetime.{aware}
use multi_stage_agentic_sast.Findings.{ScanReport, CandidateFinding}
use multi_stage_agentic_sast.Remediation.Service.{
  Surroundings, project_for_finding, require_approved_approval, located, RemediationError, World,
  Project, check, no_fix, no_proposal, Outcome, or_fail, patch_failed, store_result,
  already_applied, not_confirmed, not_applied, no_record, unreadable,
}

-- A proposal that is ready to be applied: its record, the path and the text there.
pub record Ready : Type 0 where
  pub ready_record : RemediationRecord
  pub proposal : RemediationProposal
  pub path : String
  pub text : String

abbrev pub with_proposal :
    RemediationRecord → Result RemediationError (RemediationRecord × RemediationProposal)
with_proposal r = elim r.proposal [ none ↦ err no_proposal | some p ↦ ok (r, p) ]

abbrev pub check_status : RemediationStatus → Result RemediationError Bool
check_status no_fix_available = err no_fix
check_status applied = err already_applied
check_status _ = ok true

abbrev pub check_confirmed : Bool → ApprovalRequest → Result RemediationError Bool
check_confirmed confirmed a = check not_confirmed confirmed

unfoldable pub approved_and_confirmed :
    Surroundings → String → Bool → Bool → Result RemediationError Bool
unfolding and_then require_approved_approval
approved_and_confirmed e finding_id confirmed u =
    and_then (require_approved_approval e finding_id) (check_confirmed confirmed)

-- The guards of apply that follow the proposal's.
unfoldable pub gate :
    Surroundings → String → Bool → RemediationStatus → Result RemediationError Bool
unfolding and_then approved_and_confirmed
gate e finding_id confirmed status =
    and_then (check_status status) (approved_and_confirmed e finding_id confirmed)

abbrev pub ready_at :
    RemediationRecord → RemediationProposal → String × String → Result RemediationError Ready
ready_at r p (path, text) = ok (record { ready_record = r; proposal = p; path = path; text = text })

unfoldable pub ready_gated :
    Surroundings
    → String
    → Dict String
    → RemediationRecord
    → RemediationProposal
    → Bool
    → Result RemediationError Ready
unfolding and_then located
ready_gated e finding_id files r p u = and_then (located e finding_id p.file files) (ready_at r p)

unfoldable pub ready_with :
    Surroundings
    → String
    → Bool
    → Dict String
    → RemediationRecord × RemediationProposal
    → Result RemediationError Ready
unfolding and_then gate ready_gated
ready_with e finding_id confirmed files (r, p) =
    and_then (gate e finding_id confirmed r.status) (ready_gated e finding_id files r p)

unfoldable pub ready_record_for :
    Surroundings → String → Bool → Dict String → RemediationRecord → Result RemediationError Ready
unfolding and_then ready_with
ready_record_for e finding_id confirmed files r =
    and_then (with_proposal r) (ready_with e finding_id confirmed files)

-- All the guards of apply, up to the text of the file.
unfoldable pub ready_for : Surroundings → String → Bool → World → Result RemediationError Ready
unfolding and_then ready_record_for get_record
ready_for e finding_id confirmed w =
    and_then (or_fail no_proposal (get_record finding_id w.store))
      (ready_record_for e finding_id confirmed w.files)

abbrev pub applied_record : ℕ → RemediationRecord → RemediationRecord
applied_record now r = record r {
  status = applied;
  applied_at = some (aware now);
  applied_by = some "security-analyst";
  error_text = none;
}

-- A patch that fails is recorded as an error; one that succeeds is written, then recorded.
abbrev pub finish_apply : Surroundings → Ready → Result PatchError String → World → Outcome × World
finish_apply e r (err p) w = (
  err (patch_failed p),
  record w {
    store =
        put_record (record r.ready_record { status = error; error_text = some (e.message p) })
          w.store;
  },
)
finish_apply e r (ok patched) w = (
  ok (applied_record e.now r.ready_record),
  record {
    store = put_record (applied_record e.now r.ready_record) w.store;
    files = set_item r.path patched w.files;
  },
)

abbrev pub apply_ready : Surroundings → Result RemediationError Ready → World → Outcome × World
apply_ready e (err x) w = (err x, w)
apply_ready e (ok r) w = finish_apply e r (apply_proposal e.patches r.proposal r.text) w

unfoldable pub apply : Surroundings → String → Bool → World → Outcome × World
unfolding ready_for put_record apply_proposal set_item
apply e finding_id confirmed w = apply_ready e (ready_for e finding_id confirmed w) w

abbrev pub is_verifiable : RemediationStatus → Bool
is_verifiable applied = true
is_verifiable verified = true
is_verifiable still_present = true
is_verifiable _ = false

-- any(f.id == finding_id for f in report.findings)
abbrev pub is_reported : String → ScanReport → Bool
is_reported finding_id report = any (λ (f : CandidateFinding). f.id == finding_id) report.findings

abbrev pub verified_record : ℕ → Bool → RemediationRecord → RemediationRecord
verified_record now true r = record r {
  status = still_present;
  verification = some "still_present";
  verified_at = some (aware now);
  error_text = none;
}
verified_record now false r = record r {
  status = verified;
  verification = some "verified";
  verified_at = some (aware now);
  error_text = none;
}

-- The scan of the project as PREPARE left it.
unfoldable pub rescan : Surroundings → Project → Result RemediationError ScanReport
unfolding scan
rescan e project =
    and_then (or_fail unreadable (e.load_code_model project))
      (λ files. ok (scan e.python e.report_env (default_rules e.python) project.id files))

abbrev pub verified_by : Surroundings → String → RemediationRecord → ScanReport → Outcome
verified_by e finding_id r report = ok (verified_record e.now (is_reported finding_id report) r)

unfoldable pub rescanned : Surroundings → String → RemediationRecord → Project → Outcome
unfolding and_then rescan
rescanned e finding_id r project = and_then (rescan e project) (verified_by e finding_id r)

unfoldable pub owner_rescanned : Surroundings → String → RemediationRecord → Bool → Outcome
unfolding and_then project_for_finding rescanned
owner_rescanned e finding_id r u =
    and_then (project_for_finding e finding_id) (rescanned e finding_id r)

unfoldable pub record_rescanned : Surroundings → String → RemediationRecord → Outcome
unfolding and_then owner_rescanned
record_rescanned e finding_id r =
    and_then (check not_applied (is_verifiable r.status)) (owner_rescanned e finding_id r)

-- What verify stores.
unfoldable pub verification_for : Surroundings → String → World → Outcome
unfolding and_then record_rescanned get_record
verification_for e finding_id w =
    and_then (or_fail no_record (get_record finding_id w.store)) (record_rescanned e finding_id)

unfoldable pub verify : Surroundings → String → World → Outcome × World
unfolding verification_for put_record
verify e finding_id w = store_result (verification_for e finding_id w) w
