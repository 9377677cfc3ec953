-- ===== src/Approval/Service.antt =====
-- backend/app/approval/service.py, but its transitions. The SHA-256 digest, the ISO format of a
-- datetime, the random part of an id and the clock are inputs; the stores of the other stages are
-- read only.
use Prim.Native.String
use multi_stage_agentic_sast.Prelude.{
  ℕ, String, Bool, true, false, not, ◌&&◌, Option, none, some, List, [], ◌∷◌, if◌then◌else◌,
}
use multi_stage_agentic_sast.Prelude.Exec.{
  Result, ok, err, Exec, pure, raise, lift, gets, ◌>>=◌, ◌>>◌,
}
use multi_stage_agentic_sast.Prelude.Dict.{contains}
use multi_stage_agentic_sast.Prelude.Datetime.{Datetime, naive, aware}
use multi_stage_agentic_sast.Approval.Models.{
  ApprovalStatus, pending, approved, rejected, changes_requested, ApprovalAction, action_name,
  ApprovalRequest, ApprovalEvent, ApprovalPolicy,
}
use multi_stage_agentic_sast.Approval.Store.{
  ApprovalStore, get_request, save, find_for_finding, find_active, record_event, events_for,
}
use multi_stage_agentic_sast.Verdicts.{Verdict, true_positive, ProofStatus, verified}
use multi_stage_agentic_sast.Prelude.Text.{take_chars, join}

-- The raises of the service, one constructor for each, with what its message names.
pub data ApprovalError : Type 0 where
  terminal_exists : String → ApprovalStatus → ApprovalError
  not_validated : String → ApprovalError
  not_true_positive : String → Verdict → ApprovalError
  not_proven : String → ApprovalError
  not_verified_proof : String → ProofStatus → ApprovalError
  unknown_request : String → ApprovalError
  not_allowed : ApprovalStatus → ApprovalStatus → ApprovalError
  naive_datetime : String → ApprovalError

abbrev pub App : Type 0 → Type 0
App A = Exec ApprovalStore ApprovalError A

-- ALLOWED_TRANSITIONS
unfoldable pub allowed_transition : ApprovalStatus → ApprovalStatus → Bool
allowed_transition pending approved = true
allowed_transition pending rejected = true
allowed_transition pending changes_requested = true
allowed_transition changes_requested pending = true
allowed_transition _ _ = false

-- ACTIVE_STATUSES
abbrev pub is_active : ApprovalStatus → Bool
is_active pending = true
is_active changes_requested = true
is_active _ = false

-- TERMINAL_STATUSES
abbrev pub is_terminal : ApprovalStatus → Bool
is_terminal approved = true
is_terminal rejected = true
is_terminal _ = false

-- What a call takes from outside: the digest, the ISO format, the current time, and one random
-- token for each id that the call makes.
pub record Env : Type 0 where
  pub sha256_hex : String → String
  pub isoformat : Datetime → String
  pub utcnow : ℕ
  pub request_uuid : String
  pub event_uuid : String

-- The verdicts that the stores of VALIDATE and PROVE hold.
pub record Gates : Type 0 where
  pub verdict_of : String → Option Verdict
  pub proof_of : String → Option ProofStatus

-- _new_id, its random part an argument
unfoldable pub new_id : (String → String) → String → List String → String
unfolding take_chars join
new_id sha256_hex uuid parts =
    String.◌++◌ (take_chars 32 (sha256_hex (join "|" parts))) (take_chars 32 uuid)

-- _ensure_aware_utc
unfoldable pub ensure_aware_utc : Datetime → String → Result ApprovalError Datetime
ensure_aware_utc (naive t) what = err (naive_datetime what)
ensure_aware_utc (aware t) what = ok (aware t)

abbrev pub or_now : Env → Option Datetime → Datetime
or_now env none = aware env.utcnow
or_now env (some t) = t

-- The first half of _check_eligibility.
abbrev pub check_validation : String → Option Verdict → Result ApprovalError (Unit {0})
check_validation finding_id none = err (not_validated finding_id)
check_validation finding_id (some true_positive) = ok tt
check_validation finding_id (some verdict) = err (not_true_positive finding_id verdict)

abbrev pub check_proof : String → Option ProofStatus → Result ApprovalError (Unit {0})
check_proof finding_id none = err (not_proven finding_id)
check_proof finding_id (some verified) = ok tt
check_proof finding_id (some status) = err (not_verified_proof finding_id status)

-- A gate that the policy may switch off.
abbrev pub gate : Bool → Result ApprovalError (Unit {0}) → App (Unit {0})
gate true r = lift r
gate false r = pure tt

-- _check_eligibility
unfoldable pub check_eligibility : ApprovalPolicy → Gates → String → App (Unit {0})
unfolding ◌>>=◌
check_eligibility policy gates finding_id = do
  gate policy.require_validation (check_validation finding_id (gates.verdict_of finding_id))
  gate policy.require_proof (check_proof finding_id (gates.proof_of finding_id))

-- The test on the finding's latest request.
abbrev pub check_terminal : ApprovalPolicy → String → Option ApprovalRequest → App (Unit {0})
check_terminal policy finding_id none = pure tt
check_terminal policy finding_id (some r) =
    if is_terminal r.status && not policy.allow_re_request_after_terminal
    then raise (terminal_exists finding_id r.status)
    else pure tt

-- `store.save(request)`, then `store.record_event(event)`.
unfoldable pub commit : ApprovalRequest → ApprovalEvent → App ApprovalRequest
unfolding save record_event
commit request event s = (ok request, record_event event (save request s))

-- The request that request_approval builds at the instant `now`.
unfoldable pub new_request :
    Env → Datetime → String → ApprovalAction → String → Option String → ApprovalRequest
unfolding new_id
new_request env now finding_id action requested_by scan_run_id = record {
  id =
      new_id env.sha256_hex env.request_uuid
        (finding_id ∷ action_name action ∷ env.isoformat now ∷ []);
  finding_id = finding_id;
  status = pending;
  requested_at = now;
  requested_by = requested_by;
  reviewed_at = none;
  reviewed_by = none;
  reason = none;
  action = action;
  version = 1;
  scan_run_id = scan_run_id;
}

unfoldable pub new_event : Env → Datetime → ApprovalRequest → String → ApprovalEvent
unfolding new_id
new_event env now request requested_by = record {
  id = new_id env.sha256_hex env.event_uuid (request.id ∷ "pending" ∷ env.isoformat now ∷ []);
  approval_id = request.id;
  finding_id = request.finding_id;
  previous_status = none;
  new_status = pending;
  actor = requested_by;
  reason = none;
  created_at = now;
}

-- request_approval after the lookup of an active request.
abbrev pub create :
    ApprovalPolicy
    → Gates
    → Env
    → String
    → ApprovalAction
    → String
    → Option Datetime
    → Option String
    → App ApprovalRequest
create policy gates env finding_id action requested_by requested_at scan_run_id = do
  terminal ← gets (find_for_finding finding_id)
  check_terminal policy finding_id terminal
  check_eligibility policy gates finding_id
  now ← lift (ensure_aware_utc (or_now env requested_at) "requested_at")
  let request = new_request env now finding_id action requested_by scan_run_id
  commit request (new_event env now request requested_by)

abbrev pub reuse_or : Option ApprovalRequest → App ApprovalRequest → App ApprovalRequest
reuse_or none make = make
reuse_or (some existing) make = pure existing

unfoldable pub request_approval :
    ApprovalPolicy
    → Gates
    → Env
    → String
    → ApprovalAction
    → String
    → Option Datetime
    → Option String
    → App ApprovalRequest
unfolding ◌>>=◌
request_approval policy gates env finding_id action requested_by requested_at scan_run_id = do
  existing ← gets (find_active finding_id action is_active)
  reuse_or existing
      (create policy gates env finding_id action requested_by requested_at scan_run_id)

abbrev pub get_history : String → ApprovalStore → List ApprovalEvent
get_history approval_id s = events_for approval_id s

abbrev pub is_approved : ApprovalStatus → Bool
is_approved approved = true
is_approved _ = false

abbrev pub is_pending : ApprovalStatus → Bool
is_pending pending = true
is_pending _ = false

unfoldable pub is_action_allowed : ApprovalPolicy → String → ApprovalStore → Bool
unfolding contains
is_action_allowed policy approval_id s = elim (get_request approval_id s) [
  | none ↦ false
  | some request ↦
      is_approved request.status && contains (action_name request.action) policy.allowed_actions
]
