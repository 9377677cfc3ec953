-- ===== src/Approval/Moves.antt =====
-- The transitions of backend/app/approval/service.py: _transition and the methods that call it.
use multi_stage_agentic_sast.Prelude.Exec.{gets, lift, raise, pure, ◌>>=◌, ◌>>◌}
use multi_stage_agentic_sast.Approval.Service.{
  App, Env, or_now, ensure_aware_utc, allowed_transition, commit, unknown_request, not_allowed,
  new_id,
}
use multi_stage_agentic_sast.Approval.Store.{get_request}
use multi_stage_agentic_sast.Approval.Models.{
  pending, approved, rejected, changes_requested, status_name, ApprovalRequest, ApprovalStatus,
  ApprovalEvent,
}
use multi_stage_agentic_sast.Prelude.{[], ℕ, ◌+◌, none, if◌then◌else◌, Option, some, ◌∷◌}
use Prim.Native.String.{String}
use multi_stage_agentic_sast.Prelude.Datetime.{Datetime}

abbrev pub require_request : String → Option ApprovalRequest → App ApprovalRequest
require_request approval_id none = raise (unknown_request approval_id)
require_request approval_id (some r) = pure r

abbrev pub require_transition : ApprovalStatus → ApprovalStatus → App (Unit {0})
require_transition from to =
    if allowed_transition from to then pure tt else raise (not_allowed from to)

-- `changes_requested -> pending` begins a new review cycle.
unfoldable pub next_version : ApprovalStatus → ApprovalStatus → ℕ → ℕ
next_version changes_requested pending version = version + 1
next_version _ _ version = version

unfoldable pub updated_request :
    ApprovalRequest → ApprovalStatus → String → Option String → Datetime → ApprovalRequest
unfolding next_version
updated_request request new_status actor reason now = record request {
  status = new_status;
  reviewed_at = some now;
  reviewed_by = some actor;
  reason = reason;
  version = next_version request.status new_status request.version;
}

unfoldable pub transition_event :
    Env → ApprovalRequest → ApprovalStatus → String → Option String → Datetime → ApprovalEvent
unfolding new_id
transition_event env request new_status actor reason now = record {
  id =
      new_id env.sha256_hex env.event_uuid
        (request.id ∷ status_name new_status ∷ env.isoformat now ∷ actor ∷ []);
  approval_id = request.id;
  finding_id = request.finding_id;
  previous_status = some request.status;
  new_status = new_status;
  actor = actor;
  reason = reason;
  created_at = now;
}

-- _transition
unfoldable pub transition :
    Env → String → ApprovalStatus → String → Option String → Option Datetime → App ApprovalRequest
unfolding ◌>>=◌
transition env approval_id new_status actor reason reviewed_at = do
  found ← gets (get_request approval_id)
  request ← require_request approval_id found
  require_transition request.status new_status
  now ← lift (ensure_aware_utc (or_now env reviewed_at) "reviewed_at")
  let updated = updated_request request new_status actor reason now
  commit updated (transition_event env request new_status actor reason now)

abbrev pub approve : Env → String → String → Option String → Option Datetime → App ApprovalRequest
approve env approval_id = transition env approval_id approved

abbrev pub reject : Env → String → String → Option String → Option Datetime → App ApprovalRequest
reject env approval_id = transition env approval_id rejected

abbrev pub request_changes :
    Env → String → String → Option String → Option Datetime → App ApprovalRequest
request_changes env approval_id = transition env approval_id changes_requested

abbrev pub resubmit : Env → String → String → Option String → Option Datetime → App ApprovalRequest
resubmit env approval_id = transition env approval_id pending
