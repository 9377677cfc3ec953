-- ===== src/Approval/Samples.antt =====
-- One finding through the approval workflow: the inputs of the examples below.
use multi_stage_agentic_sast.Prelude.{none, String, true, refl, some, ◌⊎◌, ◌≡◌}
use multi_stage_agentic_sast.Approval.Transitions.{
  transition_succeeds, transition_all_or_nothing, IsMoved, latest_request_hides_decision,
}
use multi_stage_agentic_sast.Approval.Decisions.{
  request_error_unchanged, decisions_stand, action_needs_approval, request_needs_gates,
  request_approval_idempotent,
}
use multi_stage_agentic_sast.Approval.Store.{
  find_for_finding, find_active, get_request, ApprovalStore,
}
use multi_stage_agentic_sast.Prelude.Exec.{ok, err, ◌>>=◌}
use multi_stage_agentic_sast.Approval.Service.{
  Gates, new_request, check_eligibility, ApprovalError, request_approval, new_event, get_history,
  naive_datetime, ensure_aware_utc, allowed_transition, is_action_allowed, commit, Env,
}
use multi_stage_agentic_sast.Approval.Moves.{
  reject, approve, updated_request, transition_event, transition,
}
use multi_stage_agentic_sast.Approval.Models.{
  pending, action_name, approved, default_policy, remediation, rejected, other, ApprovalRequest,
}
use multi_stage_agentic_sast.Prelude.Dict.{values, get, contains, set_item}
use multi_stage_agentic_sast.Approval.Steps.{move, request, here, Reach, next, call, Calls}
use multi_stage_agentic_sast.Approval.Audit.{
  trail_determines_state, Cursor, empty_store, replay, cursor_of,
}
use multi_stage_agentic_sast.Verdicts.{verified, true_positive}
use multi_stage_agentic_sast.Prelude.Datetime.{as_aware_utc, naive, aware, Datetime}
use multi_stage_agentic_sast.Approval.Exclusive.{one_active_request}
use multi_stage_agentic_sast.Approval.Outcomes.{Passes}

abbrev env : Env
env = record {
  sha256_hex = λ s. s;
  isoformat = λ d. "t";
  utcnow = 5;
  request_uuid = "r1";
  event_uuid = "e1";
}

-- A second request gets another random token, at a later time.
abbrev env2 : Env
env2 = record env { request_uuid = "r2"; utcnow = 6 }

abbrev open_gates : Gates
open_gates = record { verdict_of = λ f. some true_positive; proof_of = λ f. some verified }

abbrev opened : ApprovalStore
opened =
    (request_approval default_policy open_gates env "f" remediation "ann" none none
      (empty_store true)).1

abbrev first_id : String
first_id = "f|remediation|tr1"

abbrev decided : ApprovalStore
decided = (approve env first_id "mia" none none opened).1

-- A request for the other action, and the approval of the first after it.
abbrev both : ApprovalStore
both = (request_approval default_policy open_gates env2 "f" other "ann" none none opened).1

abbrev hidden : ApprovalStore
hidden = (approve env first_id "mia" none none both).1

abbrev first_request : ApprovalRequest
first_request = record {
  id = first_id;
  finding_id = "f";
  status = pending;
  requested_at = aware 5;
  requested_by = "ann";
  reviewed_at = none;
  reviewed_by = none;
  reason = none;
  action = remediation;
  version = 1;
  scan_run_id = none;
}

abbrev decided_request : ApprovalRequest
decided_request = record first_request {
  status = approved;
  reviewed_at = some (aware 5);
  reviewed_by = some "mia";
}

abbrev other_request : ApprovalRequest
other_request = record first_request { id = "f|other|tr2"; requested_at = aware 6; action = other }

opened_reached : Reach (empty_store true) opened
unfolding get
opened_reached =
    next here
      (call (request default_policy open_gates env "f" remediation "ann" none none (λ now. refl)))

decided_reached : Reach (empty_store true) decided
decided_reached = next opened_reached (call (move env first_id approved "mia" none none))

opened_has : get_request first_id opened ≡ some first_request
unfolding get_request get set_item request_approval find_active find_for_finding check_eligibility
    ensure_aware_utc new_request new_event commit ◌>>=◌
opened_has = refl

decided_has : get_request first_id decided ≡ some decided_request
unfolding get_request get set_item request_approval find_active find_for_finding check_eligibility
    ensure_aware_utc new_request new_event commit ◌>>=◌ transition allowed_transition
    updated_request transition_event
decided_has = refl

opened_ok :
    (request_approval default_policy open_gates env "f" remediation "ann" none none
      (empty_store true)).0
    ≡ ok first_request
unfolding get_request get set_item request_approval find_active find_for_finding check_eligibility
    ensure_aware_utc new_request new_event commit ◌>>=◌
opened_ok = refl

trail_determines_state_example :
    replay (get_history first_id decided) ≡ cursor_of (get_request first_id decided)
trail_determines_state_example = trail_determines_state true decided first_id decided_reached

one_active_request_example : ◌≡◌ {A = String} first_id first_id
one_active_request_example =
    one_active_request true opened first_id first_id first_request first_request opened_reached
      opened_has opened_has (record { left = refl; right = refl; finding = refl; action = refl })

request_needs_gates_example : Passes default_policy open_gates "f"
unfolding find_active values
request_needs_gates_example =
    request_needs_gates default_policy open_gates env "f" remediation "ann" none none
      (empty_store true) first_request refl opened_ok

request_error_unchanged_example :
    (request_approval default_policy open_gates env "f" remediation "ann"
      (some (naive 3))
      none
      (empty_store true)).1
    ≡ empty_store true
unfolding request_approval find_active find_for_finding values check_eligibility ensure_aware_utc
    ◌>>=◌
request_error_unchanged_example =
    request_error_unchanged default_policy open_gates env "f" remediation "ann" (some (naive 3))
      none (empty_store true) (naive_datetime "requested_at") refl

request_approval_idempotent_example :
    request_approval default_policy open_gates env2 "f" remediation "bob" none none opened
    ≡ (ok first_request, opened)
unfolding get
request_approval_idempotent_example =
    request_approval_idempotent default_policy default_policy open_gates open_gates env env2 "f"
      remediation "ann" "bob" none none none none (empty_store true) first_request (λ now. refl)
      opened_ok

decisions_stand_example :
    get_request first_id (reject env2 first_id "eve" none none decided).1 ≡ some decided_request
decisions_stand_example =
    decisions_stand true decided (reject env2 first_id "eve" none none decided).1 first_id
      decided_request decided_reached decided_has refl
      (Calls.next Calls.here (move env2 first_id rejected "eve" none none))

action_needs_approval_example :
    (r : ApprovalRequest) × (get_request first_id decided ≡ some r)
    × (contains (action_name r.action) default_policy.allowed_actions ≡ true)
    × (replay (get_history first_id decided) ≡ Cursor.at approved r.version)
unfolding is_action_allowed contains get_request get set_item request_approval find_active
    find_for_finding check_eligibility ensure_aware_utc new_request new_event commit ◌>>=◌
    transition allowed_transition updated_request transition_event
action_needs_approval_example =
    action_needs_approval default_policy true decided first_id decided_reached refl

transition_all_or_nothing_example :
    ((e : ApprovalError) × (transition env first_id approved "mia" none none opened
        ≡ (err e, opened)))
    ⊎ ((o r : ApprovalRequest) × ((transition env first_id approved "mia" none none opened).0
          ≡ ok r)
        × IsMoved first_id o approved "mia" opened
            (transition env first_id approved "mia" none none opened).1
            r)
transition_all_or_nothing_example =
    transition_all_or_nothing true env first_id approved "mia" none none opened opened_reached

transition_succeeds_example :
    (r : ApprovalRequest) × ((transition env first_id approved "mia" none none opened).0 ≡ ok r)
    × IsMoved first_id first_request approved "mia" opened
        (transition env first_id approved "mia" none none opened).1
        r
unfolding allowed_transition
transition_succeeds_example =
    transition_succeeds true env first_id approved "mia" none none opened first_request
      opened_reached opened_has refl refl

latest_request_hides_decision_example :
    (now : Datetime) × ((request_approval default_policy open_gates env "f" remediation "bob" none
        none hidden).0
      ≡ ok (new_request env now "f" remediation "bob" none))
unfolding get_request get set_item request_approval find_active find_for_finding values
    check_eligibility ensure_aware_utc new_request new_event commit ◌>>=◌ transition
    allowed_transition updated_request transition_event as_aware_utc
latest_request_hides_decision_example =
    latest_request_hides_decision default_policy open_gates env "f" remediation "bob" first_id none
      none hidden decided_request other_request refl refl refl refl refl refl refl refl refl refl
      refl
