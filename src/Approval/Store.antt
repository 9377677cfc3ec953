-- ===== src/Approval/Store.antt =====
-- backend/app/approval/store.py. What a method sends to the database is the list `writes`, in
-- order; `factory` says whether a session factory is configured, and without one nothing is sent.
use multi_stage_agentic_sast.Prelude.{
  String, Bool, true, false, ◌&&◌, Option, none, some, List, [], ◌∷◌, ◌++◌, map, ltb, ◌==◌,
  if◌then◌else◌, select, find_first, send, or_empty,
}
use multi_stage_agentic_sast.Prelude.Dict.{pop_all, Dict, get, set_item, values}
use multi_stage_agentic_sast.Prelude.Datetime.{as_aware_utc, instant}
use multi_stage_agentic_sast.Approval.Models.{
  ApprovalStatus, ApprovalAction, remediation, other, ApprovalRequest, ApprovalEvent,
}

-- The row operations on `approval_requests` and `approval_events`.
pub data Write : Type 0 where
  upsert_request : String → ApprovalRequest → Write
  insert_event : ApprovalEvent → Write
  delete_requests_of : String → Write
  delete_events_in : List String → Write
  delete_all_events : Write
  delete_all_requests : Write

pub record ApprovalStore : Type 0 where
  pub requests : Dict ApprovalRequest
  pub events : Dict (List ApprovalEvent)
  pub factory : Bool
  pub writes : List Write

unfoldable pub get_request : String → ApprovalStore → Option ApprovalRequest
get_request approval_id s = get approval_id s.requests

unfoldable pub save : ApprovalRequest → ApprovalStore → ApprovalStore
save request s = record s {
  requests = set_item request.id request s.requests;
  writes = send s.factory (upsert_request request.id request ∷ []) s.writes;
}

-- `max` with a key: the first of the latest.
unfoldable pub latest : ApprovalRequest → List ApprovalRequest → ApprovalRequest
latest best [] = best
latest best (r ∷ rs) =
    latest
      (if ltb (instant (as_aware_utc best.requested_at)) (instant (as_aware_utc r.requested_at))
        then r
        else best)
      rs

abbrev pub max_by_requested_at : List ApprovalRequest → Option ApprovalRequest
max_by_requested_at [] = none
max_by_requested_at (r ∷ rs) = some (latest r rs)

unfoldable pub find_for_finding : String → ApprovalStore → Option ApprovalRequest
unfolding latest values
find_for_finding finding_id s =
    max_by_requested_at (select (λ r. r.finding_id == finding_id) (values s.requests))

abbrev pub same_action : ApprovalAction → ApprovalAction → Bool
same_action remediation remediation = true
same_action other other = true
same_action _ _ = false

unfoldable pub find_active :
    String → ApprovalAction → (ApprovalStatus → Bool) → ApprovalStore → Option ApprovalRequest
unfolding values
find_active finding_id action statuses s =
    find_first (λ r. r.finding_id == finding_id && same_action r.action action && statuses r.status)
      (values s.requests)

unfoldable pub record_event : ApprovalEvent → ApprovalStore → ApprovalStore
record_event event s = record s {
  events =
      set_item event.approval_id (or_empty (get event.approval_id s.events) ++ event ∷ []) s.events;
  writes = send s.factory (insert_event event ∷ []) s.writes;
}

unfoldable pub events_for : String → ApprovalStore → List ApprovalEvent
events_for approval_id s = or_empty (get approval_id s.events)

abbrev pub deletions : String → List String → List Write
deletions finding_id [] = delete_requests_of finding_id ∷ []
deletions finding_id (k ∷ ks) = delete_requests_of finding_id ∷ delete_events_in (k ∷ ks) ∷ []

unfoldable pub remove_finding : String → ApprovalStore → ApprovalStore
unfolding pop_all values
remove_finding finding_id s =
    let request_ids =
      map (λ (r : ApprovalRequest). r.id)
        (select (λ (r : ApprovalRequest). r.finding_id == finding_id) (values s.requests)) in
    record s {
      requests = pop_all request_ids s.requests;
      events = pop_all request_ids s.events;
      writes = send s.factory (deletions finding_id request_ids) s.writes;
    }

unfoldable pub all_requests : ApprovalStore → List ApprovalRequest
unfolding values
all_requests s = values s.requests

unfoldable pub concat_all {ℓ} : {A : Type ℓ} → List (List A) → List A
concat_all [] = []
concat_all (l ∷ ls) = l ++ concat_all ls

unfoldable pub all_events : ApprovalStore → List ApprovalEvent
unfolding concat_all values
all_events s = concat_all (values s.events)

unfoldable pub clear : ApprovalStore → ApprovalStore
clear s = record s {
  requests = [];
  events = [];
  writes = send s.factory (delete_all_events ∷ delete_all_requests ∷ []) s.writes;
}
