-- ===== src/Approval/Commit.antt =====
-- What `commit` leaves in the two tables, and the laws of the updated request.
use multi_stage_agentic_sast.Prelude.Dict.{contains, values, get-pop_all, get, get-set_item}
use multi_stage_agentic_sast.Approval.Store.{
  remove_finding, ApprovalStore, save, record_event, events_for,
}
use multi_stage_agentic_sast.Prelude.{
  List, none, map, select, String, if◌then◌else◌, [], ◌∷◌, ◌++◌, arith, ◌==◌, eq_iff, ◌≡◌, some,
  or_empty,
}
use multi_stage_agentic_sast.Approval.Models.{ApprovalRequest, ApprovalEvent}
use multi_stage_agentic_sast.Approval.Service.{commit}

module _ (r : ApprovalRequest) (e : ApprovalEvent) (s : ApprovalStore) where
  pub get-commit :
      (j : String)
      → get j (commit r e s).1.requests ≡ (if r.id == j then some r else get j s.requests)
  unfolding commit save record_event
  get-commit j = get-set_item r.id j r s.requests

  pub events_for-commit :
      (j : String)
      → events_for j (commit r e s).1
        ≡ (if e.approval_id == j then events_for j s ++ e ∷ [] else events_for j s)
  unfolding commit save record_event events_for
  events_for-commit j = ground (
    arith,
    eq_iff e.approval_id j,
    get-set_item e.approval_id j (or_empty (get e.approval_id s.events) ++ e ∷ []) s.events,
  )

-- The ids that remove_finding collects.
abbrev pub ids_of : String → ApprovalStore → List String
unfolding values
ids_of finding_id s =
    map (λ (r : ApprovalRequest). r.id)
      (select (λ (r : ApprovalRequest). r.finding_id == finding_id) (values s.requests))

module _ (f : String) (s : ApprovalStore) (j : String) where
  pub get-remove_finding :
      get j (remove_finding f s).requests
      ≡ (if contains j (ids_of f s) then none else get j s.requests)
  unfolding remove_finding values
  get-remove_finding = get-pop_all (ids_of f s) j s.requests

  pub events_for-remove_finding :
      events_for j (remove_finding f s) ≡ (if contains j (ids_of f s) then [] else events_for j s)
  unfolding remove_finding events_for values
  events_for-remove_finding = ground (arith, get-pop_all (ids_of f s) j s.events)
