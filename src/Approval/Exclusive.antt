-- ===== src/Approval/Exclusive.antt =====
-- At most one active request for each finding and action, whatever calls are made.
use multi_stage_agentic_sast.Prelude.{
  String, ◌≡◌, refl, inl, inr, Bool, true, Option, none, some, arith, ◌==◌, ◌&&◌, eq_iff,
}
use multi_stage_agentic_sast.Prelude.Dict.{get, values, find_first-none}
use multi_stage_agentic_sast.Prelude.Datetime.{Datetime}
use multi_stage_agentic_sast.Approval.Models.{
  ApprovalStatus, ApprovalAction, remediation, other, ApprovalRequest, ApprovalEvent,
}
use multi_stage_agentic_sast.Approval.Store.{
  ApprovalStore, get_request, find_active, same_action, clear,
}
use multi_stage_agentic_sast.Approval.Service.{
  Env, is_active, allowed_transition, new_request, new_event, commit,
}
use multi_stage_agentic_sast.Approval.Moves.{updated_request, transition_event}
use multi_stage_agentic_sast.Approval.Outcomes.{transition_cases, request_approval_cases}
use multi_stage_agentic_sast.Approval.Audit.{
  IsAudited, Reach-IsAudited, empty_store, empty-IsAudited, found_self,
}
use multi_stage_agentic_sast.Approval.Commit.{get-commit, get-remove_finding}
use multi_stage_agentic_sast.Approval.Steps.{
  Call, request, move, Step, call, remove, reset, Reach, here, next,
}
use Prim.Native.String.{String}

pub same_action_refl : (a : ApprovalAction) → same_action a a ≡ true
same_action_refl remediation = refl
same_action_refl other = refl

-- find_active has looked at every request.
pub find_active-none :
    (f : String) (a : ApprovalAction) (s : ApprovalStore) (id : String) (r : ApprovalRequest)
    → find_active f a is_active s ≡ none
    → get id s.requests ≡ some r
    → is_active r.status ≡ true
    → r.finding_id ≡ f
    → r.action ≡ a
    → ⊥
unfolding find_active values
find_active-none f a s id r n g act ef ea = ground (
  arith,
  find_first-none
      (λ (q : ApprovalRequest). q.finding_id == f && same_action q.action a && is_active q.status)
      id s.requests r n g,
  eq_iff r.finding_id f,
  same_action_refl a,
)

pub record AreExclusive (r q : ApprovalRequest) : Type 0 where
  pub left : is_active r.status ≡ true
  pub right : is_active q.status ≡ true
  pub finding : r.finding_id ≡ q.finding_id
  pub action : r.action ≡ q.action

abbrev pub IsExclusive : ApprovalStore → Type 0
IsExclusive s =
    (i j : String) (r q : ApprovalRequest)
    → get i s.requests ≡ some r
    → get j s.requests ≡ some q
    → AreExclusive r q
    → i ≡ j

created-IsExclusive :
    (e : ApprovalEvent) (n : ApprovalRequest) (s : ApprovalStore)
    → find_active n.finding_id n.action is_active s ≡ none
    → IsExclusive s
    → IsExclusive (commit n e s).1
created-IsExclusive e n s none' h i j r q p p' x = ground (
  arith,
  get-commit n e s i,
  get-commit n e s j,
  eq_iff n.id i,
  eq_iff n.id j,
  h i j r q,
  find_active-none n.finding_id n.action s i r none',
  find_active-none n.finding_id n.action s j q none',
  x,
)

active_before :
    (from to : ApprovalStatus) → allowed_transition from to ≡ true → is_active from ≡ true
unfolding allowed_transition
active_before from to h = ground arith

updated-IsExclusive :
    (env : Env) (o : ApprovalRequest) (to : ApprovalStatus) (actor : String)
    (reason : Option String) (now : Datetime) (s : ApprovalStore)
    → get o.id s.requests ≡ some o
    → allowed_transition o.status to ≡ true
    → IsExclusive s
    → IsExclusive
        (commit
          (updated_request o to actor reason now)
          (transition_event env o to actor reason now)
          s).1
unfolding updated_request
updated-IsExclusive env o to actor reason now s found allowed h i j r q p p' x =
    let n = updated_request o to actor reason now in
    let e = transition_event env o to actor reason now in
    ground (
      arith,
      get-commit n e s i,
      get-commit n e s j,
      eq_iff o.id i,
      eq_iff o.id j,
      h i j r q,
      h i j o q,
      h i j r o,
      active_before o.status to allowed,
      x,
    )

Call-IsExclusive : {s t : ApprovalStore} → Call s t → IsAudited s → IsExclusive s → IsExclusive t
unfolding get_request new_request
Call-IsExclusive {s} (request p g env f a by at' run fresh) u h =
    elim (request_approval_cases p g env f a by at' run s) [
      | inl (e, same) ↦ rw same h
      | inr (inl (r, active, same)) ↦ rw same h
      | inr (inr (now, c)) ↦ rw c.committed (
          created-IsExclusive (new_event env now (new_request env now f a by run) by)
            (new_request env now f a by run) s c.none_active h)
    ]
Call-IsExclusive {s} (move env id to actor reason at') u h =
    elim (transition_cases env id to actor reason at' s) [
      | inl (e, same) ↦ rw same h
      | inr (r, now, m) ↦
          rw m.committed (
            updated-IsExclusive env r to actor reason now s (found_self id r u m.found) m.allowed h)
    ]

Step-IsExclusive : {s t : ApprovalStore} → Step s t → IsAudited s → IsExclusive s → IsExclusive t
unfolding clear get
Step-IsExclusive (call c) u h i j r q p p' x = Call-IsExclusive c u h i j r q p p' x
Step-IsExclusive {s} (remove f) u h i j r q p p' x =
    ground (arith, get-remove_finding f s i, get-remove_finding f s j, h i j r q, x)
Step-IsExclusive reset u h i j r q p p' x = cc

Reach-IsExclusive : {s t : ApprovalStore} → IsAudited s → IsExclusive s → Reach s t → IsExclusive t
Reach-IsExclusive u h here = h
Reach-IsExclusive u h (next r st) =
    Step-IsExclusive st (Reach-IsAudited u r) (Reach-IsExclusive u h r)

-- In every store that calls of the service and deletions reach, two active requests for one
-- finding and one action are one request.
pub one_active_request :
    (factory : Bool) (s : ApprovalStore) (i j : String) (r q : ApprovalRequest)
    → Reach (empty_store factory) s
    → get_request i s ≡ some r
    → get_request j s ≡ some q
    → AreExclusive r q
    → i ≡ j
unfolding get_request get
one_active_request factory s i j r q reach =
    Reach-IsExclusive (empty-IsAudited factory) (λ i' j' r' q' p p' x. cc) reach i j r q
