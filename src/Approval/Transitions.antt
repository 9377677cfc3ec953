-- ===== src/Approval/Transitions.antt =====
-- One move of the state machine, seen in the store and in the audit trail; and what a new request
-- for a finding depends on.
use multi_stage_agentic_sast.Approval.Outcomes.{transition_cases}
use multi_stage_agentic_sast.Prelude.{
  Bool, String, Option, ℕ, ◌++◌, ◌≡◌, refl, inr, arith, false, eq_iff, if◌then◌else◌, ◌==◌, some,
  inl, true, ◌+◌, ◌⊎◌, [], ◌∷◌, Bool-cases, none,
}
use multi_stage_agentic_sast.Approval.Store.{
  get_request, ApprovalStore, find_active, find_for_finding,
}
use multi_stage_agentic_sast.Approval.Service.{
  allowed_transition, Env, is_pending, commit, or_now, ApprovalError, get_history, request_approval,
  new_request, is_terminal, is_active, check_eligibility, ensure_aware_utc, Gates,
}
use multi_stage_agentic_sast.Approval.Moves.{
  updated_request, next_version, transition_event, transition,
}
use multi_stage_agentic_sast.Approval.Models.{
  ApprovalRequest, ApprovalStatus, ApprovalEvent, ApprovalAction, ApprovalPolicy,
}
use multi_stage_agentic_sast.Prelude.Datetime.{Datetime, is_aware, aware, naive}
use multi_stage_agentic_sast.Approval.Steps.{Reach}
use multi_stage_agentic_sast.Approval.Commit.{get-commit, events_for-commit}
use multi_stage_agentic_sast.Approval.Audit.{Reach-IsAudited, empty-IsAudited, empty_store}
use multi_stage_agentic_sast.Approval.Decisions.{ok_commit}
use multi_stage_agentic_sast.Prelude.Exec.{ok, err, ◌>>=◌}
use multi_stage_agentic_sast.Verdicts.{true_positive, verified}

-- What a successful move leaves behind, for the moved request and for all others.
pub record IsMoved (id : String) (from : ApprovalRequest) (to : ApprovalStatus) (actor : String)
    (s t : ApprovalStore) (result : ApprovalRequest) : Type 0 where
  pub was : get_request id s ≡ some from
  pub is : get_request id t ≡ some result
  pub allowed : allowed_transition from.status to ≡ true
  pub status : result.status ≡ to
  pub reviewer : result.reviewed_by ≡ some actor
  pub version : result.version ≡ (if is_pending to then from.version + 1 else from.version)
  pub kept :
      (result.finding_id ≡ from.finding_id)
      × (result.action ≡ from.action)
      × (result.requested_by ≡ from.requested_by)
  pub logged :
      (e : ApprovalEvent) × (get_history id t ≡ get_history id s ++ e ∷ [])
      × (e.previous_status ≡ some from.status)
      × (e.new_status ≡ to)
      × (e.actor ≡ actor)
  pub others :
      (j : String)
      → (id == j) ≡ false
      → (get_request j t ≡ get_request j s) × (get_history j t ≡ get_history j s)

version_lem :
    (from to : ApprovalStatus) (v : ℕ)
    → allowed_transition from to ≡ true
    → next_version from to v ≡ (if is_pending to then v + 1 else v)
unfolding allowed_transition next_version
version_lem from to v h = ground arith

moved :
    (env : Env) (id : String) (o : ApprovalRequest) (to : ApprovalStatus) (actor : String)
    (reason : Option String) (now : Datetime) (s : ApprovalStore)
    → o.id ≡ id
    → get_request id s ≡ some o
    → allowed_transition o.status to ≡ true
    → let n = updated_request o to actor reason now in
      IsMoved id o to actor s (commit n (transition_event env o to actor reason now) s).1 n
unfolding get_request updated_request transition_event
moved env id o to actor reason now s same found allowed =
    let n = updated_request o to actor reason now in
    let e = transition_event env o to actor reason now in
    record {
      was = found;
      is = ground (arith, get-commit n e s id, eq_iff o.id id);
      allowed = allowed;
      status = refl;
      reviewer = refl;
      version = version_lem o.status to o.version allowed;
      kept = (refl, refl, refl);
      logged = (e, ground (arith, events_for-commit n e s id, eq_iff o.id id), refl, refl, refl);
      others = λ j ne. (
        ground (arith, get-commit n e s j, eq_iff o.id id),
        ground (arith, events_for-commit n e s j, eq_iff o.id id),
      );
    }

module _ (factory : Bool) (env : Env) (id : String) (to : ApprovalStatus) (actor : String)
    (reason : Option String) (date : Option Datetime) (s : ApprovalStore) where
  -- A move either fails and leaves the store as it was, or does one allowed transition.
  pub transition_all_or_nothing :
      Reach (empty_store factory) s
      → ((e : ApprovalError) × (transition env id to actor reason date s ≡ (err e, s)))
        ⊎ ((o r : ApprovalRequest) × ((transition env id to actor reason date s).0 ≡ ok r)
            × IsMoved id o to actor s (transition env id to actor reason date s).1 r)
  unfolding get_request
  transition_all_or_nothing reach = elim (transition_cases env id to actor reason date s) [
    | inl failed ↦ inl failed
    | inr (o, now, m) ↦ inr (
      o,
      updated_request o to actor reason now,
      rw m.committed (
          ok_commit (updated_request o to actor reason now)
            (transition_event env o to actor reason now) s),
      rw m.committed (
          moved env id o to actor reason now s
            ((Reach-IsAudited (empty-IsAudited factory) reach).keyed id o m.found) m.found
            m.allowed),
    )
  ]

  succeeds_at :
      (o : ApprovalRequest) (d : Datetime)
      → o.id ≡ id
      → get_request id s ≡ some o
      → allowed_transition o.status to ≡ true
      → or_now env date ≡ d
      → is_aware d ≡ true
      → (r : ApprovalRequest) × ((transition env id to actor reason date s).0 ≡ ok r)
        × IsMoved id o to actor s (transition env id to actor reason date s).1 r
  unfolding transition ◌>>=◌ ensure_aware_utc
  succeeds_at o (naive t) keyed found allowed same dated = absurd (cc dated)
  succeeds_at o (aware t) keyed found allowed same dated =
      let n = updated_request o to actor reason (aware t) in
      (
        n,
        rw (found, allowed, same)
            (ok_commit n (transition_event env o to actor reason (aware t)) s),
        rw (found, allowed, same) (moved env id o to actor reason (aware t) s keyed found allowed),
      )

  -- In a store that calls of the service reach, a move of a stored request succeeds whenever the
  -- transition is allowed and the date is aware: the request is stored with the new status, its
  -- reviewer and its version, one event is logged for it, and no other request is touched.
  pub transition_succeeds :
      (o : ApprovalRequest)
      → Reach (empty_store factory) s
      → get_request id s ≡ some o
      → allowed_transition o.status to ≡ true
      → is_aware (or_now env date) ≡ true
      → (r : ApprovalRequest) × ((transition env id to actor reason date s).0 ≡ ok r)
        × IsMoved id o to actor s (transition env id to actor reason date s).1 r
  unfolding get_request
  transition_succeeds o reach found allowed dated =
      succeeds_at o (or_now env date)
        ((Reach-IsAudited (empty-IsAudited factory) reach).keyed id o found) found allowed refl
        dated

gates_open :
    (policy : ApprovalPolicy) (gates : Gates) (f : String) (s : ApprovalStore)
    → gates.verdict_of f ≡ some true_positive
    → gates.proof_of f ≡ some verified
    → check_eligibility policy gates f s ≡ (ok tt, s)
unfolding check_eligibility ◌>>=◌
gates_open policy gates f s v p = elim (Bool-cases policy.require_validation) [
  | inl a ↦ elim (Bool-cases policy.require_proof) [
    | inl b ↦ rw (a, b, v, p)
    | inr b ↦ rw (a, b, v)
  ]
  | inr a ↦ elim (Bool-cases policy.require_proof) [ inl b ↦ rw (a, b, p) | inr b ↦ rw (a, b) ]
]

active_not_terminal : (st : ApprovalStatus) → is_active st ≡ true → is_terminal st ≡ false
active_not_terminal st h = ground arith

hides_at :
    (policy : ApprovalPolicy) (gates : Gates) (env : Env) (f : String) (a : ApprovalAction)
    (by : String) (date : Option Datetime) (run : Option String) (s : ApprovalStore)
    (newest : ApprovalRequest)
    → find_active f a is_active s ≡ none
    → find_for_finding f s ≡ some newest
    → is_active newest.status ≡ true
    → gates.verdict_of f ≡ some true_positive
    → gates.proof_of f ≡ some verified
    → (d : Datetime) → or_now env date ≡ d
    → is_aware d ≡ true
    → (now : Datetime) × ((request_approval policy gates env f a by date run s).0
        ≡ ok (new_request env now f a by run))
unfolding request_approval ◌>>=◌ ensure_aware_utc commit
hides_at policy gates env f a by date run s newest free newest' active v p (naive t) same dated = cc
hides_at policy gates env f a by date run s newest free newest' active v p (aware t) same dated = (
  aware t,
  rw (
    free,
    newest',
    active_not_terminal newest.status active,
    gates_open policy gates f s v p,
    same,
  ),
)

-- The test for an earlier decision reads the finding's latest request only, whatever its action:
-- with that request active and none active for this action, a new request is accepted although a
-- terminal one for the same finding and action is stored and the policy permits no re-request. The
-- finding is a proven true positive and the date of the request is aware.
pub latest_request_hides_decision :
    (policy : ApprovalPolicy) (gates : Gates) (env : Env) (f : String) (a : ApprovalAction)
    (by id : String) (date : Option Datetime) (run : Option String) (s : ApprovalStore)
    (decided newest : ApprovalRequest)
    → policy.allow_re_request_after_terminal ≡ false
    → get_request id s ≡ some decided
    → decided.finding_id ≡ f
    → decided.action ≡ a
    → is_terminal decided.status ≡ true
    → find_active f a is_active s ≡ none
    → find_for_finding f s ≡ some newest
    → is_active newest.status ≡ true
    → gates.verdict_of f ≡ some true_positive
    → gates.proof_of f ≡ some verified
    → is_aware (or_now env date) ≡ true
    → (now : Datetime) × ((request_approval policy gates env f a by date run s).0
        ≡ ok (new_request env now f a by run))
latest_request_hides_decision policy gates env f a by id date run s decided newest strict found same
      act term free newest' active v p dated =
    hides_at policy gates env f a by date run s newest free newest' active v p (or_now env date)
      refl dated
