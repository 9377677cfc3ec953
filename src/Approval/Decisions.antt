-- ===== src/Approval/Decisions.antt =====
-- What a caller can rely on: gates, idempotence, errors that change nothing, decisions that stand.
use multi_stage_agentic_sast.Approval.Store.{
  same_action, save, record_event, ApprovalStore, get_request, find_active,
}
use multi_stage_agentic_sast.Approval.Exclusive.{same_action_refl}
use multi_stage_agentic_sast.Approval.Service.{
  is_terminal, ApprovalError, Env, Gates, is_active, allowed_transition, new_request, new_event,
  commit, request_approval, is_action_allowed, get_history,
}
use multi_stage_agentic_sast.Approval.Moves.{updated_request, transition_event}
use multi_stage_agentic_sast.Approval.Commit.{get-commit}
use multi_stage_agentic_sast.Approval.Audit.{
  IsAudited, Step-IsAudited, Reach-IsAudited, empty_store, empty-IsAudited, replay, Cursor,
  trail_determines_state, found_self, cursor_of,
}
use multi_stage_agentic_sast.Approval.Steps.{
  Call, request, move, Calls, call, IsFresh, here, next, Reach,
}
use multi_stage_agentic_sast.Prelude.Dict.{find_first-set_item, values, get, contains}
use multi_stage_agentic_sast.Prelude.{
  true, eq_refl, ◌∙◌, ◌&&◌, ◌==◌, eq_iff, arith, inl, inr, String, ◌≡◌, refl, ap, Bool, Option,
  none, some, Option-cases,
}
use multi_stage_agentic_sast.Prelude.Exec.{Result, ok, err}
use multi_stage_agentic_sast.Prelude.Datetime.{Datetime}
use multi_stage_agentic_sast.Approval.Models.{
  ApprovalStatus, approved, ApprovalAction, ApprovalRequest, ApprovalEvent, ApprovalPolicy,
  action_name,
}
use multi_stage_agentic_sast.Approval.Outcomes.{Passes, transition_cases, request_approval_cases}
use Prim.Native.String.{String}

pub ok_commit :
    (r : ApprovalRequest) (e : ApprovalEvent) (s : ApprovalStore) → (commit r e s).0 ≡ ok r
unfolding commit
ok_commit r e s = refl

find_active-commit :
    (e : ApprovalEvent) (n : ApprovalRequest) (s : ApprovalStore)
    → is_active n.status ≡ true
    → find_active n.finding_id n.action is_active s ≡ none
    → get n.id s.requests ≡ none
    → find_active n.finding_id n.action is_active (commit n e s).1 ≡ some n
unfolding commit save record_event find_active values
find_active-commit e n s act free fresh =
    find_first-set_item
      (λ (q : ApprovalRequest).
        q.finding_id == n.finding_id && same_action q.action n.action && is_active q.status)
      n.id s.requests n free fresh (rw (eq_refl, same_action_refl, act))

module _ (policy : ApprovalPolicy) (gates : Gates) (env : Env) (f : String) (a : ApprovalAction)
    (by : String) (dt : Option Datetime) (run : Option String) (s : ApprovalStore) where
  -- Where no active request is reused, success means that the gates of the policy were passed.
  pub request_needs_gates :
      (r : ApprovalRequest)
      → find_active f a is_active s ≡ none
      → (request_approval policy gates env f a by dt run s).0 ≡ ok r
      → Passes policy gates f
  request_needs_gates r free done = elim (request_approval_cases policy gates env f a by dt run s) [
    | inl (e, same) ↦
        absurd
          (cc (ap (λ (p : Result ApprovalError ApprovalRequest × ApprovalStore). p.0) same, done))
    | inr (inl (q, active, same)) ↦ absurd (cc (active, free))
    | inr (inr (now, c)) ↦ c.passes
  ]

  -- A failed request leaves the store as it was.
  pub request_error_unchanged :
      (e : ApprovalError)
      → (request_approval policy gates env f a by dt run s).0 ≡ err e
      → (request_approval policy gates env f a by dt run s).1 ≡ s
  request_error_unchanged e failed =
      elim (request_approval_cases policy gates env f a by dt run s) [
        | inl (x, same) ↦ rw same
        | inr (inl (q, active, same)) ↦ rw same
        | inr (inr (now, c)) ↦ absurd (
            cc (
              c.committed,
              ok_commit (new_request env now f a by run)
                  (new_event env now (new_request env now f a by run) by) s,
              failed,
            ))
      ]

  -- What a successful request returns is what the next lookup of an active request finds.
  pub find_active-request :
      (r : ApprovalRequest)
      → IsFresh env f a by run s
      → (request_approval policy gates env f a by dt run s).0 ≡ ok r
      → find_active f a is_active (request_approval policy gates env f a by dt run s).1 ≡ some r
  unfolding new_request
  find_active-request r fresh done =
      elim (request_approval_cases policy gates env f a by dt run s) [
        | inl (x, same) ↦ absurd (cc (same, done))
        | inr (inl (q, active, same)) ↦ rw same (cc (same, done, active))
        | inr (inr (now, c)) ↦
            let n = new_request env now f a by run in
            let e = new_event env now n by in
            rw c.committed (
              find_active-commit e n s refl c.none_active (fresh now)
              ∙ cc (c.committed, ok_commit n e s, done))
      ]

-- After a successful request, whose new id was not in use, asking again for the same finding and
-- action, with any policy, verdicts, clock, tokens or caller, returns the same request and changes
-- nothing.
pub request_approval_idempotent :
    (policy policy' : ApprovalPolicy) (gates gates' : Gates) (env env' : Env) (f : String)
    (a : ApprovalAction) (by by' : String) (dt dt' : Option Datetime) (run run' : Option String)
    (s : ApprovalStore) (r : ApprovalRequest)
    → IsFresh env f a by run s
    → (request_approval policy gates env f a by dt run s).0 ≡ ok r
    → let t = (request_approval policy gates env f a by dt run s).1 in
      request_approval policy' gates' env' f a by' dt' run' t ≡ (ok r, t)
request_approval_idempotent p p' g g' env env' f a by by' dt dt' run run' s r fresh done =
    let t = (request_approval p g env f a by dt run s).1 in
    unfold request_approval in rw (find_active-request p g env f a by dt run s r fresh done) refl

-- A move of one request leaves every terminal request as it is.
moved_stands :
    (env : Env) (o r : ApprovalRequest) (to : ApprovalStatus) (actor : String)
    (reason : Option String) (now : Datetime) (s : ApprovalStore) (id : String)
    → get o.id s.requests ≡ some o
    → allowed_transition o.status to ≡ true
    → get id s.requests ≡ some r
    → is_terminal r.status ≡ true
    → get id
        (commit
          (updated_request o to actor reason now)
          (transition_event env o to actor reason now)
          s).1.requests
      ≡ some r
unfolding updated_request allowed_transition
moved_stands env o r to actor reason now s id same allowed found term = ground (
  arith,
  get-commit (updated_request o to actor reason now) (transition_event env o to actor reason now) s
      id,
  eq_iff o.id id,
)

-- The decision of a reviewer stands: no call of the service changes an approved or rejected request.
Call-terminal :
    {s t : ApprovalStore} (id : String) (r : ApprovalRequest)
    → IsAudited s
    → Call s t
    → get id s.requests ≡ some r
    → is_terminal r.status ≡ true
    → get id t.requests ≡ some r
Call-terminal {s} id r u (request p g env f a by dt run fresh) found term =
    elim (request_approval_cases p g env f a by dt run s) [
      | inl (e, same) ↦ rw same found
      | inr (inl (q, active, same)) ↦ rw same found
      | inr (inr (now, c)) ↦
          let n = new_request env now f a by run in
          rw c.committed
            (ground (arith, get-commit n (new_event env now n by) s id, eq_iff n.id id, fresh now))
    ]
Call-terminal {s} id r u (move env i to actor reason dt) found term =
    elim (transition_cases env i to actor reason dt s) [
      | inl (e, same) ↦ rw same found
      | inr (o, now, m) ↦ rw m.committed (
          moved_stands env o r to actor reason now s id (found_self i o u m.found) m.allowed found
            term)
    ]

Calls-IsAudited : {s t : ApprovalStore} → IsAudited s → Calls s t → IsAudited t
Calls-IsAudited u here = u
Calls-IsAudited u (next cs c) = Step-IsAudited (call c) (Calls-IsAudited u cs)

Calls-terminal :
    {s t : ApprovalStore} (id : String) (r : ApprovalRequest)
    → IsAudited s
    → Calls s t
    → get id s.requests ≡ some r
    → is_terminal r.status ≡ true
    → get id t.requests ≡ some r
Calls-terminal id r u here found term = found
Calls-terminal id r u (next cs c) found term =
    Call-terminal id r (Calls-IsAudited u cs) c (Calls-terminal id r u cs found term) term

-- A request that was approved or rejected in a store that calls and deletions reached is the same
-- request after any further calls of the service.
pub decisions_stand :
    (factory : Bool) (s t : ApprovalStore) (id : String) (r : ApprovalRequest)
    → Reach (empty_store factory) s
    → get_request id s ≡ some r
    → is_terminal r.status ≡ true
    → Calls s t
    → get_request id t ≡ some r
unfolding get_request
decisions_stand factory s t id r reach found term cs =
    Calls-terminal id r (Reach-IsAudited (empty-IsAudited factory) reach) cs found term

is_action_allowed-inv :
    (policy : ApprovalPolicy) (s : ApprovalStore) (id : String) (r : ApprovalRequest)
    → get_request id s ≡ some r
    → is_action_allowed policy id s ≡ true
    → (r.status ≡ approved) × (contains (action_name r.action) policy.allowed_actions ≡ true)
unfolding is_action_allowed
is_action_allowed-inv policy s id r found allowed = ground arith

-- An action is authorized only by a request whose audit trail replays to an approval, and whose
-- action the policy lists.
pub action_needs_approval :
    (policy : ApprovalPolicy) (factory : Bool) (s : ApprovalStore) (id : String)
    → Reach (empty_store factory) s
    → is_action_allowed policy id s ≡ true
    → (r : ApprovalRequest) × (get_request id s ≡ some r)
      × (contains (action_name r.action) policy.allowed_actions ≡ true)
      × (replay (get_history id s) ≡ Cursor.at approved r.version)
action_needs_approval policy factory s id reach allowed = elim (Option-cases (get_request id s)) [
  | inl missing ↦ absurd (unfold is_action_allowed in ground (arith, missing, allowed))
  | inr (r, found) ↦
      let (is, listed) = is_action_allowed-inv policy s id r found allowed in
      (r, found, listed, rw (← is) (trail_determines_state factory s id reach ∙ ap cursor_of found))
]
