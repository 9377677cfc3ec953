-- ===== src/Approval/Audit.antt =====
-- The audit trail of a request determines its state: replaying the events through the state
-- machine gives the status and the version that the store holds.
use mathlib.Core.List.{foldl, foldl-append}
use multi_stage_agentic_sast.Prelude.{
  ℕ, String, ◌≡◌, refl, inl, inr, Bool, true, false, Option, none, some, List, [], ◌∷◌, ◌++◌, arith,
  eq_iff, if◌then◌else◌,
}
use multi_stage_agentic_sast.Prelude.Dict.{get}
use multi_stage_agentic_sast.Prelude.Datetime.{Datetime}
use multi_stage_agentic_sast.Approval.Models.{
  ApprovalStatus, pending, approved, rejected, changes_requested, ApprovalAction, ApprovalRequest,
  ApprovalEvent,
}
use multi_stage_agentic_sast.Approval.Store.{ApprovalStore, get_request, events_for, clear}
use multi_stage_agentic_sast.Approval.Service.{
  get_history, Env, allowed_transition, new_request, new_event, commit,
}
use multi_stage_agentic_sast.Approval.Moves.{next_version, updated_request, transition_event}
use multi_stage_agentic_sast.Approval.Outcomes.{transition_cases, request_approval_cases}
use multi_stage_agentic_sast.Approval.Commit.{
  get-remove_finding, events_for-remove_finding, get-commit, events_for-commit,
}
use multi_stage_agentic_sast.Approval.Steps.{
  Call, request, move, Step, call, remove, reset, Reach, here, next,
}
use Prim.Native.String.{String}

-- Where a replay stands: before the first event, in a state, or off the state machine.
pub data Cursor : Type 0 where
  start broken : Cursor
  at : ApprovalStatus → ℕ → Cursor

abbrev same_status : ApprovalStatus → ApprovalStatus → Bool
same_status pending pending = true
same_status approved approved = true
same_status rejected rejected = true
same_status changes_requested changes_requested = true
same_status _ _ = false

abbrev pub first_event : Option ApprovalStatus → ApprovalStatus → Cursor
first_event none pending = at pending 1
first_event _ _ = broken

abbrev pub later_event : ApprovalStatus → ℕ → Option ApprovalStatus → ApprovalStatus → Cursor
later_event s v none new = broken
later_event s v (some old) new =
    if same_status old s
    then (if allowed_transition s new then at new (next_version s new v) else broken)
    else broken

abbrev pub replay_step : Cursor → ApprovalEvent → Cursor
replay_step start e = first_event e.previous_status e.new_status
replay_step broken e = broken
replay_step (at s v) e = later_event s v e.previous_status e.new_status

unfoldable pub replay : List ApprovalEvent → Cursor
replay = foldl replay_step start

replay-snoc :
    (es : List ApprovalEvent) (e : ApprovalEvent)
    → replay (es ++ e ∷ []) ≡ replay_step (replay es) e
unfolding replay
replay-snoc es e = rw foldl-append

pub record IsAudited (s : ApprovalStore) : Type 0 where
  pub keyed : (id : String) (r : ApprovalRequest) → get id s.requests ≡ some r → r.id ≡ id
  pub replayed :
      (id : String) (r : ApprovalRequest)
      → get id s.requests ≡ some r
      → replay (events_for id s) ≡ at r.status r.version
  pub silent : (id : String) → get id s.requests ≡ none → events_for id s ≡ []

commit-IsAudited :
    (r : ApprovalRequest) (e : ApprovalEvent) (s : ApprovalStore)
    → e.approval_id ≡ r.id
    → replay_step (replay (events_for r.id s)) e ≡ at r.status r.version
    → IsAudited s
    → IsAudited (commit r e s).1
commit-IsAudited r e s same step h = record {
  keyed = λ id q p. ground (arith, get-commit r e s id, eq_iff r.id id, h.keyed id q);
  replayed = λ id q p. ground (
    arith,
    get-commit r e s id,
    events_for-commit r e s id,
    eq_iff r.id id,
    replay-snoc (events_for id s) e,
    h.replayed id q,
  );
  silent = λ id p.
      ground (arith, get-commit r e s id, events_for-commit r e s id, eq_iff r.id id, h.silent id);
}

-- A request that a lookup returns stands under its own id.
pub found_self :
    {s : ApprovalStore} (id : String) (r : ApprovalRequest)
    → IsAudited s
    → get_request id s ≡ some r
    → get r.id s.requests ≡ some r
unfolding get_request
found_self id r h found = cc (h.keyed id r found, found)

later_event_allowed :
    (s : ApprovalStatus) (v : ℕ) (to : ApprovalStatus)
    → allowed_transition s to ≡ true
    → later_event s v (some s) to ≡ at to (next_version s to v)
later_event_allowed pending v to h = rw h
later_event_allowed approved v to h = rw h
later_event_allowed rejected v to h = rw h
later_event_allowed changes_requested v to h = rw h

updated-IsAudited :
    (env : Env) (r : ApprovalRequest) (to : ApprovalStatus) (actor : String)
    (reason : Option String) (now : Datetime) (s : ApprovalStore)
    → get r.id s.requests ≡ some r
    → allowed_transition r.status to ≡ true
    → IsAudited s
    → IsAudited
        (commit
          (updated_request r to actor reason now)
          (transition_event env r to actor reason now)
          s).1
unfolding updated_request transition_event
updated-IsAudited env r to actor reason now s found allowed h =
    commit-IsAudited _ _ s refl
      (rw (h.replayed r.id r found) (later_event_allowed r.status r.version to allowed)) h

created-IsAudited :
    (env : Env) (now : Datetime) (f : String) (a : ApprovalAction) (by : String)
    (run : Option String) (s : ApprovalStore)
    → get (new_request env now f a by run).id s.requests ≡ none
    → IsAudited s
    → IsAudited (let r = new_request env now f a by run in commit r (new_event env now r by) s).1
unfolding new_request new_event replay
created-IsAudited env now f a by run s fresh h =
    commit-IsAudited _ _ s refl (rw (h.silent (new_request env now f a by run).id fresh) refl) h

Call-IsAudited : {s t : ApprovalStore} → Call s t → IsAudited s → IsAudited t
unfolding get_request
Call-IsAudited {s} (request p g env f a by at' run fresh) h =
    elim (request_approval_cases p g env f a by at' run s) [
      | inl (e, same) ↦ rw same h
      | inr (inl (r, active, same)) ↦ rw same h
      | inr (inr (now, c)) ↦ rw c.committed (created-IsAudited env now f a by run s (fresh now) h)
    ]
Call-IsAudited {s} (move env id to actor reason at') h =
    elim (transition_cases env id to actor reason at' s) [
      | inl (e, same) ↦ rw same h
      | inr (r, now, m) ↦
          rw m.committed
            (updated-IsAudited env r to actor reason now s (found_self id r h m.found) m.allowed h)
    ]

pub Step-IsAudited : {s t : ApprovalStore} → Step s t → IsAudited s → IsAudited t
unfolding clear get events_for
Step-IsAudited (call c) h = Call-IsAudited c h
Step-IsAudited {s} (remove f) h = record {
  keyed = λ id r p. ground (arith, get-remove_finding f s id, h.keyed id r);
  replayed = λ id r p.
      ground (arith, get-remove_finding f s id, events_for-remove_finding f s id, h.replayed id r);
  silent = λ id p.
      ground (arith, get-remove_finding f s id, events_for-remove_finding f s id, h.silent id);
}
Step-IsAudited reset h = record {
  keyed = λ id r p. cc;
  replayed = λ id r p. cc;
  silent = λ id p. refl;
}

pub Reach-IsAudited : {s t : ApprovalStore} → IsAudited s → Reach s t → IsAudited t
Reach-IsAudited h here = h
Reach-IsAudited h (next r st) = Step-IsAudited st (Reach-IsAudited h r)

-- ApprovalStore(), with or without a database.
abbrev pub empty_store : Bool → ApprovalStore
empty_store factory = record { requests = []; events = []; factory = factory; writes = [] }

pub empty-IsAudited : (factory : Bool) → IsAudited (empty_store factory)
unfolding get events_for
empty-IsAudited factory = record {
  keyed = λ id r p. cc;
  replayed = λ id r p. cc;
  silent = λ id p. refl;
}

-- Where the audit trail of a request that is stored in this state, or not at all, must end.
abbrev pub cursor_of : Option ApprovalRequest → Cursor
cursor_of none = start
cursor_of (some r) = at r.status r.version

cursor_of-replay :
    (s : ApprovalStore) (id : String) (o : Option ApprovalRequest)
    → IsAudited s
    → get_request id s ≡ o
    → replay (get_history id s) ≡ cursor_of o
unfolding replay get_request
cursor_of-replay s id none h found = rw (h.silent id found) refl
cursor_of-replay s id (some r) h found = h.replayed id r found

-- In every store that calls of the service and deletions reach, the replay of the audit trail of a
-- request, from no state, ends in the status and the version of the stored request, and in no state
-- where no such request is stored.
pub trail_determines_state :
    (factory : Bool) (s : ApprovalStore) (id : String)
    → Reach (empty_store factory) s
    → replay (get_history id s) ≡ cursor_of (get_request id s)
trail_determines_state factory s id reach =
    cursor_of-replay s id (get_request id s) (Reach-IsAudited (empty-IsAudited factory) reach) refl
