-- ===== src/Approval/Steps.antt =====
-- The life of an approval store: calls of the service and of repository deletion, in any order and
-- by any callers. A call brings its own policy, verdicts, clock and random tokens.
use multi_stage_agentic_sast.Prelude.{String, ◌≡◌, none, Option}
use multi_stage_agentic_sast.Prelude.Dict.{get}
use multi_stage_agentic_sast.Prelude.Datetime.{Datetime}
use multi_stage_agentic_sast.Approval.Models.{ApprovalStatus, ApprovalAction, ApprovalPolicy}
use multi_stage_agentic_sast.Approval.Store.{ApprovalStore, remove_finding, clear}
use multi_stage_agentic_sast.Approval.Service.{Env, Gates, new_request, request_approval}
use multi_stage_agentic_sast.Approval.Moves.{transition}

-- The id that a new request would get is not in use. The id ends in 32 random hex digits.
abbrev pub IsFresh : Env → String → ApprovalAction → String → Option String → ApprovalStore → Type 0
IsFresh env finding_id action by run s =
    (now : Datetime) → get (new_request env now finding_id action by run).id s.requests ≡ none

-- One call of the service.
pub data Call (s : ApprovalStore) : ApprovalStore → Type 0 where
  request :
      (policy : ApprovalPolicy) (gates : Gates) (env : Env) (finding_id : String)
      (action : ApprovalAction) (by : String) (at : Option Datetime) (run : Option String)
      → IsFresh env finding_id action by run s
      → Call s (request_approval policy gates env finding_id action by at run s).1
  move :
      (env : Env) (id : String) (to : ApprovalStatus) (actor : String) (reason : Option String)
      (at : Option Datetime)
      → Call s (transition env id to actor reason at s).1

-- A call of the service, or a deletion.
pub data Step (s : ApprovalStore) : ApprovalStore → Type 0 where
  call : {t : ApprovalStore} → Call s t → Step s t
  remove : (finding_id : String) → Step s (remove_finding finding_id s)
  reset : Step s (clear s)

pub data Reach (s : ApprovalStore) : ApprovalStore → Type 0 where
  here : Reach s s
  next : {t u : ApprovalStore} → Reach s t → Step t u → Reach s u

pub data Calls (s : ApprovalStore) : ApprovalStore → Type 0 where
  here : Calls s s
  next : {t u : ApprovalStore} → Calls s t → Call t u → Calls s u
