-- ===== src/Approval/Models.antt =====
-- backend/app/approval/models.py and policies.py
use multi_stage_agentic_sast.Prelude.{ℕ, String, Bool, true, false, Option, List, [], ◌∷◌}
use multi_stage_agentic_sast.Prelude.Datetime.{Datetime}

pub data ApprovalStatus : Type 0 where
  pending approved rejected changes_requested : ApprovalStatus

pub data ApprovalAction : Type 0 where
  remediation other : ApprovalAction

-- The literal that stands for an action.
abbrev pub action_name : ApprovalAction → String
action_name remediation = "remediation"
action_name other = "other"

abbrev pub status_name : ApprovalStatus → String
status_name pending = "pending"
status_name approved = "approved"
status_name rejected = "rejected"
status_name changes_requested = "changes_requested"

pub record ApprovalRequest : Type 0 where
  pub id : String
  pub finding_id : String
  pub status : ApprovalStatus
  pub requested_at : Datetime
  pub requested_by : String
  pub reviewed_at : Option Datetime
  pub reviewed_by : Option String
  pub reason : Option String
  pub action : ApprovalAction
  pub version : ℕ
  pub scan_run_id : Option String

pub record ApprovalEvent : Type 0 where
  pub id : String
  pub approval_id : String
  pub finding_id : String
  pub previous_status : Option ApprovalStatus
  pub new_status : ApprovalStatus
  pub actor : String
  pub reason : Option String
  pub created_at : Datetime

abbrev pub default_allowed_actions : List String
default_allowed_actions = "remediation" ∷ []

pub record ApprovalPolicy : Type 0 where
  pub require_validation : Bool
  pub require_proof : Bool
  pub allowed_actions : List String
  pub allow_re_request_after_terminal : Bool

abbrev pub default_policy : ApprovalPolicy
default_policy = record {
  require_validation = true;
  require_proof = true;
  allowed_actions = default_allowed_actions;
  allow_re_request_after_terminal = false;
}
