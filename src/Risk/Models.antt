-- ===== src/Risk/Models.antt =====
-- backend/app/risk/models.py
use multi_stage_agentic_sast.Prelude.{List, ℕ, String, Option}
use multi_stage_agentic_sast.Prelude.Int.{ℤ}
use multi_stage_agentic_sast.Prelude.Datetime.{Datetime}

pub data Priority : Type 0 where
  p0 p1 p2 p3 p4 : Priority

abbrev pub priority_name : Priority → String
priority_name p0 = "P0"
priority_name p1 = "P1"
priority_name p2 = "P2"
priority_name p3 = "P3"
priority_name p4 = "P4"

-- The more urgent, the greater: P0 is the most urgent.
abbrev pub urgency : Priority → ℕ
urgency p0 = 4
urgency p1 = 3
urgency p2 = 2
urgency p3 = 1
urgency p4 = 0

pub data SlaStatus : Type 0 where
  not_applicable active breached resolved : SlaStatus

pub record RiskFactor : Type 0 where
  pub name : String
  pub value : String
  pub points : ℤ
  pub description : String

pub record RiskAssessment : Type 0 where
  pub finding_id : String
  pub vulnerability_type : String
  pub severity : String
  pub risk_score : ℤ
  pub priority : Priority
  pub factors : List RiskFactor
  pub assessed_at : Datetime
  pub related_finding_ids : List String

pub record SlaRecord : Type 0 where
  pub finding_id : String
  pub priority : Priority
  pub started_at : Datetime
  pub due_at : Option Datetime
  pub status : SlaStatus
  pub breached_at : Option Datetime
  pub escalation_level : ℤ
  pub last_checked_at : Option Datetime
  pub resolved_at : Option Datetime

pub record EscalationEvent : Type 0 where
  pub finding_id : String
  pub previous_level : ℤ
  pub new_level : ℤ
  pub reason : String
  pub created_at : Datetime
