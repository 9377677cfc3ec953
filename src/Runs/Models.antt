-- ===== src/Runs/Models.antt =====
-- backend/app/scan/run_models.py
use multi_stage_agentic_sast.Prelude.{ℕ, String, Option, List, [], ◌∷◌}
use multi_stage_agentic_sast.Prelude.Datetime.{Datetime}

-- ScanRunStatus and StageStatus, which have the same values.
pub data RunStatus : Type 0 where
  pending running completed failed : RunStatus

-- STAGE_NAMES
abbrev pub stage_names : List String
stage_names =
    "PREPARE" ∷ "SCAN" ∷ "DEDUPLICATE" ∷ "RISK" ∷ "SLA" ∷ "VALIDATE" ∷ "PROVE" ∷ "APPROVAL" ∷ []

pub record ScanRun : Type 0 where
  pub scan_run_id : String
  pub project_id : String
  pub status : RunStatus
  pub started_at : Datetime
  pub completed_at : Option Datetime
  pub scanned_file_count : Option ℕ
  pub total_findings : Option ℕ
  pub error : Option String
  pub created_at : Datetime

pub record ScanStageRun : Type 0 where
  pub scan_run_id : String
  pub stage_name : String
  pub status : RunStatus
  pub started_at : Option Datetime
  pub completed_at : Option Datetime
  pub error : Option String
  pub execution_count : ℕ
  pub last_execution_at : Option Datetime

pub record ScanStageExecution : Type 0 where
  pub execution_id : String
  pub scan_run_id : String
  pub stage_name : String
  pub status : RunStatus
  pub started_at : Datetime
  pub completed_at : Option Datetime
  pub error : Option String
