-- ===== src/Findings.antt =====
-- The unit of the pipeline, a candidate finding (backend/app/scan/models.py). A confidence is in
-- hundredths: the scanner rounds it to two places.
pub mod Store
use multi_stage_agentic_sast.Prelude.{List, String, ℕ, Bool}
use multi_stage_agentic_sast.Prelude.Dict.{Dict}
use multi_stage_agentic_sast.Prelude.Datetime.{Datetime}

pub record SourceRef : Type 0 where
  pub file : String
  pub line : ℕ
  pub snippet : String
  pub kind : String

pub record SinkRef : Type 0 where
  pub file : String
  pub line : ℕ
  pub snippet : String
  pub kind : String

pub data StepType : Type 0 where
  source assignment propagation string_construction sink : StepType

pub record TaintStep : Type 0 where
  pub file : String
  pub line : ℕ
  pub snippet : String
  pub step_type : StepType

pub record Evidence : Type 0 where
  pub source_snippet : String
  pub sink_snippet : String
  pub taint_path : List TaintStep
  pub relevant_lines : List ℕ
  pub sanitizer_observations : List String

-- `status` is always "candidate".
pub record CandidateFinding : Type 0 where
  pub id : String
  pub vulnerability_type : String
  pub severity : String
  pub confidence : ℕ
  pub source_ref : SourceRef
  pub sink_ref : SinkRef
  pub taint_path : List TaintStep
  pub evidence : Evidence

pub record FunctionSummary : Type 0 where
  pub qualified_name : String
  pub file : String
  pub line : ℕ
  pub tainted_params : List String
  pub sinks : List SinkRef
  pub returns_taint : Bool

pub record ScanSummary : Type 0 where
  pub total : ℕ
  pub by_type : Dict ℕ

pub record ScanReport : Type 0 where
  pub id : String
  pub created_at : Datetime
  pub scanned_file_count : ℕ
  pub findings : List CandidateFinding
  pub function_summaries : List FunctionSummary
  pub summary : ScanSummary
