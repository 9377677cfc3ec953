-- ===== src/Prove/Models.antt =====
-- backend/app/prove/models.py, and what ProofService calls.
use multi_stage_agentic_sast.Prelude.Int.{ℤ}
use multi_stage_agentic_sast.Verdicts.{Verdict, ProofStatus}
use multi_stage_agentic_sast.Prelude.{Bool, ℕ, Option, String, [], List, false}
use multi_stage_agentic_sast.Findings.{CandidateFinding}
use multi_stage_agentic_sast.Prelude.Datetime.{Datetime}
use multi_stage_agentic_sast.Prelude.Exec.{Result}

pub record ProofArtifact : Type 0 where
  pub name : String
  pub kind : String
  pub content : String

-- SandboxPolicy; a time is in seconds.
pub record SandboxPolicy : Type 0 where
  pub network_enabled : Bool
  pub allow_loopback : Bool
  pub allowed_paths : List String
  pub timeout_seconds : ℕ
  pub max_output_bytes : ℕ
  pub max_processes : ℕ
  pub temporary_directory : String

abbrev pub default_policy : SandboxPolicy
default_policy = record {
  network_enabled = false;
  allow_loopback = false;
  allowed_paths = [];
  timeout_seconds = 10;
  max_output_bytes = 16384;
  max_processes = 1;
  temporary_directory = "";
}

-- There is no return code when the harness ran out of time.
pub record ExecutionResult : Type 0 where
  pub returncode : Option ℤ
  pub stdout : String
  pub stderr : String
  pub timed_out : Bool
  pub truncated : Bool
  pub workspace : String

-- The plan that the planner makes of a finding.
pub record ProofPlan : Type 0 where
  pub vulnerability_type : String
  pub allowed_actions : List String
  pub expected_observation : String
  pub objective : String
  pub input_value : String
  pub harness : String
  pub harness_script : String
  pub policy : SandboxPolicy

-- ValidationResult, as far as PROVE reads it; a confidence is in hundredths.
pub record ValidationResult : Type 0 where
  pub finding_id : String
  pub verdict : Verdict
  pub confidence : ℕ

pub record ProofResult : Type 0 where
  pub finding_id : String
  pub vulnerability_type : String
  pub status : ProofStatus
  pub confidence : ℕ
  pub summary : String
  pub evidence : List ProofArtifact
  pub artifacts : List ProofArtifact
  pub duration_ms : ℕ
  pub sandbox_policy : SandboxPolicy
  pub error_text : Option String
  pub created_at : Datetime

-- Where ProofGateError is raised.
pub data ProofGateError : Type 0 where
  no_validation wrong_finding not_eligible : ProofGateError

-- What the service calls: the planner, the approved harnesses with their trusted scripts, the policy
-- that the runner has before, the
-- process of a harness in its workspace (or the text of what it raises), and Python's library. `find`
-- gives the two groups of the first match of a pattern.
pub record Prover : Type 0 where
  pub plan : CandidateFinding → Option ProofPlan
  pub unsupported_reason : String → String
  pub approved_harnesses : List String
  pub harness_script_of : String → String
  pub runner_policy : SandboxPolicy
  pub workspace : String
  pub execute : String → String → String → SandboxPolicy → Result String ExecutionResult
  pub find : String → String → Option (String × String)
  pub int_of : String → ℕ
  pub show : Option ℤ → String
  pub quoted : String → String
  pub splitlines : String → List String
  pub lower : String → String
  pub rest_of_line : String → String → String
  pub duration_ms : ℕ
  pub now : ℕ
