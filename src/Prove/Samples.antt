-- ===== src/Prove/Samples.antt =====
-- A command injection that is proved: the inputs of the example below.
use multi_stage_agentic_sast.Verdicts.{true_positive, verified}
use multi_stage_agentic_sast.Prelude.Dict.{contains}
use multi_stage_agentic_sast.Prelude.Exec.{ok}
use multi_stage_agentic_sast.Prelude.{some, false, ◌≡◌, ◌∷◌, refl, [], ◌⊎◌}
use multi_stage_agentic_sast.Prove.Gate.{is_verified, IsAdmitted, IsWitnessed, verified_proof_shown}
use multi_stage_agentic_sast.Prelude.Int.{pos}
use multi_stage_agentic_sast.Findings.{CandidateFinding}
use multi_stage_agentic_sast.Prove.Models.{
  ProofPlan, Prover, ProofResult, ValidationResult, default_policy,
}
use multi_stage_agentic_sast.Prove.{interpret, prove, result_of_plan, interpret_output}

abbrev vulnerable : CandidateFinding
vulnerable = record {
  id = "f1";
  vulnerability_type = "command_injection";
  severity = "high";
  confidence = 90;
  source_ref = record { file = "a.py"; line = 1; snippet = "q"; kind = "request_param" };
  sink_ref = record { file = "a.py"; line = 2; snippet = "os.system(q)"; kind = "command_exec" };
  taint_path = [];
  evidence = record {
    source_snippet = "q";
    sink_snippet = "os.system(q)";
    taint_path = [];
    relevant_lines = [];
    sanitizer_observations = [];
  };
}

abbrev plan : ProofPlan
plan = record {
  vulnerability_type = "command_injection";
  allowed_actions = [];
  expected_observation = "marker";
  objective = "marker";
  input_value = "touch";
  harness = "command_injection_proof";
  harness_script = "script";
  policy = default_policy;
}

-- A harness whose output is its groups.
abbrev prover : Prover
prover = record {
  plan = λ f. some plan;
  unsupported_reason = λ t. "";
  approved_harnesses = "command_injection_proof" ∷ [];
  harness_script_of = λ h. "script";
  runner_policy = default_policy;
  workspace = "w";
  execute = λ h s i p. ok (record {
    returncode = some (pos 0);
    stdout = "01";
    stderr = "";
    timed_out = false;
    truncated = false;
    workspace = "w";
  });
  find = λ pattern out. some ("0", "1");
  int_of = λ s. 0;
  show = λ n. "";
  quoted = λ s. s;
  splitlines = λ s. [];
  lower = λ s. s;
  rest_of_line = λ p l. l;
  duration_ms = 1;
  now = 2;
}

abbrev validation : ValidationResult
validation = record { finding_id = "f1"; verdict = true_positive; confidence = 80 }

abbrev proof : ProofResult
proof = result_of_plan prover vulnerable validation (some plan)

proves : prove prover vulnerable (some validation) ≡ ok proof
unfolding prove
proves = refl

proof-status : proof.status ≡ verified
unfolding interpret interpret_output contains
proof-status = refl

verified_proof_shown_example :
    IsAdmitted vulnerable (some validation)
    × ((is_verified proof.status ≡ false) ⊎ IsWitnessed prover vulnerable)
verified_proof_shown_example = verified_proof_shown prover vulnerable (some validation) proof proves
