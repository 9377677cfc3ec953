-- ===== src/Prove.antt =====
-- PROVE: ProofService of backend/app/prove/service.py and the guards of prove/sandbox.py.
pub mod Models
pub mod Gate
pub mod Store
mod Samples
use Prim.Native.String
use multi_stage_agentic_sast.Prelude.Int.{ℤ, pos}
use multi_stage_agentic_sast.Verdicts.{
  Verdict, true_positive, ProofStatus, verified, not_verified, error,
}
use multi_stage_agentic_sast.Prelude.{
  eqb, Bool, ◌&&◌, ◌++◌, ◌∷◌, ◌==◌, ℕ, not, Option, if◌then◌else◌, true, String, some, [], none,
  List, false, ◌-◌, zero,
}
use multi_stage_agentic_sast.Findings.{CandidateFinding}
use multi_stage_agentic_sast.Prelude.Text.{starts_with, take_chars}
use multi_stage_agentic_sast.Prelude.Dict.{contains}
use multi_stage_agentic_sast.Prelude.Datetime.{Datetime, aware}
use multi_stage_agentic_sast.Prelude.Exec.{ok, Result, err}
use multi_stage_agentic_sast.Prove.Models.{
  no_validation, wrong_finding, not_eligible, Prover, ProofPlan, ProofArtifact, ValidationResult,
  SandboxPolicy, ExecutionResult, ProofResult, ProofGateError, default_policy,
}

abbrev pub in_workspace : Prover → SandboxPolicy → SandboxPolicy
in_workspace e policy = record policy {
  temporary_directory = e.workspace;
  allowed_paths = e.workspace ∷ [];
}

-- SandboxRunner.run, and the runner's policy after it: a violation is raised before anything runs.
abbrev pub run_sandbox :
    Prover
    → String
    → String
    → String
    → SandboxPolicy
    → Result String ExecutionResult × SandboxPolicy
run_sandbox e harness script input policy =
    if contains harness e.approved_harnesses
    then (if script == e.harness_script_of harness
        then (e.execute harness script input (in_workspace e policy), in_workspace e policy)
        else (err "harness script does not match the trusted template", e.runner_policy))
    else (err "harness is not approved", e.runner_policy)

abbrev Details : Type 0
Details = String × List ProofArtifact

abbrev pub Observed : Type 0
Observed = ProofStatus × Details

abbrev pub observation : String → ProofArtifact
observation content = record { name = "observation"; kind = "observation"; content = content }

abbrev pub prefixed_artifacts : Prover → List String → String → List ProofArtifact
prefixed_artifacts e [] line = []
prefixed_artifacts e (p ∷ ps) line =
    let rest = prefixed_artifacts e ps line in
    if starts_with (String.◌++◌ p ":") line
    then record { name = e.lower p; kind = "observation"; content = e.rest_of_line p line } ∷ rest
    else rest

-- The loop of _line_artifacts over the lines.
abbrev pub lines_artifacts : Prover → List String → List String → List ProofArtifact
lines_artifacts e prefixes [] = []
lines_artifacts e prefixes (l ∷ ls) =
    prefixed_artifacts e prefixes l ++ lines_artifacts e prefixes ls

-- _line_artifacts
unfoldable pub line_artifacts : Prover → List String → String → List ProofArtifact
unfolding starts_with
line_artifacts e prefixes out = lines_artifacts e prefixes (e.splitlines out)

abbrev pub rows_differ : Prover → Option (String × String) → Bool
rows_differ e none = false
rows_differ e (some (m, n)) = not (eqb (e.int_of m) (e.int_of n))

abbrev pub groups_are : String → String → Option (String × String) → Bool
groups_are a b none = false
groups_are a b (some (m, n)) = m == a && n == b

abbrev pub rows_summary : Option (String × String) → String
rows_summary none = ""
rows_summary (some (m, n)) = String.◌++◌ "unsafe string construction returned " (
    String.◌++◌ m (
      String.◌++◌ " rows while the parameterized construction returned "
        (String.◌++◌ n " rows for the same benign marker in the local fixture")))

abbrev pub observed_if : Bool → Observed → Observed → Observed
observed_if b seen unseen = if b then seen else unseen

-- The interpretation of a harness's output.
unfoldable pub interpret_output : Prover → String → String → Observed
unfolding line_artifacts
interpret_output e harness out =
    if harness == "sql_injection_proof"
    then (let artifacts = line_artifacts e ("UNSAFE_QUERY" ∷ "SAFE_QUERY" ∷ []) out in
        let rows = e.find "PROVED:unsafe_rows=(\\d+):safe_rows=(\\d+)" out in
        observed_if (rows_differ e rows) (verified, (rows_summary rows, artifacts))
          (not_verified, ("unsafe and safe constructions behaved identically", artifacts)))
    else if harness == "command_injection_proof"
    then observed_if
        (groups_are "0" "1" (e.find "PROVED:control_hit=(\\d+):injected_hit=(\\d+)" out))
        (
          verified,
          (
            "the benign marker produced the known marker file inside the sandbox while the control value did not - the command sink interpolates untrusted input into a shell command",
            record {
              name = "marker_file";
              kind = "marker";
              content = "prove_marker.txt (inside sandbox workspace)";
            }
                ∷ [],
          ),
        )
        (not_verified, ("marker observation did not match expectations", []))
    else if harness == "ssrf_proof"
    then (let artifacts = line_artifacts e ("URL" ∷ []) out in
        observed_if (groups_are "200" "proved" (e.find "PROVED:status=(\\d+):body=(\\w+)" out))
          (
            verified,
            (
              "the request reached the harness-created loopback endpoint (127.0.0.1, ephemeral port) and got the expected controlled response - input flows into an HTTP request sink",
              artifacts,
            ),
          )
          (not_verified, ("loopback endpoint did not answer as expected", artifacts)))
    else if harness == "deserialization_proof"
    then (let artifacts = line_artifacts e ("PICKLE_OK" ∷ "PICKLE_MARKER" ∷ "JSON_OK" ∷ []) out in
        observed_if (groups_are "1" "0" (e.find "PROVED:pickle_ok=(\\d+):json_ok=(\\d+)" out))
          (
            verified,
            (
              "pickle.loads successfully deserialized the planner-controlled marker while json.loads rejected the same bytes - input flows into a deserialization sink that processes arbitrary payloads",
              artifacts,
            ),
          )
          (
            not_verified,
            ("deserialization proof observation did not match expectations", artifacts),
          ))
    else (not_verified, (String.◌++◌ "no interpretation for harness " (e.quoted harness), []))

abbrev pub is_zero : Option ℤ → Bool
is_zero (some (pos zero)) = true
is_zero _ = false

abbrev pub failed_summary : Prover → ExecutionResult → String
failed_summary e x =
    String.◌++◌ "proof harness failed (rc="
      (String.◌++◌ (e.show x.returncode) (String.◌++◌ "): " (take_chars 200 x.stderr)))

-- _interpret
unfoldable pub interpret : Prover → ProofPlan → ExecutionResult → Observed
unfolding interpret_output take_chars
interpret e plan x =
    if x.timed_out
    then (error, ("proof harness exceeded the sandbox timeout", observation "timed_out" ∷ []))
    else if is_zero x.returncode
    then interpret_output e plan.harness x.stdout
    else (error, (failed_summary e x, observation (String.◌++◌ "rc=" (e.show x.returncode)) ∷ []))

abbrev pub plan_evidence : Option ProofPlan → List ProofArtifact
plan_evidence none = []
plan_evidence (some p) =
    record { name = "plan"; kind = "plan"; content = p.objective }
    ∷ record { name = "input_value"; kind = "observation"; content = p.input_value }
    ∷ []

-- _result
abbrev pub result_of :
    Prover
    → CandidateFinding
    → ValidationResult
    → Option ProofPlan
    → Observed
    → SandboxPolicy
    → Option String
    → ProofResult
result_of e f v plan (status, (summary, artifacts)) policy error_text = record {
  finding_id = f.id;
  vulnerability_type = f.vulnerability_type;
  status = status;
  confidence = v.confidence;
  summary = summary;
  evidence = plan_evidence plan;
  artifacts = artifacts;
  duration_ms = e.duration_ms;
  sandbox_policy = policy;
  error_text = error_text;
  created_at = aware e.now;
}

abbrev pub no_plan_summary : Prover → String → String
no_plan_summary e type =
    let summary = String.◌++◌ "no proof plan exists for vulnerability type " (e.quoted type) in
    let reason = e.unsupported_reason type in
    if reason == "" then summary else String.◌++◌ summary (String.◌++◌ " — " reason)

abbrev pub result_of_run :
    Prover
    → CandidateFinding
    → ValidationResult
    → ProofPlan
    → Result String ExecutionResult × SandboxPolicy
    → ProofResult
result_of_run e f v plan (err text, policy) =
    result_of e f v (some plan) (error, ("proof harness could not be executed", [])) policy
      (some text)
result_of_run e f v plan (ok x, policy) =
    result_of e f v (some plan) (interpret e plan x) policy none

abbrev pub result_of_plan :
    Prover → CandidateFinding → ValidationResult → Option ProofPlan → ProofResult
result_of_plan e f v none =
    result_of e f v none (not_verified, (no_plan_summary e f.vulnerability_type, [])) default_policy
      none
result_of_plan e f v (some p) =
    result_of_run e f v p (run_sandbox e p.harness p.harness_script p.input_value p.policy)

abbrev pub is_true_positive : Verdict → Bool
is_true_positive true_positive = true
is_true_positive _ = false

-- prove
unfoldable pub prove :
    Prover → CandidateFinding → Option ValidationResult → Result ProofGateError ProofResult
unfolding interpret contains
prove e f none = err no_validation
prove e f (some v) =
    if v.finding_id == f.id
    then (if is_true_positive v.verdict
        then ok (result_of_plan e f v (e.plan f))
        else err not_eligible)
    else err wrong_finding
