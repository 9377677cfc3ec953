-- ===== src/Prove/Gate.antt =====
-- What a proof needs, and what a verified one has seen.
use multi_stage_agentic_sast.Prelude.{
  ◌&&◌, List, refl, false, inr, inl, Option, ◌||◌, some, String, Bool, ◌==◌, ◌≡◌, Bool-cases, arith,
  true, eq_iff, none, ap, ◌∙◌, ◌⊎◌,
}
use multi_stage_agentic_sast.Findings.{CandidateFinding}
use multi_stage_agentic_sast.Prelude.Exec.{ok, Result, ok-injective, err}
use multi_stage_agentic_sast.Prelude.Dict.{contains}
use multi_stage_agentic_sast.Verdicts.{blocked, error, verified, not_verified, ProofStatus}
use multi_stage_agentic_sast.Prove.Models.{
  Prover, ValidationResult, ProofArtifact, ProofPlan, ProofResult, ExecutionResult,
}
use multi_stage_agentic_sast.Prove.{
  is_true_positive, interpret_output, observed_if, rows_differ, interpret, prove, result_of_run,
  result_of_plan, groups_are, is_zero, in_workspace, run_sandbox,
}

-- The validation that admits a finding to its proof.
pub record IsAdmitted (f : CandidateFinding) (o : Option ValidationResult) : Type 0 where
  pub validation : ValidationResult
  pub recorded : o ≡ some validation
  pub of_finding : validation.finding_id ≡ f.id
  pub positive : is_true_positive validation.verdict ≡ true

-- What the harness's own line has to say.
abbrev pub shows : Prover → String → String → Bool
shows e harness out =
    harness == "sql_injection_proof"
      && rows_differ e (e.find "PROVED:unsafe_rows=(\\d+):safe_rows=(\\d+)" out)
    || (harness == "command_injection_proof"
          && groups_are "0" "1" (e.find "PROVED:control_hit=(\\d+):injected_hit=(\\d+)" out)
        || (harness == "ssrf_proof"
              && groups_are "200" "proved" (e.find "PROVED:status=(\\d+):body=(\\w+)" out)
            || harness == "deserialization_proof"
              && groups_are "1" "0" (e.find "PROVED:pickle_ok=(\\d+):json_ok=(\\d+)" out)))

-- A run of the plan's approved harness that ended well and showed what it had to.
pub record IsWitnessed (e : Prover) (f : CandidateFinding) : Type 0 where
  pub plan : ProofPlan
  pub execution : ExecutionResult
  pub planned : e.plan f ≡ some plan
  pub approved : contains plan.harness e.approved_harnesses ≡ true
  pub trusted : plan.harness_script ≡ e.harness_script_of plan.harness
  pub executed :
      e.execute plan.harness plan.harness_script plan.input_value (in_workspace e plan.policy)
      ≡ ok execution
  pub in_time : execution.timed_out ≡ false
  pub succeeded : is_zero execution.returncode ≡ true
  pub shown : shows e plan.harness execution.stdout ≡ true

observed_if-verified :
    (b : Bool) (s t : String) (xs ys : List ProofArtifact)
    → (observed_if b (verified, (s, xs)) (not_verified, (t, ys))).0 ≡ verified
    → b ≡ true
observed_if-verified true s t xs ys h = refl
observed_if-verified false s t xs ys h = absurd (cc h)

module _ (e : Prover) where
  shows-interpret_output :
      (harness out : String)
      → (interpret_output e harness out).0 ≡ verified
      → shows e harness out ≡ true
  unfolding interpret_output
  shows-interpret_output harness out h = elim (Bool-cases (harness == "sql_injection_proof")) [
    | inl y ↦ rw y (ground (arith, observed_if-verified _ _ _ _ _ (rw y at h)))
    | inr n ↦ elim (Bool-cases (harness == "command_injection_proof")) [
      | inl y ↦ rw (n, y) (ground (arith, observed_if-verified _ _ _ _ _ (rw (n, y) at h)))
      | inr m ↦ elim (Bool-cases (harness == "ssrf_proof")) [
        | inl y ↦ rw (n, m, y) (ground (arith, observed_if-verified _ _ _ _ _ (rw (n, m, y) at h)))
        | inr k ↦ elim (Bool-cases (harness == "deserialization_proof")) [
          | inl y ↦
              rw (n, m, k, y)
                (ground (arith, observed_if-verified _ _ _ _ _ (rw (n, m, k, y) at h)))
          | inr j ↦ absurd (cc (rw (n, m, k, j) at h))
        ]
      ]
    ]
  ]

  interpret-verified :
      (plan : ProofPlan) (x : ExecutionResult)
      → (interpret e plan x).0 ≡ verified
      → (x.timed_out ≡ false)
        × ((is_zero x.returncode ≡ true) × (shows e plan.harness x.stdout ≡ true))
  unfolding interpret
  interpret-verified plan x h = elim (Bool-cases x.timed_out) [
    | inl y ↦ absurd (cc (rw y at h))
    | inr n ↦ elim (Bool-cases (is_zero x.returncode)) [
      | inl y ↦ (n, (y, shows-interpret_output plan.harness x.stdout (rw (n, y) at h)))
      | inr m ↦ absurd (cc (rw (n, m) at h))
    ]
  ]

  module _ (f : CandidateFinding) (v : ValidationResult) where
    -- The run of an approved harness, with the script that it is trusted with.
    IsWitnessed-executed :
        (p : ProofPlan) (r : Result String ExecutionResult)
        → e.plan f ≡ some p
        → contains p.harness e.approved_harnesses ≡ true
        → p.harness_script ≡ e.harness_script_of p.harness
        → e.execute p.harness p.harness_script p.input_value (in_workspace e p.policy) ≡ r
        → (result_of_run e f v p (r, in_workspace e p.policy)).status ≡ verified
        → IsWitnessed e f
    unfolding interpret
    IsWitnessed-executed p (err text) planned approved trusted ran h = absurd (cc h)
    IsWitnessed-executed p (ok x) planned approved trusted ran h =
        let (in_time, (succeeded, shown)) = interpret-verified p x h in
        record {
          plan = p;
          execution = x;
          planned = planned;
          approved = approved;
          trusted = trusted;
          executed = ran;
          in_time = in_time;
          succeeded = succeeded;
          shown = shown;
        }

    IsWitnessed-run :
        (p : ProofPlan)
        → e.plan f ≡ some p
        → (result_of_run e f v p
            (run_sandbox e p.harness p.harness_script p.input_value p.policy)).status
          ≡ verified
        → IsWitnessed e f
    unfolding interpret
    IsWitnessed-run p planned h = elim (Bool-cases (contains p.harness e.approved_harnesses)) [
      | inr n ↦ absurd (cc (rw n at h))
      | inl y ↦ elim (Bool-cases (p.harness_script == e.harness_script_of p.harness)) [
        | inr n ↦ absurd (cc (rw (y, n) at h))
        | inl z ↦
            IsWitnessed-executed p _ planned y
              ((eq_iff p.harness_script (e.harness_script_of p.harness)).0 z) refl (rw (y, z) at h)
      ]
    ]

    IsWitnessed-plan :
        (o : Option ProofPlan)
        → e.plan f ≡ o
        → (result_of_plan e f v o).status ≡ verified
        → IsWitnessed e f
    unfolding interpret
    IsWitnessed-plan none planned h = absurd (cc h)
    IsWitnessed-plan (some p) planned h = IsWitnessed-run p planned h

  admitted :
      (f : CandidateFinding) (o : Option ValidationResult) (r : ProofResult)
      → prove e f o ≡ ok r
      → (a : IsAdmitted f o) × (result_of_plan e f a.validation (e.plan f) ≡ r)
  unfolding prove
  admitted f none r h = absurd (cc h)
  admitted f (some v) r h = elim (Bool-cases (v.finding_id == f.id)) [
    | inr n ↦ absurd (cc (rw n at h))
    | inl y ↦ elim (Bool-cases (is_true_positive v.verdict)) [
      | inr n ↦ absurd (cc (rw (y, n) at h))
      | inl z ↦ (
        record {
          validation = v;
          recorded = refl;
          of_finding = (eq_iff v.finding_id f.id).0 y;
          positive = z;
        },
        ok-injective (result_of_plan e f v (e.plan f)) r (rw (y, z) at h),
      )
    ]
  ]

abbrev pub is_verified : ProofStatus → Bool
is_verified verified = true
is_verified _ = false

is_verified_lem : (s : ProofStatus) → is_verified s ≡ true → s ≡ verified
is_verified_lem verified h = refl
is_verified_lem not_verified h = absurd (cc h)
is_verified_lem blocked h = absurd (cc h)
is_verified_lem error h = absurd (cc h)

-- There is a proof result only for a finding whose own recorded validation says that it is a true
-- positive, whatever the status of the result is. And the result is not "verified", or else an
-- approved harness ran with the script that it is trusted with, on the input that the planner chose
-- and with the workspace as its only path, ended in time and without an error, and its output showed
-- what this harness has to show.
pub verified_proof_shown :
    (e : Prover) (f : CandidateFinding) (o : Option ValidationResult) (r : ProofResult)
    → prove e f o ≡ ok r
    → IsAdmitted f o × ((is_verified r.status ≡ false) ⊎ IsWitnessed e f)
verified_proof_shown e f o r h =
    let (a, same) = admitted e f o r h in
    (
      a,
      elim (Bool-cases (is_verified r.status)) [
        | inr n ↦ inl n
        | inl y ↦ inr (
            IsWitnessed-plan e f a.validation (e.plan f) refl
              (ap (λ (x : ProofResult). x.status) same ∙ is_verified_lem r.status y))
      ],
    )
