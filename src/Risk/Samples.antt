-- ===== src/Risk/Samples.antt =====
-- A critical finding whose response deadline passes: the inputs of the examples below.
use multi_stage_agentic_sast.Findings.{CandidateFinding}
use multi_stage_agentic_sast.Risk.Scoring.{
  Text, default_risk_policy, score, clamp, priority_thresholds, is_false_positive,
}
use multi_stage_agentic_sast.Risk.Scoring.Explained.{IsPriority, score_explained, total}
use multi_stage_agentic_sast.Prelude.{
  ◌+◌, arith, ◌≤◌, some, ◌∷◌, none, ◌≡◌, true, [], if◌then◌else◌, eq_iff, length, refl, inr, ◌⊎◌,
  false,
}
use multi_stage_agentic_sast.Risk.Sla.Store.{RiskStore, evaluate_once, get_escalation_events}
use multi_stage_agentic_sast.Risk.Scoring.Monotone.{
  IsReward, IsDescending, Confirms, confirmation_never_lowers,
}
use multi_stage_agentic_sast.Risk.Sla.{
  Clock, new_record, resolve_sla, create_sla, hours, ensure_aware_utc, duration_for,
  default_deadlines,
}
use multi_stage_agentic_sast.Risk.Models.{
  SlaRecord, breached, p0, active, urgency, p4, RiskAssessment, resolved,
}
use multi_stage_agentic_sast.Prelude.Int.{◌≤ℤ◌, pos}
use multi_stage_agentic_sast.Prelude.Dict.{get}
use multi_stage_agentic_sast.Prelude.Datetime.{aware, as_aware_utc}
use multi_stage_agentic_sast.Risk.Sla.Escalation.{run_checks, is_overdue, escalated_exactly_once}
use multi_stage_agentic_sast.Verdicts.{uncertain, true_positive, verified, false_positive}
use multi_stage_agentic_sast.Risk.Sla.Checks.{IsKeyed}
use multi_stage_agentic_sast.Risk.Sla.Evaluator.{evaluation_decides}
use multi_stage_agentic_sast.Risk.Sla.Forward.{rank, status_moves_forward, Update, Life}

abbrev text : Text
text = record { lower = λ s. s; upper = λ s. s; show = λ n. "n" }

abbrev finding : CandidateFinding
finding = record {
  id = "f";
  vulnerability_type = "sql-injection";
  severity = "high";
  confidence = 90;
  source_ref = record { file = "a.py"; line = 1; snippet = "q = request.args"; kind = "web" };
  sink_ref = record { file = "a.py"; line = 2; snippet = "execute(q)"; kind = "sql" };
  taint_path = [];
  evidence = record {
    source_snippet = "q = request.args";
    sink_snippet = "execute(q)";
    taint_path = [];
    relevant_lines = 1 ∷ 2 ∷ [];
    sanitizer_observations = [];
  };
}

score_explained_example :
    let (s, priority, factors) =
      score text default_risk_policy finding (some true_positive) (some verified) in
    (s ≡ clamp (total factors))
    × (((some true_positive ≡ some false_positive) × (s ≡ pos 0) × (priority ≡ p4))
        ⊎ ((is_false_positive (some true_positive) ≡ false)
            × IsPriority s priority_thresholds priority))
score_explained_example =
    score_explained text default_risk_policy finding (some true_positive) (some verified)

default-IsReward : IsReward default_risk_policy
default-IsReward = omega arith

default-IsDescending : IsDescending priority_thresholds
default-IsDescending = ground arith

evidence : Confirms (some uncertain) (some true_positive) none (some verified)
evidence = record { not_refuted = refl; verdict = inr refl; proof = inr refl }

confirmation_never_lowers_example :
    let (s, priority, _) = score text default_risk_policy finding (some uncertain) none in
    let (s', priority', _) =
      score text default_risk_policy finding (some true_positive) (some verified) in
    (s ≤ℤ s') × (urgency priority ≤ urgency priority') × (pos 0 ≤ℤ s) × (s' ≤ℤ pos 100)
confirmation_never_lowers_example =
    confirmation_never_lowers text default_risk_policy finding (some uncertain) (some true_positive)
      none (some verified) default-IsReward default-IsDescending evidence

abbrev clock : Clock
clock = record { utcnow = 0; isoformat = λ d. "t" }

abbrev open_record : SlaRecord
open_record = record {
  finding_id = "f";
  priority = p0;
  started_at = aware 0;
  due_at = some (aware 10);
  status = active;
  breached_at = none;
  escalation_level = pos 0;
  last_checked_at = none;
  resolved_at = none;
}

abbrev tracked : RiskStore
tracked = record {
  assessments = [];
  sla = ("f", open_record) ∷ [];
  escalations = [];
  factory = true;
  writes = [];
}

tracked-IsKeyed : IsKeyed tracked
unfolding get
tracked-IsKeyed f r = ground (arith, eq_iff "f" f)

open_found : get "f" tracked.sla ≡ some open_record
unfolding get
open_found = refl

escalated_exactly_once_example :
    (r : SlaRecord) × (get "f"
        (run_checks clock (("f", 9) ∷ ("f", 10) ∷ ("f", 11) ∷ []) tracked).sla
      ≡ some r)
    × (r.status ≡ (
        if is_overdue "f" (aware 10) (("f", 9) ∷ ("f", 10) ∷ ("f", 11) ∷ [])
        then breached
        else active))
    × (length (
          get_escalation_events "f"
            (run_checks clock (("f", 9) ∷ ("f", 10) ∷ ("f", 11) ∷ []) tracked))
        ≡ length (get_escalation_events "f" tracked)
          + (if is_overdue "f" (aware 10) (("f", 9) ∷ ("f", 10) ∷ ("f", 11) ∷ []) then 1 else 0))
escalated_exactly_once_example =
    escalated_exactly_once clock (("f", 9) ∷ ("f", 10) ∷ ("f", 11) ∷ []) tracked "f" open_record
      (aware 10) tracked-IsKeyed open_found refl refl

evaluation_decides_example :
    let u = (evaluate_once clock (some (aware 10)) tracked).1 in
    (r : SlaRecord) × (get "f" u.sla ≡ some r)
    × (r.status ≡ breached)
    × (length (get_escalation_events "f" u) ≡ length (get_escalation_events "f" tracked) + 1)
unfolding as_aware_utc
evaluation_decides_example =
    evaluation_decides clock 10 tracked "f" open_record (aware 10) tracked-IsKeyed open_found refl
      refl

abbrev assessment : RiskAssessment
assessment = record {
  finding_id = "f";
  vulnerability_type = "sql-injection";
  severity = "critical";
  risk_score = pos 100;
  priority = p0;
  factors = [];
  assessed_at = aware 0;
  related_finding_ids = [];
}

abbrev created : SlaRecord
created = new_record assessment (aware 0) (some (hours 4))

created_Life : Life created
unfolding create_sla duration_for get ensure_aware_utc
created_Life = Life.create default_deadlines clock assessment (some (aware 0)) created refl

resolved_Update :
    Update created (record created { status = resolved; resolved_at = some (aware 5) })
unfolding resolve_sla ensure_aware_utc
resolved_Update =
    Update.resolve clock (some (aware 5))
      (record created { status = resolved; resolved_at = some (aware 5) }) refl

status_moves_forward_example : rank active ≤ rank resolved
status_moves_forward_example =
    status_moves_forward created
      (record created { status = resolved; resolved_at = some (aware 5) }) created_Life
      resolved_Update
