-- ===== src/Risk/Sla/Store.antt =====
-- The stores of backend/app/risk/service.py and the evaluator of risk/sla_evaluator.py. What is sent
-- to the database is the list `writes`, in order; `factory` says whether one is configured. The lock
-- of check_and_persist_sla makes each call of it one step, so threads are sequences of such steps.
use native.Mathlib.Decide.{ℕ_discrete}
use multi_stage_agentic_sast.Prelude.{
  some, Bool, List, Option, [], String, ◌∷◌, ◌++◌, none, Bool-cases, length, ◌+◌, if◌then◌else◌,
  ◌==◌, inr, eq_iff, inl, ℕ, or_empty, send,
}
use multi_stage_agentic_sast.Risk.Models.{SlaRecord, EscalationEvent, RiskAssessment}
use multi_stage_agentic_sast.Prelude.Dict.{set_item, Dict, get, pop, values}
use multi_stage_agentic_sast.Risk.Sla.{SlaError, Clock, check_sla, is_active, or_now}
use multi_stage_agentic_sast.Prelude.Exec.{Result, err, ok}
use multi_stage_agentic_sast.Prelude.Sort.{sorted, text_ltb}
use multi_stage_agentic_sast.Prelude.Datetime.{Datetime}

pub data Write : Type 0 where
  upsert_assessment : String → RiskAssessment → Write
  upsert_sla : String → SlaRecord → Write
  insert_event : EscalationEvent → Write
  delete_assessment delete_sla delete_events : String → Write
  delete_all : Write

pub record RiskStore : Type 0 where
  pub assessments : Dict RiskAssessment
  pub sla : Dict SlaRecord
  pub escalations : Dict (List EscalationEvent)
  pub factory : Bool
  pub writes : List Write

unfoldable pub record_risk_assessment : RiskAssessment → RiskStore → RiskStore
record_risk_assessment a s = record s {
  assessments = set_item a.finding_id a s.assessments;
  writes = send s.factory (upsert_assessment a.finding_id a ∷ []) s.writes;
}

unfoldable pub record_sla_record : SlaRecord → RiskStore → RiskStore
record_sla_record r s = record s {
  sla = set_item r.finding_id r s.sla;
  writes = send s.factory (upsert_sla r.finding_id r ∷ []) s.writes;
}

unfoldable pub get_escalation_events : String → RiskStore → List EscalationEvent
get_escalation_events finding_id s = or_empty (get finding_id s.escalations)

unfoldable pub record_escalation_event : EscalationEvent → RiskStore → RiskStore
record_escalation_event e s = record s {
  escalations =
      set_item e.finding_id (or_empty (get e.finding_id s.escalations) ++ e ∷ []) s.escalations;
  writes = send s.factory (insert_event e ∷ []) s.writes;
}

String-discrete : Discrete String
String-discrete s t = elim (Bool-cases (s == t)) [
  | inl e ↦ yes ((eq_iff s t).0 e)
  | inr n ↦ no (λ p. cc ((eq_iff s t).1 p, n))
]

-- `updated != record`, on all fields
pub SlaRecord-discrete : Discrete SlaRecord
SlaRecord-discrete = hlevel (String-discrete, ℕ_discrete)

unfoldable pub persist_event : Option EscalationEvent → RiskStore → RiskStore
persist_event none s = s
persist_event (some e) s = record_escalation_event e s

unfoldable pub persist_unless {ℓ} : {E : Type ℓ} → Dec E → SlaRecord → RiskStore → RiskStore
persist_unless (yes e) updated s = s
persist_unless (no n) updated s = record_sla_record updated s

unfoldable pub persist_record : SlaRecord → SlaRecord → RiskStore → RiskStore
persist_record updated r s = persist_unless (SlaRecord-discrete updated r) updated s

abbrev pub Check : Type 0
Check = Result SlaError (Option SlaRecord × Option EscalationEvent)

unfoldable pub persist :
    SlaRecord → Result SlaError (SlaRecord × Option EscalationEvent) → RiskStore → Check × RiskStore
persist r (err e) s = (err e, s)
persist r (ok (updated, event)) s =
    (ok (some updated, event), persist_event event (persist_record updated r s))

unfoldable pub check_found :
    Clock → Option SlaRecord → Option Datetime → RiskStore → Check × RiskStore
check_found clock none now s = (ok (none, none), s)
check_found clock (some r) now s = persist r (check_sla clock r now) s

-- check_and_persist_sla, one step under its lock
unfoldable pub check_and_persist_sla :
    Clock → String → Option Datetime → RiskStore → Check × RiskStore
unfolding check_found persist
check_and_persist_sla clock finding_id now s = check_found clock (get finding_id s.sla) now s

unfoldable pub remove_finding_state : String → RiskStore → RiskStore
remove_finding_state f s = record s {
  assessments = pop f s.assessments;
  sla = pop f s.sla;
  escalations = pop f s.escalations;
  writes = send s.factory (delete_assessment f ∷ delete_sla f ∷ delete_events f ∷ []) s.writes;
}

unfoldable pub reset_risk_stores : RiskStore → RiskStore
reset_risk_stores s = record s {
  assessments = [];
  sla = [];
  escalations = [];
  writes = send s.factory (delete_all ∷ []) s.writes;
}

pub record EvaluationStats : Type 0 where
  pub inspected : ℕ
  pub breached : ℕ
  pub skipped : ℕ
  pub errors : ℕ
  pub at : Datetime

-- One round of the loop of evaluate_once over a record that was active when it was listed.
abbrev pub count_check : Check → EvaluationStats → EvaluationStats
count_check (err e) n = record n { errors = n.errors + 1 }
count_check (ok (updated, none)) n = n
count_check (ok (updated, some event)) n = record n { breached = n.breached + 1 }

unfoldable pub evaluate_one :
    Clock → Datetime → SlaRecord → EvaluationStats × RiskStore → EvaluationStats × RiskStore
evaluate_one clock now r (n, s) =
    if is_active r.status
    then (let (result, t) = check_and_persist_sla clock r.finding_id (some now) s in
        (count_check result n, t))
    else (record n { skipped = n.skipped + 1 }, s)

unfoldable pub evaluate_records :
    Clock → Datetime → List SlaRecord → EvaluationStats × RiskStore → EvaluationStats × RiskStore
evaluate_records clock now [] acc = acc
evaluate_records clock now (r ∷ rs) acc =
    evaluate_records clock now rs (evaluate_one clock now r acc)

-- SlaEvaluator.evaluate_once
unfoldable pub evaluate_once : Clock → Option Datetime → RiskStore → EvaluationStats × RiskStore
unfolding values
evaluate_once clock now s =
    let at = or_now clock now in
    let records = sorted (λ (a b : SlaRecord). text_ltb a.finding_id b.finding_id) (values s.sla) in
    evaluate_records clock at records
      (record { inspected = length records; breached = 0; skipped = 0; errors = 0; at = at }, s)
