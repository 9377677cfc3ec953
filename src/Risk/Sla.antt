-- ===== src/Risk/Sla.antt =====
-- backend/app/risk/policies.py and the SLA half of risk/service.py. The clock, the ISO format of a
-- datetime and the print of a priority in a message are inputs. A timedelta is in microseconds.
use Prim.Native.String
pub mod Store
pub mod Checks
pub mod Evaluator
pub mod Escalation
pub mod Stats
pub mod Forward
use multi_stage_agentic_sast.Prelude.Exec.{err, Result, ok}
use multi_stage_agentic_sast.Prelude.{
  some, ◌+◌, if◌then◌else◌, leb, Bool, List, Option, ◌*◌, false, [], ◌∷◌, true, ℕ, none,
}
use multi_stage_agentic_sast.Risk.Models.{
  not_applicable, SlaRecord, breached, EscalationEvent, RiskAssessment, active, Priority, resolved,
  SlaStatus, priority_name,
}
use multi_stage_agentic_sast.Prelude.Int.{pos, ◌+ℤ◌}
use multi_stage_agentic_sast.Prelude.Datetime.{as_aware_utc, aware, naive, Datetime, instant}
use Prim.Native.String.{String}
use multi_stage_agentic_sast.Prelude.Dict.{Dict, get}

abbrev pub hours : ℕ → ℕ
hours n = n * 3_600_000_000

abbrev pub days : ℕ → ℕ
days n = hours (n * 24)

-- DEFAULT_DEADLINES
abbrev pub default_deadlines : Dict (Option ℕ)
default_deadlines =
    ("P0", some (hours 4))
    ∷ ("P1", some (hours 24))
    ∷ ("P2", some (days 3))
    ∷ ("P3", some (days 7))
    ∷ ("P4", none)
    ∷ []

abbrev join_option {ℓ} : {A : Type ℓ} → Option (Option A) → Option A
join_option none = none
join_option (some o) = o

-- SLAPolicy.duration_for
unfoldable pub duration_for : Dict (Option ℕ) → Priority → Option ℕ
duration_for deadlines priority = join_option (get (priority_name priority) deadlines)

pub data SlaError : Type 0 where
  naive_datetime : String → SlaError

-- `_utcnow` and `datetime.isoformat`
pub record Clock : Type 0 where
  pub utcnow : ℕ
  pub isoformat : Datetime → String

abbrev pub or_now : Clock → Option Datetime → Datetime
or_now clock none = aware clock.utcnow
or_now clock (some t) = t

-- _ensure_aware_utc
unfoldable pub ensure_aware_utc : Datetime → String → Result SlaError Datetime
ensure_aware_utc (naive t) what = err (naive_datetime what)
ensure_aware_utc (aware t) what = ok (aware t)

infixl 10 ◌>>=◌
abbrev pub ◌>>=◌ {ℓ κ} :
    {A : Type ℓ} {B : Type κ} → Result SlaError A → (A → Result SlaError B) → Result SlaError B
ok a >>= f = f a
err e >>= f = err e

-- started + duration
abbrev pub later : Datetime → ℕ → Datetime
later (naive t) n = naive (t + n)
later (aware t) n = aware (t + n)

abbrev pub new_record : RiskAssessment → Datetime → Option ℕ → SlaRecord
new_record assessment started none = record {
  finding_id = assessment.finding_id;
  priority = assessment.priority;
  started_at = started;
  due_at = none;
  status = not_applicable;
  breached_at = none;
  escalation_level = pos 0;
  last_checked_at = none;
  resolved_at = none;
}
new_record assessment started (some duration) = record {
  finding_id = assessment.finding_id;
  priority = assessment.priority;
  started_at = started;
  due_at = some (later started duration);
  status = active;
  breached_at = none;
  escalation_level = pos 0;
  last_checked_at = none;
  resolved_at = none;
}

-- SLAService.create_sla
unfoldable pub create_sla :
    Dict (Option ℕ) → Clock → RiskAssessment → Option Datetime → Result SlaError SlaRecord
unfolding duration_for
create_sla deadlines clock assessment started_at = do
  started ← ensure_aware_utc (or_now clock started_at) "started_at"
  ok (new_record assessment started (duration_for deadlines assessment.priority))

infixr 65 ◌+text◌
abbrev pub ◌+text◌ : String → String → String
s +text t = String.◌++◌ s t

unfoldable pub breach_reason : Clock → SlaRecord → Datetime → Datetime → String
breach_reason clock record' due now =
    "SLA breached for "
    +text priority_name record'.priority
    +text ": due "
    +text clock.isoformat (as_aware_utc due)
    +text " exceeded at "
    +text clock.isoformat now

abbrev pub breach_event : Clock → SlaRecord → Datetime → Datetime → EscalationEvent
breach_event clock r due now = record {
  finding_id = r.finding_id;
  previous_level = r.escalation_level;
  new_level = r.escalation_level +ℤ pos 1;
  reason = breach_reason clock r due now;
  created_at = now;
}

-- The record that is past its deadline.
abbrev pub breach : SlaRecord → Datetime → SlaRecord
breach r now = record r {
  status = breached;
  breached_at = some now;
  escalation_level = r.escalation_level +ℤ pos 1;
  last_checked_at = some now;
}

abbrev pub touch : SlaRecord → SlaStatus → Datetime → SlaRecord
touch r status now = record r { status = status; last_checked_at = some now }

abbrev pub is_resolved : SlaStatus → Bool
is_resolved resolved = true
is_resolved _ = false

abbrev pub is_breached : SlaStatus → Bool
is_breached breached = true
is_breached _ = false

abbrev pub is_active : SlaStatus → Bool
is_active active = true
is_active _ = false

-- now >= as_aware_utc(due)
abbrev pub is_due : Datetime → Datetime → Bool
is_due due now = leb (instant (as_aware_utc due)) (instant now)

abbrev pub check_due :
    Clock → SlaRecord → Option Datetime → Datetime → SlaRecord × Option EscalationEvent
check_due clock r none now = (touch r not_applicable now, none)
check_due clock r (some due) now =
    if is_breached r.status
    then (record r { last_checked_at = some now }, none)
    else if is_due due now
    then (breach r now, some (breach_event clock r due now))
    else (touch r active now, none)

-- check_sla at an aware instant
unfoldable pub check_at : Clock → SlaRecord → Datetime → SlaRecord × Option EscalationEvent
check_at clock r now =
    if is_resolved r.status
    then (record r { last_checked_at = some now }, none)
    else check_due clock r r.due_at now

-- SLAService.check_sla
unfoldable pub check_sla :
    Clock → SlaRecord → Option Datetime → Result SlaError (SlaRecord × Option EscalationEvent)
check_sla clock r now = do t ← ensure_aware_utc (or_now clock now) "now"; ok (check_at clock r t)

-- SLAService.resolve_sla
unfoldable pub resolve_sla : Clock → SlaRecord → Option Datetime → Result SlaError SlaRecord
resolve_sla clock r resolved_at = if is_resolved r.status then ok r else do
  t ← ensure_aware_utc (or_now clock resolved_at) "resolved_at"
  ok (record r { status = resolved; resolved_at = some t })

-- SLAService.check_all
unfoldable pub check_all :
    Clock
    → List SlaRecord
    → Option Datetime
    → Result SlaError (List (SlaRecord × Option EscalationEvent))
check_all clock [] now = ok []
check_all clock (r ∷ rs) now = do
  checked ← check_sla clock r now
  rest ← check_all clock rs now
  ok (checked ∷ rest)
