-- ===== src/Risk/Sla/Checks.antt =====
-- Checks of the stored SLA records, by the evaluator thread and by API calls in any order: every
-- breach is recorded once, and is escalated once.
use mathlib.Core.List.{append-nil}
use multi_stage_agentic_sast.Prelude.{
  refl, none, if◌then◌else◌, inl, ℕ, String, List, Option-cases, ◌≡◌, [], ◌∷◌, Option, ◌==◌, arith,
  inr, some, eq_iff, ◌++◌, ◌∙◌, or_empty,
}
use multi_stage_agentic_sast.Prelude.Datetime.{aware, Datetime}
use multi_stage_agentic_sast.Risk.Sla.Store.{
  RiskStore, record_escalation_event, check_and_persist_sla, persist_event, persist_record,
  SlaRecord-discrete, record_sla_record, persist_unless, get_escalation_events, check_found,
  persist,
}
use multi_stage_agentic_sast.Risk.Models.{SlaRecord, EscalationEvent}
use multi_stage_agentic_sast.Prelude.Dict.{get, get-set_item}
use multi_stage_agentic_sast.Risk.Sla.{Clock, check_at, check_sla, ensure_aware_utc}

-- Records stand under their own finding.
abbrev pub IsKeyed : RiskStore → Type 0
IsKeyed s = (f : String) (r : SlaRecord) → get f s.sla ≡ some r → r.finding_id ≡ f

-- One call under the lock, at an aware instant.
abbrev pub check_step : Clock → String → ℕ → RiskStore → RiskStore
check_step clock f t s = (check_and_persist_sla clock f (some (aware t)) s).1

-- The record after its check, and the events that the check emits.
abbrev pub checked : Clock → ℕ → Option SlaRecord → Option SlaRecord
checked clock t none = none
checked clock t (some r) = some (check_at clock r (aware t)).0

abbrev pub event_list : Option EscalationEvent → List EscalationEvent
event_list none = []
event_list (some e) = e ∷ []

abbrev pub emitted : Clock → ℕ → Option SlaRecord → List EscalationEvent
emitted clock t none = []
emitted clock t (some r) = event_list (check_at clock r (aware t)).1

finding_id-check_at :
    (clock : Clock) (r : SlaRecord) (now : Datetime)
    → (check_at clock r now).0.finding_id ≡ r.finding_id
unfolding check_at
finding_id-check_at clock r now = ground arith

event-check_at :
    (clock : Clock) (r : SlaRecord) (now : Datetime) (e : EscalationEvent)
    → (check_at clock r now).1 ≡ some e
    → e.finding_id ≡ r.finding_id
unfolding check_at
event-check_at clock r now e h = ground arith

sla-persist_event : (o : Option EscalationEvent) (s : RiskStore) → (persist_event o s).sla ≡ s.sla
unfolding persist_event record_escalation_event
sla-persist_event none s = refl
sla-persist_event (some e) s = refl

get-persist_unless :
    (updated r : SlaRecord) (d : Dec (updated ≡ r)) (s : RiskStore) (j : String)
    → get updated.finding_id s.sla ≡ some r
    → get j (persist_unless d updated s).sla
      ≡ (if updated.finding_id == j then some updated else get j s.sla)
unfolding persist_unless record_sla_record
get-persist_unless updated r (yes e) s j found =
    ground (arith, e, found, eq_iff updated.finding_id j)
get-persist_unless updated r (no n) s j found = get-set_item updated.finding_id j updated s.sla

-- Which events a persisted event reaches.
events-persist :
    (o : Option EscalationEvent) (f : String) (s : RiskStore) (j : String)
    → ((e : EscalationEvent) → o ≡ some e → e.finding_id ≡ f)
    → get_escalation_events j (persist_event o s)
      ≡ (if f == j then get_escalation_events j s ++ event_list o else get_escalation_events j s)
unfolding persist_event record_escalation_event get_escalation_events
events-persist none f s j own = ground (arith, append-nil (get_escalation_events j s))
events-persist (some e) f s j own = ground (
  arith,
  own e refl,
  eq_iff f j,
  get-set_item e.finding_id j (or_empty (get e.finding_id s.escalations) ++ e ∷ []) s.escalations,
)

events-persist_unless {ℓ} :
    {E : Type ℓ} (d : Dec E) (u : SlaRecord) (s : RiskStore) (j : String)
    → get_escalation_events j (persist_unless d u s) ≡ get_escalation_events j s
unfolding persist_unless record_sla_record get_escalation_events
events-persist_unless (yes e) u s j = refl
events-persist_unless (no n) u s j = refl

module _ (clock : Clock) (f : String) (t : ℕ) (s : RiskStore) (keyed : IsKeyed s) where
  same_finding :
      (r : SlaRecord) → get f s.sla ≡ some r → (check_at clock r (aware t)).0.finding_id ≡ f
  same_finding r found = finding_id-check_at clock r (aware t) ∙ keyed f r found

  sla-found :
      (o : Option SlaRecord) (j : String)
      → get f s.sla ≡ o
      → get j (check_found clock o (some (aware t)) s).1.sla
        ≡ (if f == j then checked clock t o else get j s.sla)
  unfolding check_found persist check_sla ensure_aware_utc persist_record
  sla-found none j found = ground (arith, found, eq_iff f j)
  sla-found (some r) j found =
      let u = (check_at clock r (aware t)).0 in
      let e = (check_at clock r (aware t)).1 in
      rw sla-persist_event (
        rw (← same_finding r found)
          (get-persist_unless u r (SlaRecord-discrete u r) s j (cc (same_finding r found, found))))

  -- A check changes the record of its own finding, and no other.
  pub sla-check :
      (j : String)
      → get j (check_step clock f t s).sla
        ≡ (if f == j then checked clock t (get f s.sla) else get j s.sla)
  unfolding check_and_persist_sla
  sla-check j = sla-found (get f s.sla) j refl

  events-found :
      (o : Option SlaRecord) (j : String)
      → get f s.sla ≡ o
      → get_escalation_events j (check_found clock o (some (aware t)) s).1 ≡ (
          if f == j
          then get_escalation_events j s ++ emitted clock t o
          else get_escalation_events j s)
  unfolding check_found persist check_sla ensure_aware_utc persist_record
  events-found none j found = ground (arith, append-nil (get_escalation_events j s))
  events-found (some r) j found =
      let u = (check_at clock r (aware t)).0 in
      let d = SlaRecord-discrete u r in
      events-persist (check_at clock r (aware t)).1 f (persist_unless d u s) j
        (λ e h. event-check_at clock r (aware t) e h ∙ keyed f r found)
      ∙ rw events-persist_unless

  pub events-check :
      (j : String)
      → get_escalation_events j (check_step clock f t s) ≡ (
          if f == j
          then get_escalation_events j s ++ emitted clock t (get f s.sla)
          else get_escalation_events j s)
  unfolding check_and_persist_sla
  events-check j = events-found (get f s.sla) j refl

  pub IsKeyed-check : IsKeyed (check_step clock f t s)
  IsKeyed-check j r found = elim (Option-cases (get f s.sla)) [
    | inl missing ↦ ground (arith, sla-check j, missing, keyed j r, eq_iff f j)
    | inr (q, was) ↦ ground (arith, sla-check j, was, keyed j r, same_finding q was, eq_iff f j)
  ]
