-- ===== src/Risk/Sla/Escalation.antt =====
-- Any sequence of checks, over any findings and in any order: a deadline that passed is recorded as
-- a breach, and escalated exactly once.
use multi_stage_agentic_sast.Prelude.{
  ◌≡◌, length, List, [], arith, some, String, Bool, ◌+◌, ◌||◌, false, true, ◌&&◌, ◌==◌, ◌∷◌, ℕ, ◌∙◌,
  Bool-cases, inl, length-append, ap, inr, eq_iff, if◌then◌else◌,
}
use multi_stage_agentic_sast.Prelude.Datetime.{Datetime, aware}
use multi_stage_agentic_sast.Prelude.Dict.{get}
use multi_stage_agentic_sast.Risk.Sla.{
  Clock, check_at, SlaRecord, is_due, SlaStatus, breached, active,
}
use multi_stage_agentic_sast.Risk.Sla.Store.{RiskStore, get_escalation_events}
use multi_stage_agentic_sast.Risk.Sla.Checks.{
  IsKeyed, event_list, check_step, sla-check, IsKeyed-check, events-check,
}

-- Calls of check_and_persist_sla, each with its finding and its instant.
abbrev pub run_checks : Clock → List (String × ℕ) → RiskStore → RiskStore
run_checks clock [] s = s
run_checks clock ((f, t) ∷ rest) s = run_checks clock rest (check_step clock f t s)

-- Some check of `f` comes at or after the deadline.
abbrev pub is_overdue : String → Datetime → List (String × ℕ) → Bool
is_overdue f due [] = false
is_overdue f due ((g, t) ∷ rest) = (g == f && is_due due (aware t)) || is_overdue f due rest

abbrev pub status_if : Bool → SlaStatus
status_if true = breached
status_if false = active

abbrev pub count_if : Bool → ℕ
count_if true = 1
count_if false = 0

check_open :
    (clock : Clock) (r : SlaRecord) (due : Datetime) (b : Bool) (t : ℕ)
    → r.due_at ≡ some due
    → r.status ≡ status_if b
    → ((check_at clock r (aware t)).0.status ≡ status_if (b || is_due due (aware t)))
      × ((check_at clock r (aware t)).0.due_at ≡ some due)
      × (count_if b + length (event_list (check_at clock r (aware t)).1)
          ≡ count_if (b || is_due due (aware t)))
unfolding check_at
check_open clock r due b t d st = ground arith

module _ (clock : Clock) (g f : String) (t : ℕ) (s : RiskStore) (r : SlaRecord) (keyed : IsKeyed s)
    (found : get f s.sla ≡ some r) where
  own_check :
      (g == f) ≡ true
      → (get f (check_step clock g t s).sla ≡ some (check_at clock r (aware t)).0)
        × (length (get_escalation_events f (check_step clock g t s))
            ≡ length (get_escalation_events f s)
              + length (event_list (check_at clock r (aware t)).1))
  own_check same =
      let e : g ≡ f = (eq_iff g f).0 same in
      let was : get g s.sla ≡ some r = rw e found in
      (
        sla-check clock g t s keyed f ∙ rw (same, was),
        ap length (events-check clock g t s keyed f)
            ∙ rw (same, was)
                (length-append (get_escalation_events f s)
                  (event_list (check_at clock r (aware t)).1)),
      )

  other_check :
      (g == f) ≡ false
      → (get f (check_step clock g t s).sla ≡ some r)
        × (length (get_escalation_events f (check_step clock g t s))
            ≡ length (get_escalation_events f s))
  other_check differs = (
    sla-check clock g t s keyed f ∙ rw differs found,
    ap length (events-check clock g t s keyed f) ∙ rw differs,
  )

-- The record, its status and its events after a sequence of checks.
pub record Escalated (clock : Clock) (checks : List (String × ℕ)) (s : RiskStore) (f : String)
    (due : Datetime) (b : Bool) (r : SlaRecord) : Type 0 where
  pub is : get f (run_checks clock checks s).sla ≡ some r
  pub status : r.status ≡ status_if (b || is_overdue f due checks)
  pub events :
      length (get_escalation_events f (run_checks clock checks s)) + count_if b
      ≡ length (get_escalation_events f s) + count_if (b || is_overdue f due checks)

checks_open :
    (clock : Clock) (checks : List (String × ℕ)) (s : RiskStore) (f : String) (r : SlaRecord)
    (due : Datetime) (b : Bool)
    → IsKeyed s
    → get f s.sla ≡ some r
    → r.due_at ≡ some due
    → r.status ≡ status_if b
    → (r' : SlaRecord) × Escalated clock checks s f due b r'
checks_open clock [] s f r due b keyed found d st =
    (r, record { is = found; status = ground (arith, st); events = ground arith })
checks_open clock ((g, t) ∷ rest) s f r due b keyed found d st = elim (Bool-cases (g == f)) [
  | inl same ↦
      let (now, more) = own_check clock g f t s r keyed found same in
      let (st', d', count) = check_open clock r due b t d st in
      let (r', e) =
        checks_open clock rest (check_step clock g t s) f (check_at clock r (aware t)).0 due
          (b || is_due due (aware t)) (IsKeyed-check clock g t s keyed) now d' st' in
      (
        r',
        record {
          is = e.is;
          status = ground (arith, e.status);
          events = ground (arith, e.events, more, count);
        },
      )
  | inr differs ↦
      let (now, more) = other_check clock g f t s r keyed found differs in
      let (r', e) =
        checks_open clock rest (check_step clock g t s) f r due b (IsKeyed-check clock g t s keyed)
          now d st in
      (
        r',
        record { is = e.is; status = rw differs e.status; events = ground (arith, e.events, more) },
      )
]

-- From a store whose records stand under their own finding, with the record of `f` active and due at
-- `due`: after any checks, of any findings in any order and at any aware instants, the record of `f`
-- is breached if some check of `f` came at or after the deadline, and active if none did; and its
-- escalation events have grown by one in the first case, and by none in the second.
pub escalated_exactly_once :
    (clock : Clock) (checks : List (String × ℕ)) (s : RiskStore) (f : String) (r : SlaRecord)
    (due : Datetime)
    → IsKeyed s
    → get f s.sla ≡ some r
    → r.due_at ≡ some due
    → r.status ≡ active
    → (r' : SlaRecord) × (get f (run_checks clock checks s).sla ≡ some r')
      × (r'.status ≡ (if is_overdue f due checks then breached else active))
      × (length (get_escalation_events f (run_checks clock checks s))
          ≡ length (get_escalation_events f s) + (if is_overdue f due checks then 1 else 0))
escalated_exactly_once clock checks s f r due keyed found d st =
    let (r', e) = checks_open clock checks s f r due false keyed found d st in
    (r', e.is, ground (arith, e.status), ground (arith, e.events))
