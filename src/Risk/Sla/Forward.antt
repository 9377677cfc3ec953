-- ===== src/Risk/Sla/Forward.antt =====
-- The life of an SLA record: its status only moves forward.
use multi_stage_agentic_sast.Risk.Models.{
  SlaStatus, not_applicable, active, breached, resolved, SlaRecord, RiskAssessment, EscalationEvent,
}
use multi_stage_agentic_sast.Risk.Sla.{
  check_sla, check_at, Clock, resolve_sla, create_sla, ensure_aware_utc, is_resolved, or_now,
  check_due, new_record, duration_for,
}
use multi_stage_agentic_sast.Prelude.{
  ◌||◌, ◌≤◌, is_some, Bool-cases, inl, some, Option, inr, ◌≡◌, ℕ, refl, true, Bool, false, none,
  arith, subst,
}
use multi_stage_agentic_sast.Prelude.Datetime.{aware, naive, Datetime}
use multi_stage_agentic_sast.Prelude.Exec.{ok}
use multi_stage_agentic_sast.Prelude.Dict.{Dict}

abbrev pub rank : SlaStatus → ℕ
rank not_applicable = 0
rank active = 1
rank breached = 2
rank resolved = 3

-- One successful check or resolution.
pub data Update (r : SlaRecord) : SlaRecord → Type 0 where
  check :
      (clock : Clock) (now : Option Datetime) (q : SlaRecord) (e : Option EscalationEvent)
      → check_sla clock r now ≡ ok (q, e)
      → Update r q
  resolve :
      (clock : Clock) (date : Option Datetime) (q : SlaRecord)
      → resolve_sla clock r date ≡ ok q
      → Update r q

-- The records that come of create_sla by updates.
pub data Life : SlaRecord → Type 0 where
  create :
      (deadlines : Dict (Option ℕ)) (clock : Clock) (a : RiskAssessment) (date : Option Datetime)
      (r : SlaRecord)
      → create_sla deadlines clock a date ≡ ok r
      → Life r
  update : {r q : SlaRecord} → Life r → Update r q → Life q

abbrev is_settled : SlaStatus → Bool
is_settled not_applicable = true
is_settled resolved = true
is_settled _ = false

-- A record without a deadline is not applicable, or resolved.
abbrev IsWell : SlaRecord → Type 0
IsWell r = (is_some r.due_at || is_settled r.status) ≡ true

-- What an update of `r` may leave.
record IsForward (r q : SlaRecord) : Type 0 where
  well : IsWell q
  forward : rank r.status ≤ rank q.status

check_due-IsForward :
    (clock : Clock) (r : SlaRecord) (due : Option Datetime) (t : ℕ)
    → r.due_at ≡ due
    → IsWell r
    → is_resolved r.status ≡ false
    → IsForward r (check_due clock r due (aware t)).0
check_due-IsForward clock r none t d w n = record { well = ground arith; forward = ground arith }
check_due-IsForward clock r (some due) t d w n = record {
  well = ground arith;
  forward = ground arith;
}

check_at-IsForward :
    (clock : Clock) (r : SlaRecord) (t : ℕ) → IsWell r → IsForward r (check_at clock r (aware t)).0
unfolding check_at
check_at-IsForward clock r t w = elim (Bool-cases (is_resolved r.status)) [
  | inl y ↦ rw y (record { well = w; forward = omega arith })
  | inr n ↦ rw n (check_due-IsForward clock r r.due_at t refl w n)
]

-- A naive instant is refused, so a successful check is one at an aware instant.
check_sla-inv :
    (clock : Clock) (r q : SlaRecord) (e : Option EscalationEvent) (now : Option Datetime)
    (d : Datetime)
    → or_now clock now ≡ d
    → check_sla clock r now ≡ ok (q, e)
    → (t : ℕ) × ((check_at clock r (aware t)).0 ≡ q)
unfolding check_sla ensure_aware_utc
check_sla-inv clock r q e now (naive t) is done = absurd (cc (rw is at done))
check_sla-inv clock r q e now (aware t) is done = (t, cc (rw is at done))

resolve_sla-at :
    (clock : Clock) (r q : SlaRecord) (date : Option Datetime) (d : Datetime)
    → or_now clock date ≡ d
    → is_resolved r.status ≡ false
    → resolve_sla clock r date ≡ ok q
    → IsForward r q
unfolding resolve_sla ensure_aware_utc
resolve_sla-at clock r q date (naive t) is n done = absurd (cc (rw (n, is) at done))
resolve_sla-at clock r q date (aware t) is n done =
    let same : record r { status = resolved; resolved_at = some (aware t) } ≡ q =
      cc (rw (n, is) at done) in
    subst (IsForward r) same (record { well = ground arith; forward = ground arith })

resolve_sla-IsForward :
    (clock : Clock) (r q : SlaRecord) (date : Option Datetime)
    → IsWell r
    → resolve_sla clock r date ≡ ok q
    → IsForward r q
unfolding resolve_sla
resolve_sla-IsForward clock r q date w done = elim (Bool-cases (is_resolved r.status)) [
  | inl y ↦
      let same : r ≡ q = cc (rw y at done) in
      subst (IsForward r) same (record { well = w; forward = omega arith })
  | inr n ↦ resolve_sla-at clock r q date (or_now clock date) refl n done
]

Update-IsForward : {r q : SlaRecord} → Update r q → IsWell r → IsForward r q
Update-IsForward {r = r} (check clock now q e done) w =
    let (t, same) = check_sla-inv clock r q e now (or_now clock now) refl done in
    subst (IsForward r) same (check_at-IsForward clock r t w)
Update-IsForward {r = r} (resolve clock date q done) w = resolve_sla-IsForward clock r q date w done

IsWell-new_record :
    (a : RiskAssessment) (started : Datetime) (o : Option ℕ) → IsWell (new_record a started o)
IsWell-new_record a started none = refl
IsWell-new_record a started (some n) = refl

IsWell-create_sla :
    (deadlines : Dict (Option ℕ)) (clock : Clock) (a : RiskAssessment) (date : Option Datetime)
    (r : SlaRecord) (d : Datetime)
    → or_now clock date ≡ d
    → create_sla deadlines clock a date ≡ ok r
    → IsWell r
unfolding create_sla ensure_aware_utc
IsWell-create_sla deadlines clock a date r (naive t) is done = absurd (cc (rw is at done))
IsWell-create_sla deadlines clock a date r (aware t) is done =
    let same : new_record a (aware t) (duration_for deadlines a.priority) ≡ r =
      cc (rw is at done) in
    subst IsWell same (IsWell-new_record a (aware t) (duration_for deadlines a.priority))

Life-IsWell : {r : SlaRecord} → Life r → IsWell r
Life-IsWell (create deadlines clock a date r done) =
    IsWell-create_sla deadlines clock a date r (or_now clock date) refl done
Life-IsWell (update life u) = (Update-IsForward u (Life-IsWell life)).well

-- In the life of a record that create_sla made, each successful check or resolution leaves its
-- status, in the order not applicable, active, breached, resolved, where it was or moves it forward.
pub status_moves_forward : (r q : SlaRecord) → Life r → Update r q → rank r.status ≤ rank q.status
status_moves_forward r q life u = (Update-IsForward u (Life-IsWell life)).forward
