-- ===== src/Risk/Sla/Evaluator.antt =====
-- One cycle of the background evaluator.
use multi_stage_agentic_sast.Prelude.{
  ◌&&◌, ◌≡◌, refl, inr, ◌∷◌, arith, ◌∙◌, inl, true, List, Bool-cases, length, some, String, ◌||◌,
  Bool, if◌then◌else◌, any, [], ◌==◌, ◌+◌, ℕ, eq_refl, ap,
}
use multi_stage_agentic_sast.Prelude.Sort.{sorted, insert_sorted, text_ltb}
use multi_stage_agentic_sast.Prelude.Dict.{values, Dict, get}
use multi_stage_agentic_sast.Prelude.Datetime.{aware, Datetime}
use multi_stage_agentic_sast.Risk.Sla.Store.{
  evaluate_once, evaluate_records, evaluate_one, RiskStore, EvaluationStats, count_check,
  check_and_persist_sla, get_escalation_events,
}
use multi_stage_agentic_sast.Risk.Sla.{Clock, is_active, is_due}
use multi_stage_agentic_sast.Risk.Models.{SlaRecord, active, breached}
use multi_stage_agentic_sast.Risk.Sla.Escalation.{is_overdue, run_checks, escalated_exactly_once}
use multi_stage_agentic_sast.Risk.Sla.Checks.{IsKeyed, check_step}

-- The checks that the cycle makes of a list of records.
abbrev agenda : ℕ → List SlaRecord → List (String × ℕ)
agenda t [] = []
agenda t (r ∷ rs) = if is_active r.status then (r.finding_id, t) ∷ agenda t rs else agenda t rs

evaluate_records-store :
    (clock : Clock) (t : ℕ) (rs : List SlaRecord) (n : EvaluationStats) (s : RiskStore)
    → (evaluate_records clock (aware t) rs (n, s)).1 ≡ run_checks clock (agenda t rs) s
unfolding evaluate_records evaluate_one
evaluate_records-store clock t [] n s = refl
evaluate_records-store clock t (r ∷ rs) n s = elim (Bool-cases (is_active r.status)) [
  | inl a ↦
      rw (a, evaluate_records, evaluate_one)
        (evaluate_records-store clock t rs
          (count_check (check_and_persist_sla clock r.finding_id (some (aware t)) s).0 n)
          (check_step clock r.finding_id t s))
  | inr i ↦
      rw (i, evaluate_records, evaluate_one)
        (evaluate_records-store clock t rs (record n { skipped = n.skipped + 1 }) s)
]

abbrev listed : String → SlaRecord → Bool
listed f r = r.finding_id == f && is_active r.status

is_overdue-agenda :
    (f : String) (due : Datetime) (t : ℕ) (rs : List SlaRecord)
    → is_overdue f due (agenda t rs) ≡ (any (listed f) rs && is_due due (aware t))
is_overdue-agenda f due t [] = refl
is_overdue-agenda f due t (r ∷ rs) = ground (arith, is_overdue-agenda f due t rs)

any-insert_sorted {ℓ} :
    {A : Type ℓ} (before : A → A → Bool) (p : A → Bool) (x : A) (xs : List A)
    → any p (insert_sorted before x xs) ≡ (p x || any p xs)
unfolding insert_sorted
any-insert_sorted before p x [] = refl
any-insert_sorted before p x (y ∷ ys) = ground (arith, any-insert_sorted before p x ys)

any-sorted {ℓ} :
    {A : Type ℓ} (before : A → A → Bool) (p : A → Bool) (xs : List A)
    → any p (sorted before xs) ≡ any p xs
unfolding sorted
any-sorted before p [] = refl
any-sorted before p (x ∷ xs) =
    any-insert_sorted before p x (sorted before xs) ∙ rw (any-sorted before p xs)

any-values {ℓ} :
    {V : Type ℓ} (p : V → Bool) (d : Dict V) (k : String) (v : V)
    → get k d ≡ some v
    → p v ≡ true
    → any p (values d) ≡ true
unfolding get values
any-values p [] k v g h = cc
any-values p ((j, w) ∷ d) k v g h = ground (arith, any-values p d k v)

-- A cycle at the aware instant `t` over a store whose records stand under their own finding: an
-- active record with a deadline is breached, with one escalation event more, if its deadline is at
-- or before `t`, and else stays active with no event more.
pub evaluation_decides :
    (clock : Clock) (t : ℕ) (s : RiskStore) (f : String) (r : SlaRecord) (due : Datetime)
    → IsKeyed s
    → get f s.sla ≡ some r
    → r.due_at ≡ some due
    → r.status ≡ active
    → let u = (evaluate_once clock (some (aware t)) s).1 in
      (r' : SlaRecord) × (get f u.sla ≡ some r')
      × (r'.status ≡ (if is_due due (aware t) then breached else active))
      × (length (get_escalation_events f u)
          ≡ length (get_escalation_events f s) + (if is_due due (aware t) then 1 else 0))
unfolding evaluate_once
evaluation_decides clock t s f r due keyed found d st =
    let rs = sorted (λ (a b : SlaRecord). text_ltb a.finding_id b.finding_id) (values s.sla) in
    let n : EvaluationStats = record {
      inspected = length rs;
      breached = 0;
      skipped = 0;
      errors = 0;
      at = aware t;
    } in
    let seen =
      any-sorted (λ (a b : SlaRecord). text_ltb a.finding_id b.finding_id) (listed f) (values s.sla)
      ∙ any-values (listed f) s.sla f r found (rw (keyed f r found, eq_refl f, st)) in
    let over = is_overdue-agenda f due t rs ∙ ap (λ (b : Bool). b && is_due due (aware t)) seen in
    let (r', is, status, events) =
      escalated_exactly_once clock (agenda t rs) s f r due keyed found d st in
    rw (evaluate_records-store clock t rs n s) (
      r',
      is,
      status ∙ ap (λ (b : Bool). if b then breached else active) over,
      events ∙ ap (λ (b : Bool). length (get_escalation_events f s) + (if b then 1 else 0)) over,
    )
