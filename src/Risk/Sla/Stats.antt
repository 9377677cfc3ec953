-- ===== src/Risk/Sla/Stats.antt =====
-- What a cycle of the evaluator reports of itself.
use multi_stage_agentic_sast.Prelude.{ℕ, select, ◌≡◌, length, ◌+◌, ◌≤◌, List}
use multi_stage_agentic_sast.Risk.Models.{SlaRecord}
use multi_stage_agentic_sast.Risk.Sla.Store.{EvaluationStats}
use multi_stage_agentic_sast.Risk.Sla.{is_active}

abbrev pub active_in : List SlaRecord → ℕ
active_in rs = length (select (λ (r : SlaRecord). is_active r.status) rs)

-- From `n` to `m`, `a` records were checked without an error and `k` were skipped.
record IsCounted (n m : EvaluationStats) (a k : ℕ) : Type 0 where
  inspected : m.inspected ≡ n.inspected
  skipped : m.skipped ≡ n.skipped + k
  errors : m.errors ≡ n.errors
  breached : m.breached ≤ n.breached + a
