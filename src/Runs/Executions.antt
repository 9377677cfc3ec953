-- ===== src/Runs/Executions.antt =====
-- One recorded execution of a stage: what it leaves of the history and of the stage record.
use multi_stage_agentic_sast.Runs.Models.{failed, completed, RunStatus, ScanStageExecution}
use multi_stage_agentic_sast.Prelude.{
  Bool, refl, ◌==◌, false, any, Option, String, List, some, ◌≡◌, none,
}
use multi_stage_agentic_sast.Runs.Service.{Ticket, close}
use multi_stage_agentic_sast.Prelude.Datetime.{aware}
use multi_stage_agentic_sast.Prelude.Dict.{Dict}
use multi_stage_agentic_sast.Runs.Store.{
  RunStore, end_stage_execution, finish_execution, started_execution,
}
use multi_stage_agentic_sast.Prelude.Exec.{Exec}

-- An execution of the list has this id.
abbrev pub uses : String → List ScanStageExecution → Bool
uses id es = any (λ (e : ScanStageExecution). e.execution_id == id) es

-- No execution of any run has this id; an id is 32 random hex digits.
abbrev pub IsUnused : String → Dict (List ScanStageExecution) → Type 0
IsUnused id d = any (λ (p : String × List ScanStageExecution). uses id p.1) d ≡ false

abbrev pub closed_status : Option String → RunStatus
closed_status none = completed
closed_status (some message) = failed

-- The execution record that an execution leaves.
abbrev pub finished_execution : Ticket → String → String → Option String → ScanStageExecution
finished_execution k run stage error =
    finish_execution (closed_status error) (aware k.ended) error
      (started_execution run stage k.execution_id (aware k.started))

pub close-end :
    (k : Ticket) (run stage : String) (error : Option String) (s : RunStore)
    → close k run stage error s
      ≡ end_stage_execution (closed_status error) error run stage k.execution_id (aware k.ended) s
unfolding close
close-end k run stage none s = refl
close-end k run stage (some message) s = refl

-- A stage body that leaves the records of stages and executions to its caller.
abbrev pub LeavesRecords : {W E A : Type 0} → Exec (RunStore × W) E A → Type 0
LeavesRecords {W = W} fn =
    (s : RunStore) (w : W)
    → ((fn (s, w)).1.0.executions ≡ s.executions) × ((fn (s, w)).1.0.stages ≡ s.stages)
