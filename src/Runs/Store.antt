-- ===== src/Runs/Store.antt =====
-- backend/app/scan/run_store.py. What a method sends to the database is the list `writes`, in
-- order; `factory` says whether one is configured. Every `started_at` is aware.
use multi_stage_agentic_sast.Prelude.{
  ℕ, String, Bool, Option, none, some, List, [], ◌∷◌, ◌++◌, map, ◌==◌, ◌+◌, if◌then◌else◌, select,
  send, or_empty,
}
use multi_stage_agentic_sast.Prelude.Dict.{Dict, get, set_item, pop_all, values, contains}
use multi_stage_agentic_sast.Prelude.Datetime.{Datetime}
use multi_stage_agentic_sast.Runs.Models.{
  RunStatus, running, completed, failed, ScanRun, ScanStageRun, ScanStageExecution,
}

-- The row operations on `scan_runs`, `scan_stage_runs`, `scan_findings` and
-- `scan_stage_executions`; a lineage row is added unless it is there.
pub data Write : Type 0 where
  upsert_run : String → ScanRun → Write
  upsert_stage_row : ScanStageRun → Write
  add_lineage_row : String → String → Write
  upsert_execution_row : ScanStageExecution → Write
  delete_runs delete_stages delete_executions delete_lineage : List String → Write
  delete_all_lineage delete_all_executions delete_all_stages delete_all_runs : Write

pub record RunStore : Type 0 where
  pub runs : Dict ScanRun
  pub stages : Dict (Dict ScanStageRun)
  pub executions : Dict (List ScanStageExecution)
  pub lineage : Dict (List String)
  pub factory : Bool
  pub writes : List Write

unfoldable pub create_run : ScanRun → RunStore → RunStore
create_run run s = record s {
  runs = set_item run.scan_run_id run s.runs;
  writes = send s.factory (upsert_run run.scan_run_id run ∷ []) s.writes;
}

abbrev pub update_run : ScanRun → RunStore → RunStore
update_run run s = create_run run s

-- The stage records of a run, by the name of the stage.
unfoldable pub stages_of : String → RunStore → Dict ScanStageRun
stages_of run s = or_empty (get run s.stages)

unfoldable pub upsert_stage : ScanStageRun → RunStore → RunStore
unfolding stages_of
upsert_stage stage s = record s {
  stages =
      set_item stage.scan_run_id (set_item stage.stage_name stage (stages_of stage.scan_run_id s))
        s.stages;
  writes = send s.factory (upsert_stage_row stage ∷ []) s.writes;
}

-- `if finding_id not in ids: ids.append(finding_id)`
unfoldable pub append_new : String → List String → List String
append_new x xs = if contains x xs then xs else xs ++ x ∷ []

unfoldable pub finding_ids_for_run : String → RunStore → List String
finding_ids_for_run run s = or_empty (get run s.lineage)

unfoldable pub add_finding_lineage : String → String → RunStore → RunStore
unfolding append_new finding_ids_for_run
add_finding_lineage run finding_id s = record s {
  lineage = set_item run (append_new finding_id (finding_ids_for_run run s)) s.lineage;
  writes = send s.factory (add_lineage_row run finding_id ∷ []) s.writes;
}

-- _stage
unfoldable pub stage_record : String → String → RunStore → Option ScanStageRun
unfolding stages_of
stage_record run stage s = get stage (stages_of run s)

abbrev pub count_of : Option ScanStageRun → ℕ
count_of none = 0
count_of (some p) = p.execution_count

abbrev pub started_of : Option ScanStageRun → Option Datetime
started_of none = none
started_of (some p) = p.started_at

abbrev pub last_of : Option ScanStageRun → Option Datetime
last_of none = none
last_of (some p) = p.last_execution_at

-- The executions of a run as they are stored, in the order of their starts.
unfoldable pub history : String → RunStore → List ScanStageExecution
history run s = or_empty (get run s.executions)

unfoldable pub append_execution : ScanStageExecution → RunStore → RunStore
unfolding history
append_execution e s = record s {
  executions = set_item e.scan_run_id (history e.scan_run_id s ++ e ∷ []) s.executions;
  writes = send s.factory (upsert_execution_row e ∷ []) s.writes;
}

abbrev pub started_execution : String → String → String → Datetime → ScanStageExecution
started_execution run stage id started = record {
  execution_id = id;
  scan_run_id = run;
  stage_name = stage;
  status = running;
  started_at = started;
  completed_at = none;
  error = none;
}

-- The stage record of an execution that starts, after `previous`.
abbrev pub begun_stage : String → String → Datetime → Option ScanStageRun → ScanStageRun
begun_stage run stage started previous = record {
  scan_run_id = run;
  stage_name = stage;
  status = running;
  started_at = some started;
  completed_at = none;
  error = none;
  execution_count = count_of previous + 1;
  last_execution_at = some started;
}

unfoldable pub begin_stage_execution : String → String → String → Datetime → RunStore → RunStore
begin_stage_execution run stage id started s =
    let t = append_execution (started_execution run stage id started) s in
    upsert_stage (begun_stage run stage started (stage_record run stage t)) t

abbrev pub finish_execution :
    RunStatus → Datetime → Option String → ScanStageExecution → ScanStageExecution
finish_execution status at error e = record e {
  status = status;
  completed_at = some at;
  error = error;
}

-- A list and the member that was replaced in it: the first with this id.
unfoldable pub update_list :
    String
    → (ScanStageExecution → ScanStageExecution)
    → List ScanStageExecution
    → Option (List ScanStageExecution × ScanStageExecution)
update_list id f [] = none
update_list id f (e ∷ es) =
    let rest = update_list id f es in
    if e.execution_id == id
    then some (f e ∷ es, f e)
    else elim rest [ none ↦ none | some (es', u) ↦ some (e ∷ es', u) ]

unfoldable pub update_lists :
    String
    → (ScanStageExecution → ScanStageExecution)
    → Dict (List ScanStageExecution)
    → Option (Dict (List ScanStageExecution) × ScanStageExecution)
unfolding update_list
update_lists id f [] = none
update_lists id f ((run, es) ∷ d) =
    let rest = update_lists id f d in
    elim (update_list id f es) [
      | some (es', u) ↦ some ((run, es') ∷ d, u)
      | none ↦ elim rest [ none ↦ none | some (d', u) ↦ some ((run, es) ∷ d', u) ]
    ]

-- The store with the lists that an update found, or as it was.
unfoldable pub put_update :
    Option (Dict (List ScanStageExecution) × ScanStageExecution) → RunStore → RunStore
put_update none s = s
put_update (some (executions, updated)) s = record s {
  executions = executions;
  writes = send s.factory (upsert_execution_row updated ∷ []) s.writes;
}

-- _update_execution
unfoldable pub update_execution :
    String → RunStatus → Datetime → Option String → RunStore → RunStore
update_execution id status at error s =
    put_update (update_lists id (finish_execution status at error) s.executions) s

abbrev pub ended_stage :
    RunStatus → Option String → String → String → Datetime → Option ScanStageRun → ScanStageRun
ended_stage status error run stage ended previous = record {
  scan_run_id = run;
  stage_name = stage;
  status = status;
  started_at = started_of previous;
  completed_at = some ended;
  error = error;
  execution_count = count_of previous;
  last_execution_at = last_of previous;
}

-- The body that complete_stage_execution and fail_stage_execution share.
unfoldable pub end_stage_execution :
    RunStatus → Option String → String → String → String → Datetime → RunStore → RunStore
end_stage_execution status error run stage id ended s =
    let t = update_execution id status ended error s in
    upsert_stage (ended_stage status error run stage ended (stage_record run stage t)) t

abbrev pub complete_stage_execution : String → String → String → Datetime → RunStore → RunStore
complete_stage_execution run stage id at s = end_stage_execution completed none run stage id at s

abbrev pub fail_stage_execution : String → String → String → Datetime → String → RunStore → RunStore
fail_stage_execution run stage id at error s =
    end_stage_execution failed (some error) run stage id at s

abbrev pub deletions : List String → List Write
deletions [] = []
deletions (k ∷ ks) =
    delete_runs (k ∷ ks)
    ∷ delete_stages (k ∷ ks)
    ∷ delete_executions (k ∷ ks)
    ∷ delete_lineage (k ∷ ks)
    ∷ []

unfoldable pub delete_project_runs : String → RunStore → RunStore
unfolding pop_all values
delete_project_runs project s =
    let ids =
      map (λ (r : ScanRun). r.scan_run_id)
        (select (λ (r : ScanRun). r.project_id == project) (values s.runs)) in
    record s {
      runs = pop_all ids s.runs;
      stages = pop_all ids s.stages;
      executions = pop_all ids s.executions;
      lineage = pop_all ids s.lineage;
      writes = send s.factory (deletions ids) s.writes;
    }

unfoldable pub clear : RunStore → RunStore
clear s = record s {
  runs = [];
  stages = [];
  executions = [];
  lineage = [];
  writes =
      send s.factory
        (delete_all_lineage ∷ delete_all_executions ∷ delete_all_stages ∷ delete_all_runs ∷ [])
        s.writes;
}
