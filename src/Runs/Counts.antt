-- ===== src/Runs/Counts.antt =====
-- The life of a run store, and the count of executions that a stage record keeps.
use multi_stage_agentic_sast.Prelude.Dict.{get-pop_all, values, contains, get}
use multi_stage_agentic_sast.Runs.Models.{RunStatus, ScanStageExecution, ScanRun, ScanStageRun}
use multi_stage_agentic_sast.Runs.Store.{
  begin_stage_execution, stage_record, history, end_stage_execution, delete_project_runs, RunStore,
  stages_of, count_of, append_execution, upsert_stage, create_run, add_finding_lineage, clear,
  update_execution, started_execution, begun_stage, ended_stage, update_run,
}
use multi_stage_agentic_sast.Prelude.{
  Bool, ◌≡◌, ◌++◌, ◌+◌, [], ◌==◌, String, refl, if◌then◌else◌, arith, ◌∷◌, Option, List, map,
  Bool-cases, eq_iff, inl, inr, select,
}
use multi_stage_agentic_sast.Prelude.Datetime.{Datetime}
use multi_stage_agentic_sast.Runs.Lookups.{
  executions_of, stage_record-upsert_stage, stage_record-update_execution, history-append_execution,
  count-update_execution,
}

-- One call of a method of the store, by any of the request handlers. The method `upsert_stage`
-- overwrites a stage record with any other; it is called with a record whose count is that of the
-- history, as execute_scan does, which registers pending stages of a run with a new random id.
pub data Step (s : RunStore) : RunStore → Type 0 where
  create : (run : ScanRun) → Step s (create_run run s)
  update : (run : ScanRun) → Step s (update_run run s)
  register :
      (st : ScanStageRun)
      → st.execution_count ≡ executions_of st.stage_name (history st.scan_run_id s)
      → Step s (upsert_stage st s)
  begin :
      (run stage id : String) (started : Datetime)
      → Step s (begin_stage_execution run stage id started s)
  end :
      (status : RunStatus) (error : Option String) (run stage id : String) (ended : Datetime)
      → Step s (end_stage_execution status error run stage id ended s)
  observe : (run finding_id : String) → Step s (add_finding_lineage run finding_id s)
  delete_project : (project : String) → Step s (delete_project_runs project s)
  reset : Step s (clear s)

pub data Reach (s : RunStore) : RunStore → Type 0 where
  here : Reach s s
  next : {t u : RunStore} → Reach s t → Step t u → Reach s u

abbrev pub empty_store : Bool → RunStore
empty_store factory = record {
  runs = [];
  stages = [];
  executions = [];
  lineage = [];
  factory = factory;
  writes = [];
}

abbrev pub IsCounted : RunStore → Type 0
IsCounted s =
    (run stage : String) → count_of (stage_record run stage s) ≡ executions_of stage (history run s)

executions_of-append :
    (stage : String) (es : List ScanStageExecution) (e : ScanStageExecution)
    → executions_of stage (es ++ e ∷ [])
      ≡ executions_of stage es + (if e.stage_name == stage then 1 else 0)
executions_of-append stage [] e = ground arith
executions_of-append stage (x ∷ es) e = ground (arith, executions_of-append stage es e)

history-upsert_stage :
    (st : ScanStageRun) (run : String) (s : RunStore)
    → history run (upsert_stage st s) ≡ history run s
unfolding history upsert_stage
history-upsert_stage st run s = refl

pub stage_record-append_execution :
    (e : ScanStageExecution) (run stage : String) (s : RunStore)
    → stage_record run stage (append_execution e s) ≡ stage_record run stage s
unfolding stage_record append_execution stages_of
stage_record-append_execution e run stage s = refl

IsCounted-begin_stage_execution :
    (run stage id : String) (started : Datetime) (s : RunStore)
    → IsCounted s
    → IsCounted (begin_stage_execution run stage id started s)
unfolding begin_stage_execution
IsCounted-begin_stage_execution run stage id started s h r n =
    let e = started_execution run stage id started in
    let t = append_execution e s in
    let st = begun_stage run stage started (stage_record run stage t) in
    ground (
      arith,
      stage_record-upsert_stage st r n t,
      stage_record-append_execution e r n s,
      stage_record-append_execution e run stage s,
      history-upsert_stage st r t,
      history-append_execution e r s,
      executions_of-append n (history r s) e,
      h r n,
      eq_iff run r,
      eq_iff stage n,
    )

IsCounted-end_stage_execution :
    (status : RunStatus) (error : Option String) (run stage id : String) (ended : Datetime)
    (s : RunStore)
    → IsCounted s
    → IsCounted (end_stage_execution status error run stage id ended s)
unfolding end_stage_execution
IsCounted-end_stage_execution status error run stage id ended s h r n =
    let t = update_execution id status ended error s in
    let st = ended_stage status error run stage ended (stage_record run stage t) in
    ground (
      arith,
      stage_record-upsert_stage st r n t,
      stage_record-update_execution id status ended error r n s,
      stage_record-update_execution id status ended error run stage s,
      history-upsert_stage st r t,
      count-update_execution id status ended error n r s,
      h r n,
      eq_iff run r,
      eq_iff stage n,
    )

IsCounted-upsert_stage :
    (st : ScanStageRun) (s : RunStore)
    → st.execution_count ≡ executions_of st.stage_name (history st.scan_run_id s)
    → IsCounted s
    → IsCounted (upsert_stage st s)
IsCounted-upsert_stage st s same h r n = ground (
  arith,
  stage_record-upsert_stage st r n s,
  history-upsert_stage st r s,
  same,
  h r n,
  eq_iff st.scan_run_id r,
  eq_iff st.stage_name n,
)

IsCounted-delete_project_runs :
    (project : String) (s : RunStore) → IsCounted s → IsCounted (delete_project_runs project s)
unfolding delete_project_runs stage_record stages_of history get
IsCounted-delete_project_runs project s h r n =
    let ids =
      map (λ (q : ScanRun). q.scan_run_id)
        (select (λ (q : ScanRun). q.project_id == project) (values s.runs)) in
    elim (Bool-cases (contains r ids)) [
      | inl b ↦ rw (get-pop_all ids r s.stages, get-pop_all ids r s.executions, b) refl
      | inr b ↦ rw (get-pop_all ids r s.stages, get-pop_all ids r s.executions, b) (h r n)
    ]

Step-IsCounted : {s t : RunStore} → Step s t → IsCounted s → IsCounted t
unfolding create_run add_finding_lineage clear stage_record stages_of history get
Step-IsCounted (create run) h = h
Step-IsCounted (update run) h = h
Step-IsCounted (register st same) h = IsCounted-upsert_stage st _ same h
Step-IsCounted (begin run stage id started) h =
    IsCounted-begin_stage_execution run stage id started _ h
Step-IsCounted (end status error run stage id ended) h =
    IsCounted-end_stage_execution status error run stage id ended _ h
Step-IsCounted (observe run finding_id) h = h
Step-IsCounted (delete_project project) h = IsCounted-delete_project_runs project _ h
Step-IsCounted reset h = λ r n. refl

Reach-IsCounted : {s t : RunStore} → Reach s t → IsCounted s → IsCounted t
Reach-IsCounted here h = h
Reach-IsCounted (next r st) h = Step-IsCounted st (Reach-IsCounted r h)

-- In every store that calls of its methods reach from the empty store, in any order and with any
-- arguments, the execution count of a stage record is the number of executions of that stage in the
-- history of its run. One restriction is on direct calls of `upsert_stage`: the record that is put
-- has the count of the history at that time, as a pending stage of a run without executions has.
pub count_is_history_length :
    (factory : Bool) (s : RunStore) (run stage : String)
    → Reach (empty_store factory) s
    → count_of (stage_record run stage s) ≡ executions_of stage (history run s)
unfolding stage_record stages_of history get
count_is_history_length factory s run stage reach = Reach-IsCounted reach (λ r n. refl) run stage
