-- ===== src/Runs/Service.antt =====
-- backend/app/scan/run_service.py. The scan engine is an argument; a stage body is a function on
-- the run store and the rest of the program's state, which it may change before it raises. The
-- clock, the random ids and `str(exc)` are inputs.
use multi_stage_agentic_sast.Prelude.{
  ℕ, String, Bool, not, Option, none, some, List, [], ◌∷◌, if◌then◌else◌, select, length,
}
use multi_stage_agentic_sast.Prelude.Exec.{Result, ok, err, Exec}
use multi_stage_agentic_sast.Prelude.Dict.{contains}
use multi_stage_agentic_sast.Prelude.Datetime.{Datetime, aware, as_aware_utc}
use multi_stage_agentic_sast.Findings.{CandidateFinding, ScanReport}
use multi_stage_agentic_sast.Findings.Store.{FindingStore, add_report}
use multi_stage_agentic_sast.Runs.Models.{
  pending, running, completed, failed, stage_names, ScanRun, ScanStageRun,
}
use multi_stage_agentic_sast.Runs.Store.{
  RunStore, create_run, update_run, upsert_stage, add_finding_lineage, finding_ids_for_run,
  begin_stage_execution, complete_stage_execution, fail_stage_execution,
}
use multi_stage_agentic_sast.Runs.Reads.{get_run}

-- The instants at which a recorded execution begins and ends, and its random id.
pub record Ticket : Type 0 where
  pub started : ℕ
  pub ended : ℕ
  pub execution_id : String

-- What `error_condition` says of a result: the message of a failure.
abbrev pub verdict_on {ℓ} : {A : Type ℓ} → Option (A → Bool × String) → A → Option String
verdict_on none a = none
verdict_on (some condition) a =
    let (should_fail, message) = condition a in if should_fail then some message else none

-- How an execution that has begun is closed.
unfoldable pub close : Ticket → String → String → Option String → RunStore → RunStore
close k run stage none s = complete_stage_execution run stage k.execution_id (aware k.ended) s
close k run stage (some message) s =
    fail_stage_execution run stage k.execution_id (aware k.ended) message s

-- The error that an execution records.
abbrev pub recorded_error :
    {E A : Type 0} → (E → String) → Option (A → Bool × String) → Result E A → Option String
recorded_error show condition (ok a) = verdict_on condition a
recorded_error show condition (err e) = some (show e)

module _ {W E A : Type 0} (show : E → String) (k : Ticket) (run stage : String) where
  abbrev pub close_with :
      Option (A → Bool × String) → Result E A × (RunStore × W) → Result E A × (RunStore × W)
  close_with condition (r, (s, w)) = (r, (close k run stage (recorded_error show condition r) s, w))

  unfoldable pub record_stage_execution :
      Exec (RunStore × W) E A → Option (A → Bool × String) → Exec (RunStore × W) E A
  record_stage_execution fn condition (s, w) =
      close_with condition
        (fn (begin_stage_execution run stage k.execution_id (aware k.started) s, w))

-- StageContextError, with its status: 404 for the first, 400 for the others.
pub data StageContextError : Type 0 where
  unknown_run : String → StageContextError
  not_produced : String → String → StageContextError
  none_produced : String → List String → StageContextError

abbrev pub status_code : StageContextError → ℕ
status_code (unknown_run run) = 404
status_code (not_produced run finding_id) = 400
status_code (none_produced run finding_ids) = 400

unfoldable pub validate_stage_context :
    String → String → RunStore → Result StageContextError (Unit {0})
validate_stage_context run finding_id s = elim (get_run run s) [
  | none ↦ err (unknown_run run)
  | some r ↦
      if contains finding_id (finding_ids_for_run run s)
      then ok tt
      else err (not_produced run finding_id)
]

-- `if foreign: raise`
abbrev pub refuse_foreign : String → List String → Result StageContextError (Unit {0})
refuse_foreign run [] = ok tt
refuse_foreign run (f ∷ fs) = err (none_produced run (f ∷ fs))

unfoldable pub validate_stage_context_for_findings :
    String → List String → RunStore → Result StageContextError (Unit {0})
validate_stage_context_for_findings run finding_ids s = elim (get_run run s) [
  | none ↦ err (unknown_run run)
  | some r ↦
      refuse_foreign run
        (select (λ (f : String). not (contains f (finding_ids_for_run run s))) finding_ids)
]

-- What execute_scan takes from outside: the run's id and start, the tickets of its two executions,
-- and the instant at which it ends.
pub record ScanEnv : Type 0 where
  pub now : ℕ
  pub scan_run_id : String
  pub prepare_execution_id : String
  pub scan : Ticket
  pub ended : ℕ

abbrev pub new_run : ScanEnv → String → ScanRun
new_run env project = record {
  scan_run_id = env.scan_run_id;
  project_id = project;
  status = running;
  started_at = aware env.now;
  completed_at = none;
  scanned_file_count = none;
  total_findings = none;
  error = none;
  created_at = aware env.now;
}

abbrev pub pending_stage : String → String → ScanStageRun
pending_stage run stage = record {
  scan_run_id = run;
  stage_name = stage;
  status = pending;
  started_at = none;
  completed_at = none;
  error = none;
  execution_count = 0;
  last_execution_at = none;
}

unfoldable pub register_stages : String → List String → RunStore → RunStore
register_stages run [] s = s
register_stages run (n ∷ ns) s = register_stages run ns (upsert_stage (pending_stage run n) s)

-- `_ensure_aware_utc(project_created_at) if project_created_at else now`
abbrev pub prepared_at : ScanEnv → Option Datetime → Datetime
prepared_at env none = aware env.now
prepared_at env (some t) = as_aware_utc t

-- The run as it is recorded up to its SCAN stage.
unfoldable pub open_run : ScanEnv → String → Option Datetime → RunStore → RunStore
unfolding register_stages
open_run env project created_at s =
    let at = prepared_at env created_at in
    let registered =
      register_stages env.scan_run_id stage_names (create_run (new_run env project) s) in
    complete_stage_execution env.scan_run_id "PREPARE" env.prepare_execution_id at
      (begin_stage_execution env.scan_run_id "PREPARE" env.prepare_execution_id at registered)

unfoldable pub add_lineage_of : String → List CandidateFinding → RunStore → RunStore
add_lineage_of run [] s = s
add_lineage_of run (f ∷ fs) s = add_lineage_of run fs (add_finding_lineage run f.id s)

-- _do_scan
abbrev pub do_scan :
    {E : Type 0} → String → Result E ScanReport → Exec (RunStore × FindingStore) E ScanReport
do_scan run (err e) state = (err e, state)
do_scan run (ok report) (s, findings) =
    (ok report, (add_lineage_of run report.findings s, add_report report findings))

-- The run as it ends.
abbrev pub closed_run : ScanEnv → String → Option String → Option ScanReport → ScanRun
closed_run env project error none = record (new_run env project) {
  status = failed;
  completed_at = some (aware env.ended);
  error = error;
}
closed_run env project error (some report) = record (new_run env project) {
  status = completed;
  completed_at = some (aware env.ended);
  scanned_file_count = some report.scanned_file_count;
  total_findings = some (length report.findings);
}

abbrev pub finish_scan :
    {E : Type 0}
    → (E → String)
    → ScanEnv
    → String
    → Result E ScanReport × (RunStore × FindingStore)
    → Result E (ScanRun × ScanReport) × (RunStore × FindingStore)
finish_scan show env project (err e, (s, findings)) =
    (err e, (update_run (closed_run env project (some (show e)) none) s, findings))
finish_scan show env project (ok report, (s, findings)) =
    let run = closed_run env project none (some report) in
    (ok (run, report), (update_run run s, findings))

-- ScanRunService.execute_scan; `result` is what ScanService.scan returns or raises.
unfoldable pub execute_scan :
    {E : Type 0}
    → (E → String)
    → ScanEnv
    → String
    → Result E ScanReport
    → Option Datetime
    → Exec (RunStore × FindingStore) E (ScanRun × ScanReport)
unfolding open_run add_lineage_of record_stage_execution
execute_scan show env project result created_at (s, findings) = finish_scan show env project (
    record_stage_execution show env.scan env.scan_run_id "SCAN" (do_scan env.scan_run_id result)
      none (open_run env project created_at s, findings))
