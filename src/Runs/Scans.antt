-- ===== src/Runs/Scans.antt =====
-- One execution of the scan route: what execute_scan leaves of its run.
use multi_stage_agentic_sast.Runs.Models.{ScanStageRun, stage_names, ScanRun}
use multi_stage_agentic_sast.Prelude.{
  [], refl, String, eq_refl, ◌∷◌, List, Option, ◌≡◌, none, map, some,
}
use multi_stage_agentic_sast.Prelude.Dict.{Dict, set_item, get, get-set_item}
use multi_stage_agentic_sast.Prelude.Datetime.{Datetime, aware}
use multi_stage_agentic_sast.Runs.Store.{
  ended_stage, RunStore, begun_stage, add_finding_lineage, create_run,
}
use multi_stage_agentic_sast.Runs.Reads.{get_run}
use multi_stage_agentic_sast.Runs.Service.{
  pending_stage, ScanEnv, add_lineage_of, prepared_at, do_scan, execute_scan,
  record_stage_execution, closed_run,
}
use multi_stage_agentic_sast.Runs.Executions.{closed_status, LeavesRecords}
use multi_stage_agentic_sast.Prelude.Exec.{Result, ok, err}
use multi_stage_agentic_sast.Findings.{ScanReport, CandidateFinding}
use multi_stage_agentic_sast.Findings.Store.{FindingStore}

module _ (run : String) where
  -- The stage records after an execution begins, and after it ends.
  abbrev begun_in : String → Datetime → Dict ScanStageRun → Dict ScanStageRun
  begun_in stage started d = set_item stage (begun_stage run stage started (get stage d)) d

  abbrev ended_in : Option String → String → Datetime → Dict ScanStageRun → Dict ScanStageRun
  ended_in error stage ended d =
      set_item stage (ended_stage (closed_status error) error run stage ended (get stage d)) d

  abbrev registered_in : List String → Dict ScanStageRun → Dict ScanStageRun
  registered_in [] d = d
  registered_in (n ∷ ns) d = registered_in ns (set_item n (pending_stage run n) d)

get_run-create_run : (r : ScanRun) (s : RunStore) → get_run r.scan_run_id (create_run r s) ≡ some r
unfolding get_run create_run
get_run-create_run r s =
    rw (get-set_item r.scan_run_id r.scan_run_id r s.runs, eq_refl r.scan_run_id) refl

-- The lists of findings and of errors that a scan brings.
abbrev pub findings_of : {E : Type 0} → Result E ScanReport → List CandidateFinding
findings_of (ok report) = report.findings
findings_of (err e) = []

abbrev pub error_of : {E : Type 0} → (E → String) → Result E ScanReport → Option String
error_of show (ok report) = none
error_of show (err e) = some (show e)

abbrev pub report_of : {E : Type 0} → Result E ScanReport → Option ScanReport
report_of (ok report) = some report
report_of (err e) = none

-- A stage record after one execution.
abbrev pub executed_once : String → String → Option String → Datetime → Datetime → ScanStageRun
executed_once run stage error started ended = record {
  scan_run_id = run;
  stage_name = stage;
  status = closed_status error;
  started_at = some started;
  completed_at = some ended;
  error = error;
  execution_count = 1;
  last_execution_at = some started;
}

-- The stages of a run whose SCAN stage ended with this error.
abbrev pub scanned_stages : ScanEnv → Datetime → Option String → List ScanStageRun
scanned_stages env prepared error =
    executed_once env.scan_run_id "PREPARE" none prepared prepared
    ∷ executed_once env.scan_run_id "SCAN" error (aware env.scan.started) (aware env.scan.ended)
    ∷ map (pending_stage env.scan_run_id)
        ("DEDUPLICATE" ∷ "RISK" ∷ "SLA" ∷ "VALIDATE" ∷ "PROVE" ∷ "APPROVAL" ∷ [])

add_lineage_of-records :
    (run : String) (fs : List CandidateFinding) (s : RunStore)
    → ((add_lineage_of run fs s).executions ≡ s.executions)
      × ((add_lineage_of run fs s).stages ≡ s.stages)
unfolding add_lineage_of add_finding_lineage
add_lineage_of-records run [] s = (refl, refl)
add_lineage_of-records run (f ∷ fs) s =
    add_lineage_of-records run fs (add_finding_lineage run f.id s)

-- The SCAN stage leaves the records of stages and executions alone.
do_scan-LeavesRecords :
    {E : Type 0} (run : String) (result : Result E ScanReport) → LeavesRecords (do_scan run result)
do_scan-LeavesRecords run (ok report) s w = add_lineage_of-records run report.findings s
do_scan-LeavesRecords run (err e) s w = (refl, refl)

module _ {E : Type 0} (show : E → String) (env : ScanEnv) (project : String)
    (created_at : Option Datetime) (s : RunStore) (findings : FindingStore) where
  abbrev at : Datetime
  at = prepared_at env created_at

  abbrev scanned_in : Option String → Dict ScanStageRun → Dict ScanStageRun
  scanned_in error d = ended_in env.scan_run_id error "SCAN" (aware env.scan.ended) (
      begun_in env.scan_run_id "SCAN" (aware env.scan.started) (
        ended_in env.scan_run_id none "PREPARE" at
          (begun_in env.scan_run_id "PREPARE" at (registered_in env.scan_run_id stage_names d))))

  pub run-execute_scan :
      (r : Result E ScanReport)
      → get_run env.scan_run_id (execute_scan show env project r created_at (s, findings)).1.0
        ≡ some (closed_run env project (error_of show r) (report_of r))
  unfolding execute_scan record_stage_execution
  run-execute_scan (ok report) = get_run-create_run (closed_run env project none (some report)) _
  run-execute_scan (err e) = get_run-create_run (closed_run env project (some (show e)) none) _
