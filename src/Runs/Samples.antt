-- ===== src/Runs/Samples.antt =====
-- A run with one stage that is executed once: the inputs of the examples below.
use multi_stage_agentic_sast.Runs.Models.{completed}
use multi_stage_agentic_sast.Runs.Counts.{
  create, register, begin, end, here, next, Reach, empty_store, count_is_history_length,
}
use multi_stage_agentic_sast.Prelude.{
  ◌≡◌, Bool, if◌then◌else◌, none, true, ◌∷◌, refl, ◌==◌, String, [],
}
use multi_stage_agentic_sast.Runs.Store.{
  upsert_stage, history, count_of, begin_stage_execution, RunStore, end_stage_execution, create_run,
  stage_record,
}
use multi_stage_agentic_sast.Prelude.Datetime.{aware}
use multi_stage_agentic_sast.Prelude.Dict.{get}
use multi_stage_agentic_sast.Runs.Service.{
  Ticket, ScanEnv, pending_stage, new_run, execute_scan, validate_stage_context, not_produced,
}
use multi_stage_agentic_sast.Prelude.Exec.{Exec, ok, err, Result}
use multi_stage_agentic_sast.Runs.Lookups.{executions_of}
use multi_stage_agentic_sast.Findings.Store.{FindingStore}
use multi_stage_agentic_sast.Findings.{CandidateFinding, ScanReport}
use multi_stage_agentic_sast.Runs.Lineage.{reports, context_is_lineage}
use multi_stage_agentic_sast.Runs.Scans.{findings_of}

abbrev ticket : Ticket
ticket = record { started = 5; ended = 6; execution_id = "x1" }

abbrev env : ScanEnv
env = record { now = 4; scan_run_id = "r1"; prepare_execution_id = "x0"; scan = ticket; ended = 7 }

abbrev created : RunStore
created = create_run (new_run env "p") (empty_store true)

abbrev registered : RunStore
registered = upsert_stage (pending_stage "r1" "SCAN") created

abbrev begun : RunStore
begun = begin_stage_execution "r1" "SCAN" "x1" (aware 5) registered

abbrev ended : RunStore
ended = end_stage_execution completed none "r1" "SCAN" "x1" (aware 6) begun

nothing_recorded : 0 ≡ executions_of "SCAN" (history "r1" created)
unfolding history create_run get
nothing_recorded = refl

ended_reached : Reach (empty_store true) ended
ended_reached =
    next
      (next
        (next (next here (create (new_run env "p")))
          (register (pending_stage "r1" "SCAN") nothing_recorded))
        (begin "r1" "SCAN" "x1" (aware 5)))
      (end completed none "r1" "SCAN" "x1" (aware 6))

count_is_history_length_example :
    count_of (stage_record "r1" "SCAN" ended) ≡ executions_of "SCAN" (history "r1" ended)
count_is_history_length_example = count_is_history_length true ended "r1" "SCAN" ended_reached

-- A stage body that returns "error" and changes nothing.
abbrev body : Exec (RunStore × String) String String
body state = (ok "error", state)

abbrev is_error : String → Bool × String
is_error s = (s == "error", "proof error")

abbrev no_findings : FindingStore
no_findings = record { findings = []; factory = true; writes = [] }

abbrev found : CandidateFinding
found = record {
  id = "f1";
  vulnerability_type = "sql-injection";
  severity = "high";
  confidence = 90;
  source_ref = record { file = "a.py"; line = 1; snippet = "q = request.args"; kind = "web" };
  sink_ref = record { file = "a.py"; line = 2; snippet = "execute(q)"; kind = "sql" };
  taint_path = [];
  evidence = record {
    source_snippet = "q = request.args";
    sink_snippet = "execute(q)";
    taint_path = [];
    relevant_lines = [];
    sanitizer_observations = [];
  };
}

abbrev report : Result String ScanReport
report = ok (record {
  id = "rep";
  created_at = aware 5;
  scanned_file_count = 1;
  findings = found ∷ [];
  function_summaries = [];
  summary = record { total = 1; by_type = ("sql-injection", 1) ∷ [] };
})

no_lineage : get "r1" (empty_store true).lineage ≡ none
unfolding get
no_lineage = refl

context_is_lineage_example :
    validate_stage_context "r1" "f1"
      (execute_scan (λ s. s) env "p" report none (empty_store true, no_findings)).1.0
    ≡ (if reports "f1" (findings_of report) then ok tt else err (not_produced "r1" "f1"))
context_is_lineage_example =
    context_is_lineage (λ s. s) env "p" "f1" report none (empty_store true) no_findings no_lineage
