-- ===== src/Runs/Lineage.antt =====
-- The lineage of a scan: which findings a stage action may name with the run.
use multi_stage_agentic_sast.Runs.Service.{
  add_lineage_of, validate_stage_context, register_stages, Ticket, open_run, ScanEnv, close,
  pending_stage, execute_scan, new_run, prepared_at, record_stage_execution, closed_run,
  not_produced,
}
use multi_stage_agentic_sast.Prelude.{
  if◌then◌else◌, ◌||◌, ◌≡◌, ◌∙◌, refl, any, inl, Bool-cases, ap, or_empty, ◌++◌, eq_iff, ◌∷◌, none,
  String, Bool, some, Option, [], arith, ◌==◌, eq_refl, inr, List,
}
use multi_stage_agentic_sast.Prelude.Datetime.{aware, Datetime}
use multi_stage_agentic_sast.Prelude.Dict.{Dict, get-set_item, contains, get}
use multi_stage_agentic_sast.Runs.Store.{
  finding_ids_for_run, put_update, end_stage_execution, append_new, begin_stage_execution,
  upsert_stage, add_finding_lineage, create_run, RunStore, append_execution, update_execution,
  update_lists, update_run, finish_execution,
}
use multi_stage_agentic_sast.Runs.Reads.{get_run}
use multi_stage_agentic_sast.Prelude.Exec.{ok, Result, err}
use multi_stage_agentic_sast.Findings.{CandidateFinding, ScanReport}
use multi_stage_agentic_sast.Runs.Models.{
  ScanStageExecution, stage_names, ScanRun, RunStatus, completed,
}
use multi_stage_agentic_sast.Findings.Store.{FindingStore}
use multi_stage_agentic_sast.Runs.Executions.{close-end, closed_status}
use multi_stage_agentic_sast.Runs.Scans.{findings_of, run-execute_scan, error_of, report_of}

contains-snoc :
    (x f : String) (xs : List String) → contains f (xs ++ x ∷ []) ≡ (contains f xs || x == f)
unfolding contains
contains-snoc x f [] = ground arith
contains-snoc x f (y ∷ ys) = ground (arith, contains-snoc x f ys)

contains-append_new :
    (x f : String) (xs : List String) → contains f (append_new x xs) ≡ (contains f xs || x == f)
unfolding append_new
contains-append_new x f xs = elim (Bool-cases (contains x xs)) [
  | inl there ↦ ground (arith, there, eq_iff x f)
  | inr absent ↦ rw absent (contains-snoc x f xs)
]

ids-add_finding_lineage :
    (run x : String) (s : RunStore)
    → finding_ids_for_run run (add_finding_lineage run x s)
      ≡ append_new x (finding_ids_for_run run s)
unfolding finding_ids_for_run add_finding_lineage
ids-add_finding_lineage run x s =
    rw (get-set_item run run (append_new x (or_empty (get run s.lineage))) s.lineage, eq_refl run)
      refl

-- The findings with this id.
abbrev pub reports : String → List CandidateFinding → Bool
reports f = any (λ (c : CandidateFinding). c.id == f)

contains-add_lineage_of :
    (run f : String) (fs : List CandidateFinding) (s : RunStore)
    → contains f (finding_ids_for_run run (add_lineage_of run fs s))
      ≡ (contains f (finding_ids_for_run run s) || reports f fs)
unfolding add_lineage_of
contains-add_lineage_of run f [] s = ground arith
contains-add_lineage_of run f (c ∷ cs) s = ground (
  arith,
  contains-add_lineage_of run f cs (add_finding_lineage run c.id s),
  ids-add_finding_lineage run c.id s,
  contains-append_new c.id f (finding_ids_for_run run s),
)

lineage-put_update :
    (p : Option (Dict (List ScanStageExecution) × ScanStageExecution)) (s : RunStore)
    → (put_update p s).lineage ≡ s.lineage
unfolding put_update
lineage-put_update none s = refl
lineage-put_update (some (d, u)) s = refl

lineage-end :
    (status : RunStatus) (error : Option String) (run stage id : String) (ended : Datetime)
    (s : RunStore)
    → (end_stage_execution status error run stage id ended s).lineage ≡ s.lineage
unfolding end_stage_execution upsert_stage update_execution
lineage-end status error run stage id ended s =
    lineage-put_update (update_lists id (finish_execution status ended error) s.executions) s

lineage-begin :
    (run stage id : String) (started : Datetime) (s : RunStore)
    → (begin_stage_execution run stage id started s).lineage ≡ s.lineage
unfolding begin_stage_execution upsert_stage append_execution
lineage-begin run stage id started s = refl

lineage-register_stages :
    (run : String) (ns : List String) (s : RunStore)
    → (register_stages run ns s).lineage ≡ s.lineage
unfolding register_stages upsert_stage
lineage-register_stages run [] s = refl
lineage-register_stages run (n ∷ ns) s =
    lineage-register_stages run ns (upsert_stage (pending_stage run n) s)

lineage-open_run :
    (env : ScanEnv) (project : String) (created_at : Option Datetime) (s : RunStore)
    → (open_run env project created_at s).lineage ≡ s.lineage
unfolding open_run create_run
lineage-open_run env project created_at s =
    let run = env.scan_run_id in
    let t = register_stages run stage_names (create_run (new_run env project) s) in
    let at = prepared_at env created_at in
    lineage-end completed none run "PREPARE" env.prepare_execution_id at
      (begin_stage_execution run "PREPARE" env.prepare_execution_id at t)
    ∙ lineage-begin run "PREPARE" env.prepare_execution_id at t
    ∙ lineage-register_stages run stage_names (create_run (new_run env project) s)

lineage-close :
    (k : Ticket) (run stage : String) (error : Option String) (s : RunStore)
    → (close k run stage error s).lineage ≡ s.lineage
lineage-close k run stage error s =
    rw (close-end k run stage error s)
      (lineage-end (closed_status error) error run stage k.execution_id (aware k.ended) s)

ids-lineage :
    (run : String) (s t : RunStore)
    → s.lineage ≡ t.lineage
    → finding_ids_for_run run s ≡ finding_ids_for_run run t
unfolding finding_ids_for_run
ids-lineage run s t h = rw h

module _ {E : Type 0} (show : E → String) (env : ScanEnv) (project f : String)
    (created_at : Option Datetime) (s : RunStore) (findings : FindingStore)
    (fresh : get env.scan_run_id s.lineage ≡ none) where
  abbrev begun : RunStore
  begun =
      begin_stage_execution env.scan_run_id "SCAN" env.scan.execution_id (aware env.scan.started)
        (open_run env project created_at s)

  ids-begun : finding_ids_for_run env.scan_run_id begun ≡ []
  ids-begun =
      ids-lineage env.scan_run_id begun s (
        lineage-begin env.scan_run_id "SCAN" env.scan.execution_id (aware env.scan.started)
          (open_run env project created_at s)
        ∙ lineage-open_run env project created_at s)
      ∙ unfold finding_ids_for_run in ap or_empty fresh

  -- Closing the stage and the run keeps the lineage.
  ids-closed :
      (error : Option String) (r : ScanRun) (u : RunStore)
      → finding_ids_for_run env.scan_run_id
          (update_run r (close env.scan env.scan_run_id "SCAN" error u))
        ≡ finding_ids_for_run env.scan_run_id u
  unfolding create_run
  ids-closed error r u =
      let closed = close env.scan env.scan_run_id "SCAN" error u in
      ids-lineage env.scan_run_id (create_run r closed) u
        (lineage-close env.scan env.scan_run_id "SCAN" error u)

  contains-execute_scan :
      (result : Result E ScanReport)
      → contains f (
          finding_ids_for_run env.scan_run_id
            (execute_scan show env project result created_at (s, findings)).1.0)
        ≡ reports f (findings_of result)
  unfolding execute_scan record_stage_execution
  contains-execute_scan (ok report) =
      ap (contains f) (
        ids-closed none (closed_run env project none (some report))
          (add_lineage_of env.scan_run_id report.findings begun))
      ∙ contains-add_lineage_of env.scan_run_id f report.findings begun
      ∙ unfold contains in ap (λ ids. contains f ids || reports f report.findings) ids-begun
  contains-execute_scan (err e) =
      ap (contains f)
        (ids-closed (some (show e)) (closed_run env project (some (show e)) none) begun ∙ ids-begun)
      ∙ unfold contains in refl

validate_stage_context-known :
    (run f : String) (s : RunStore) (r : ScanRun)
    → get_run run s ≡ some r
    → validate_stage_context run f s
      ≡ (if contains f (finding_ids_for_run run s) then ok tt else err (not_produced run f))
unfolding validate_stage_context contains
validate_stage_context-known run f s r h = rw (validate_stage_context, h) refl

-- For a run id that is not in use: after execute_scan, a stage action on a finding with this run is
-- accepted exactly if the scan returned a report that lists the finding, and is refused with status
-- 400 otherwise.
pub context_is_lineage :
    {E : Type 0} (show : E → String) (env : ScanEnv) (project f : String)
    (result : Result E ScanReport) (created_at : Option Datetime) (s : RunStore)
    (findings : FindingStore)
    → get env.scan_run_id s.lineage ≡ none
    → validate_stage_context env.scan_run_id f
        (execute_scan show env project result created_at (s, findings)).1.0
      ≡ (if reports f (findings_of result) then ok tt else err (not_produced env.scan_run_id f))
context_is_lineage show env project f result created_at s findings fresh =
    validate_stage_context-known env.scan_run_id f
      (execute_scan show env project result created_at (s, findings)).1.0
      (closed_run env project (error_of show result) (report_of result))
      (run-execute_scan show env project created_at s findings result)
    ∙ ap (λ (b : Bool). if b then ok tt else err (not_produced env.scan_run_id f))
        (contains-execute_scan show env project f created_at s findings fresh result)
