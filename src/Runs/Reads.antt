-- ===== src/Runs/Reads.antt =====
-- The reads of backend/app/scan/run_store.py.
use multi_stage_agentic_sast.Prelude.{
  ◌==◌, if◌then◌else◌, none, List, Bool, some, select, ltb, Option, ◌∷◌, String, [],
}
use multi_stage_agentic_sast.Runs.Store.{RunStore, stages_of, history}
use multi_stage_agentic_sast.Prelude.Dict.{get, Dict, values, contains}
use multi_stage_agentic_sast.Prelude.Datetime.{instant, as_aware_utc}
use multi_stage_agentic_sast.Prelude.Sort.{sorted}
use multi_stage_agentic_sast.Runs.Models.{ScanRun, ScanStageRun, ScanStageExecution, stage_names}

unfoldable pub get_run : String → RunStore → Option ScanRun
get_run run s = get run s.runs

-- a is listed before b, newest first
abbrev pub newer : ScanRun → ScanRun → Bool
newer a b = ltb (instant b.started_at) (instant a.started_at)

unfoldable pub runs_for_project : String → RunStore → List ScanRun
unfolding values
runs_for_project project s =
    sorted newer (select (λ (r : ScanRun). r.project_id == project) (values s.runs))

-- `[self._runs[k] for k, ids in self._lineage.items() if finding_id in ids]`; none: a KeyError
unfoldable pub runs_listed : String → Dict ScanRun → Dict (List String) → Option (List ScanRun)
runs_listed finding_id runs [] = some []
runs_listed finding_id runs ((k, ids) ∷ d) =
    let rest = runs_listed finding_id runs d in
    if contains finding_id ids
    then elim (get k runs) [
      | none ↦ none
      | some r ↦ elim rest [ none ↦ none | some rs ↦ some (r ∷ rs) ]
    ]
    else rest

unfoldable pub runs_for_finding : String → RunStore → Option (List ScanRun)
unfolding runs_listed
runs_for_finding finding_id s = elim (runs_listed finding_id s.runs s.lineage) [
  | none ↦ none
  | some rs ↦ some (sorted newer rs)
]

-- `[stages[name] for name in STAGE_NAMES if name in stages]`
unfoldable pub in_order : List String → Dict ScanStageRun → List ScanStageRun
in_order [] d = []
in_order (n ∷ ns) d =
    let rest = in_order ns d in elim (get n d) [ none ↦ rest | some st ↦ st ∷ rest ]

unfoldable pub stages_for_run : String → RunStore → List ScanStageRun
unfolding in_order stages_of
stages_for_run run s = in_order stage_names (stages_of run s)

unfoldable pub executions_for_run : String → RunStore → List ScanStageExecution
unfolding history
executions_for_run run s =
    sorted
      (λ (a b : ScanStageExecution).
        ltb (instant (as_aware_utc a.started_at)) (instant (as_aware_utc b.started_at)))
      (history run s)
