-- ===== src/Runs/Lookups.antt =====
-- What the reads of the run store return after each of its writes.
use multi_stage_agentic_sast.Prelude.{
  ℕ, String, Bool, true, false, ◌&&◌, Option, none, some, List, [], ◌∷◌, ◌++◌, ◌==◌, ◌≡◌, refl, inl,
  inr, if◌then◌else◌, select, length, or_empty, arith, eq_iff, Bool-cases,
}
use multi_stage_agentic_sast.Prelude.Dict.{Dict, get, set_item, get-set_item}
use multi_stage_agentic_sast.Prelude.Datetime.{Datetime}
use multi_stage_agentic_sast.Runs.Models.{RunStatus, ScanStageRun, ScanStageExecution}
use multi_stage_agentic_sast.Runs.Store.{
  RunStore, stage_record, upsert_stage, stages_of, history, append_execution, update_list,
  update_lists, put_update, update_execution, finish_execution,
}

-- A nested dict after `d.setdefault(k, {})[n] = v`.
get-set_nested {ℓ} :
    {V : Type ℓ} (k n j m : String) (v : V) (d : Dict (Dict V))
    → get m (or_empty (get j (set_item k (set_item n v (or_empty (get k d))) d)))
      ≡ (if k == j && n == m then some v else get m (or_empty (get j d)))
get-set_nested k n j m v d = elim (Bool-cases (k == j)) [
  | inl e ↦ rw (
    get-set_item k j (set_item n v (or_empty (get k d))) d,
    e,
    get-set_item n m v (or_empty (get k d)),
    (eq_iff k j).0 e,
  )
  | inr e ↦ rw (get-set_item k j (set_item n v (or_empty (get k d))) d, e)
]

pub stage_record-upsert_stage :
    (st : ScanStageRun) (run stage : String) (s : RunStore)
    → stage_record run stage (upsert_stage st s) ≡ (
        if st.scan_run_id == run && st.stage_name == stage
        then some st
        else stage_record run stage s)
unfolding stage_record upsert_stage stages_of
stage_record-upsert_stage st run stage s =
    get-set_nested st.scan_run_id st.stage_name run stage st s.stages

pub history-append_execution :
    (e : ScanStageExecution) (run : String) (s : RunStore)
    → history run (append_execution e s)
      ≡ (if e.scan_run_id == run then history run s ++ e ∷ [] else history run s)
unfolding history append_execution
history-append_execution e run s = elim (Bool-cases (e.scan_run_id == run)) [
  | inl q ↦ rw (
    get-set_item e.scan_run_id run (history e.scan_run_id s ++ e ∷ []) s.executions,
    q,
    (eq_iff e.scan_run_id run).0 q,
  )
  | inr q ↦ rw (get-set_item e.scan_run_id run (history e.scan_run_id s ++ e ∷ []) s.executions, q)
]

-- The number of executions of a stage.
abbrev pub executions_of : String → List ScanStageExecution → ℕ
executions_of stage es = length (select (λ (e : ScanStageExecution). e.stage_name == stage) es)

-- What an update leaves of a list or of the lists.
abbrev pub updated_or {ℓ} : {A : Type ℓ} → A → Option (A × ScanStageExecution) → A
updated_or a none = a
updated_or a (some (b, u)) = b

module _ (id : String) (status : RunStatus) (at : Datetime) (error : Option String)
    (stage : String) where
  abbrev finish : ScanStageExecution → ScanStageExecution
  finish = finish_execution status at error

  count_step :
      (e : ScanStageExecution) (es : List ScanStageExecution) (b : Bool)
      (o : Option (List ScanStageExecution × ScanStageExecution))
      → executions_of stage (updated_or es o) ≡ executions_of stage es
      → executions_of stage (
          updated_or (e ∷ es) (
            if b
            then some (finish e ∷ es, finish e)
            else elim o [ none ↦ none | some (es', u) ↦ some (e ∷ es', u) ]))
        ≡ executions_of stage (e ∷ es)
  count_step e es true o h = ground arith
  count_step e es false none h = refl
  count_step e es false (some (es', u)) h = ground (arith, h)

  count-update_list :
      (es : List ScanStageExecution)
      → executions_of stage (updated_or es (update_list id finish es)) ≡ executions_of stage es
  unfolding update_list
  count-update_list [] = refl
  count-update_list (e ∷ es) =
      count_step e es (e.execution_id == id) (update_list id finish es) (count-update_list es)

  counts_step :
      (run k : String) (es : List ScanStageExecution) (d : Dict (List ScanStageExecution))
      (o : Option (List ScanStageExecution × ScanStageExecution))
      (p : Option (Dict (List ScanStageExecution) × ScanStageExecution))
      → executions_of stage (updated_or es o) ≡ executions_of stage es
      → executions_of stage (or_empty (get run (updated_or d p)))
        ≡ executions_of stage (or_empty (get run d))
      → executions_of stage (
          or_empty (
            get run (
              updated_or ((k, es) ∷ d) (elim o [
                | some (es', u) ↦ some ((k, es') ∷ d, u)
                | none ↦ elim p [ none ↦ none | some (d', u) ↦ some ((k, es) ∷ d', u) ]
              ]))))
        ≡ executions_of stage (or_empty (get run ((k, es) ∷ d)))
  unfolding get
  counts_step run k es d (some (es', u)) p h g = elim (Bool-cases (k == run)) [
    | inl e ↦ rw e h
    | inr e ↦ rw e
  ]
  counts_step run k es d none none h g = refl
  counts_step run k es d none (some (d', u)) h g = elim (Bool-cases (k == run)) [
    | inl e ↦ rw e
    | inr e ↦ rw e g
  ]

  count-update_lists :
      (run : String) (d : Dict (List ScanStageExecution))
      → executions_of stage (or_empty (get run (updated_or d (update_lists id finish d))))
        ≡ executions_of stage (or_empty (get run d))
  unfolding update_lists
  count-update_lists run [] = refl
  count-update_lists run ((k, es) ∷ d) =
      counts_step run k es d (update_list id finish es) (update_lists id finish d)
        (count-update_list es) (count-update_lists run d)

  executions-put_update :
      (s : RunStore) (p : Option (Dict (List ScanStageExecution) × ScanStageExecution))
      → (put_update p s).executions ≡ updated_or s.executions p
  unfolding put_update
  executions-put_update s none = refl
  executions-put_update s (some (d, u)) = refl

  pub count-update_execution :
      (run : String) (s : RunStore)
      → executions_of stage (history run (update_execution id status at error s))
        ≡ executions_of stage (history run s)
  unfolding update_execution history
  count-update_execution run s =
      rw (executions-put_update s (update_lists id finish s.executions))
        (count-update_lists run s.executions)

pub stages-put_update :
    (p : Option (Dict (List ScanStageExecution) × ScanStageExecution)) (s : RunStore)
    → (put_update p s).stages ≡ s.stages
unfolding put_update
stages-put_update none s = refl
stages-put_update (some (d, u)) s = refl

pub stage_record-update_execution :
    (id : String) (status : RunStatus) (at : Datetime) (error : Option String) (run stage : String)
    (s : RunStore)
    → stage_record run stage (update_execution id status at error s) ≡ stage_record run stage s
unfolding stage_record update_execution stages_of
stage_record-update_execution id status at error run stage s =
    rw (stages-put_update (update_lists id (finish_execution status at error) s.executions) s)
