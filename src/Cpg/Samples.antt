-- ===== src/Cpg/Samples.antt =====
-- A graph with a cycle: the inputs of the examples below.
use multi_stage_agentic_sast.Prelude.{◌≡◌, false, true, refl, String, ℕ, [], ◌∷◌, some, ◌≤◌, ◌⊎◌}
use multi_stage_agentic_sast.Prelude.Dict.{contains}
use multi_stage_agentic_sast.Cpg.{
  dfg_reachability, CodePropertyGraph, walk, dfg_def, EdgeType, CpgEdge, successors, dfg_use,
  dfg_assign_rhs, cfg_seq,
}
use multi_stage_agentic_sast.Prelude.Text.{starts_with}
use multi_stage_agentic_sast.Cpg.Search.{DfgPath, dfg_search_answers}

abbrev edge : String → String → EdgeType → CpgEdge
edge src dst t = record { src = src; dst = dst; edge_type = t }

-- a ⇄ b → c by data flow, and c → d by control flow
abbrev graph : CodePropertyGraph
graph = record {
  project_id = "p";
  nodes = [];
  edges =
      edge "a" "b" dfg_def
      ∷ edge "b" "a" dfg_use
      ∷ edge "b" "c" dfg_assign_rhs
      ∷ edge "c" "d" cfg_seq
      ∷ [];
}

flows_to_c : dfg_reachability graph "a" "c" 10 ≡ some true
unfolding dfg_reachability walk successors contains starts_with
flows_to_c = refl

stops_at_d : dfg_reachability graph "a" "d" 10 ≡ some false
unfolding dfg_reachability walk successors contains starts_with
stops_at_d = refl

dfg_search_answers_example :
    (dfg_reachability graph "a" "c" 10 ≡ some false)
    ⊎ ((dfg_reachability graph "a" "c" 10 ≡ some true)
        × ((n : ℕ) × DfgPath graph "a" "c" n × (n ≤ 10)))
dfg_search_answers_example = dfg_search_answers graph "a" "c" 10
