-- ===== src/Cpg.antt =====
-- The code property graph of backend/app/prepare/cpg/models.py, and its search for data flow.
pub mod Search
use multi_stage_agentic_sast.Prelude.{
  length, none, Bool, false, String, ◌||◌, leb, Option, select, ◌∷◌, suc, true, ◌==◌, ◌&&◌, List,
  some, map, ◌++◌, [], ℕ, zero,
}
use multi_stage_agentic_sast.Prelude.Text.{starts_with}
use multi_stage_agentic_sast.Prelude.Dict.{contains, get, Dict, set_item}
mod Samples

-- CPGNodeKind
pub data NodeKind : Type 0 where
  file_node module_node class_node function_node block_node statement_node expression_node name_node
        call_node constant_node assignment_node return_node if_node for_node while_node try_node
        with_node import_node decorator_node :
      NodeKind

-- CPGEdgeType
pub data EdgeType : Type 0 where
  ast_child ast_file ast_class ast_function ast_body : EdgeType
  cfg_seq cfg_true cfg_false cfg_loop_body cfg_loop_next cfg_except cfg_final : EdgeType
  dfg_def dfg_use dfg_param dfg_return dfg_call_arg dfg_call_result dfg_assign_rhs : EdgeType

-- The values of the types, which the search asks for.
abbrev pub edge_value : EdgeType → String
edge_value ast_child = "ast_child"
edge_value ast_file = "ast_file"
edge_value ast_class = "ast_class"
edge_value ast_function = "ast_function"
edge_value ast_body = "ast_body"
edge_value cfg_seq = "cfg_seq"
edge_value cfg_true = "cfg_true"
edge_value cfg_false = "cfg_false"
edge_value cfg_loop_body = "cfg_loop_body"
edge_value cfg_loop_next = "cfg_loop_next"
edge_value cfg_except = "cfg_except"
edge_value cfg_final = "cfg_final"
edge_value dfg_def = "dfg_def"
edge_value dfg_use = "dfg_use"
edge_value dfg_param = "dfg_param"
edge_value dfg_return = "dfg_return"
edge_value dfg_call_arg = "dfg_call_arg"
edge_value dfg_call_result = "dfg_call_result"
edge_value dfg_assign_rhs = "dfg_assign_rhs"

-- CPGNode, without the metadata.
pub record CpgNode : Type 0 where
  pub id : String
  pub kind : NodeKind
  pub file : String
  pub line : ℕ
  pub end_line : Option ℕ
  pub name : Option String
  pub label : Option String
  pub ast_type : Option String

-- CPGEdge, without the metadata.
pub record CpgEdge : Type 0 where
  pub src : String
  pub dst : String
  pub edge_type : EdgeType

pub record CodePropertyGraph : Type 0 where
  pub project_id : String
  pub nodes : List CpgNode
  pub edges : List CpgEdge

abbrev node_index : List CpgNode → Dict CpgNode → Dict CpgNode
node_index [] d = d
node_index (n ∷ ns) d = node_index ns (set_item n.id n d)

-- node_by_id: of nodes with one id, the last.
unfoldable pub node_by_id : CodePropertyGraph → String → Option CpgNode
unfolding get set_item
node_by_id g id = get id (node_index g.nodes [])

abbrev pub has_type : Option EdgeType → CpgEdge → Bool
has_type none e = true
has_type (some t) e = edge_value e.edge_type == edge_value t

abbrev pub edges_from : CodePropertyGraph → String → Option EdgeType → List CpgEdge
edges_from g id t = select (λ (e : CpgEdge). e.src == id && has_type t e) g.edges

abbrev pub edges_to : CodePropertyGraph → String → Option EdgeType → List CpgEdge
edges_to g id t = select (λ (e : CpgEdge). e.dst == id && has_type t e) g.edges

abbrev pub is_dfg : CpgEdge → Bool
is_dfg e = starts_with "dfg_" (edge_value e.edge_type)

abbrev pub Queue : Type 0
Queue = List (String × ℕ)

-- What a visited node puts on the queue.
unfoldable pub successors : CodePropertyGraph → String → ℕ → Queue
unfolding starts_with
successors g current depth =
    map (λ (e : CpgEdge). (e.dst, suc depth)) (select is_dfg (edges_from g current none))

-- The loop of dfg_reachability, with fuel; no result where it does not suffice.
unfoldable pub walk : ℕ → CodePropertyGraph → String → ℕ → Queue → List String → Option Bool
unfolding successors contains
walk fuel g target max_depth [] visited = some false
walk zero g target max_depth (c ∷ queue) visited = none
walk (suc fuel) g target max_depth ((current, depth) ∷ queue) visited = elim (current == target) [
  | true ↦ some true
  | false ↦ elim (leb max_depth depth || contains current visited) [
    | true ↦ walk fuel g target max_depth queue visited
    | false ↦ walk fuel g target max_depth (queue ++ successors g current depth) (current ∷ visited)
  ]
]

-- A round of the loop for the source, and one for each edge: a node is expanded once.
abbrev pub enough_fuel : CodePropertyGraph → ℕ
enough_fuel g = suc (length g.edges)

-- dfg_reachability
unfoldable pub dfg_reachability : CodePropertyGraph → String → String → ℕ → Option Bool
unfolding walk
dfg_reachability g source target max_depth =
    walk (enough_fuel g) g target max_depth ((source, 0) ∷ []) []
