-- ===== src/Diagram.antt =====
-- `produce_diagram` of rust/core/src/utils.rs: query stages as a graph in the language of Graphviz.
-- The file is the text that is written to it.
pub mod Numbering
pub mod Sources
use ballista.Prelude.{ℕ, suc, Bool, true, false, List, [], ◌∷◌, ◌++◌, map}
use ballista.Text.{Text, codes}
use ballista.Text.Decimal.{decimal}
use ballista.Plan.{
  ExecutionPlan, query_stage, shuffle_reader, unresolved_shuffle, operator, Plans, nil, cons,
}

-- The operators of DataFusion that the downcasts tell apart.
pub data DiagramKind : Type 0 where
  hash_aggregate sort projection hash_join parquet csv filter coalesce_batches merge : DiagramKind
  unknown : DiagramKind

unfoldable pub operator_str : DiagramKind → Text
operator_str hash_aggregate = codes "HashAggregateExec"
operator_str sort = codes "SortExec"
operator_str projection = codes "ProjectionExec"
operator_str hash_join = codes "HashJoinExec"
operator_str parquet = codes "ParquetExec"
operator_str csv = codes "CsvExec"
operator_str filter = codes "FilterExec"
operator_str coalesce_batches = codes "CoalesceBatchesExec"
operator_str merge = codes "MergeExec"
operator_str unknown = codes "Unknown"

-- A line about the nodes of a stage: a node, an edge between two of them, and an edge from another
-- stage to one of them.
pub data Line : Type 0 where
  entity : (stage_id node_id : ℕ) (name : Text) → Line
  inner_edge : (stage_id child_id node_id : ℕ) → Line
  shuffle_edge : (from_stage stage_id node_id : ℕ) → Line

node_text : ℕ → ℕ → Text
node_text stage_id node_id = codes "stage_" ++ decimal stage_id ++ codes "_exec_" ++ decimal node_id

unfoldable pub line_text : Line → Text
unfolding decimal node_text
line_text (entity stage_id node_id name) =
    codes "\t\t"
    ++ node_text stage_id node_id
    ++ codes " [shape=box, label=\""
    ++ name
    ++ codes "\"];\n"
line_text (inner_edge stage_id child_id node_id) =
    codes "\t\t"
    ++ node_text stage_id child_id
    ++ codes " -> "
    ++ node_text stage_id node_id
    ++ codes ";\n"
line_text (shuffle_edge from_stage stage_id node_id) =
    codes "\t"
    ++ node_text from_stage 1
    ++ codes " -> "
    ++ node_text stage_id node_id
    ++ codes ";\n"

-- `if draw_entity`
abbrev pub entity_lines : Bool → ℕ → ℕ → Text → List Line
entity_lines true stage_id node_id name = entity stage_id node_id name ∷ []
entity_lines false stage_id node_id name = []

abbrev pub inner_lines : Bool → ℕ → ℕ → ℕ → List Line
inner_lines true stage_id child_id node_id = inner_edge stage_id child_id node_id ∷ []
inner_lines false stage_id child_id node_id = []

abbrev pub shuffle_lines : Bool → ℕ → ℕ → List ℕ → List Line
shuffle_lines true stage_id node_id ids = []
shuffle_lines false stage_id node_id ids = map (λ y. shuffle_edge y stage_id node_id) ids

module _ {Op Schema : Type 0} (kind : Op → DiagramKind) (draw_entity : Bool) (stage_id : ℕ) where
  -- A child of the node `node_id`: the lines and the counter, from what the recursion does on the
  -- child, which is called for any child but an unresolved shuffle.
  unfoldable pub draw_child : ℕ → ExecutionPlan Op Schema → List Line × ℕ × ℕ → ℕ → List Line × ℕ
  draw_child node_id (unresolved_shuffle ids s count) built id =
      (shuffle_lines draw_entity stage_id node_id ids, id)
  draw_child node_id child built id =
      (built.0 ++ inner_lines draw_entity stage_id built.1 node_id, built.2)

  -- The lines, the id of the plan's node, and the counter `id` after them.
  unfoldable mutual
    unfolding operator_str draw_child

    pub build_exec_plan_diagram : ExecutionPlan Op Schema → ℕ → List Line × ℕ × ℕ
    build_exec_plan_diagram (query_stage job stage child) id =
        let (ls, next) = draw_child id child (build_exec_plan_diagram child (suc id)) (suc id) in
        (entity_lines draw_entity stage_id id (codes "QueryStageExec") ++ ls, id, next)
    build_exec_plan_diagram (shuffle_reader locations s) id =
        (entity_lines draw_entity stage_id id (codes "Unknown"), id, suc id)
    build_exec_plan_diagram (unresolved_shuffle ids s count) id =
        (entity_lines draw_entity stage_id id (codes "UnresolvedShuffleExec"), id, suc id)
    build_exec_plan_diagram (operator op inputs) id =
        let (ls, next) = draw_children id inputs (suc id) in
        (entity_lines draw_entity stage_id id (operator_str (kind op)) ++ ls, id, next)

    pub draw_children : ℕ → Plans Op Schema → ℕ → List Line × ℕ
    draw_children node_id nil id = ([], id)
    draw_children node_id (cons p ps) id =
        let (ls, next) = draw_child node_id p (build_exec_plan_diagram p id) id in
        let (rest, last) = draw_children node_id ps next in (ls ++ rest, last)

-- A stage, by its id and its child.
abbrev pub Stage : Type 0 → Type 0 → Type 0
Stage Op Schema = ℕ × ExecutionPlan Op Schema

abbrev lines_text : List Line → Text
lines_text [] = []
lines_text (l ∷ ls) = line_text l ++ lines_text ls

module _ {Op Schema : Type 0} (kind : Op → DiagramKind) where
  abbrev stage_lines : Bool → Stage Op Schema → List Line
  stage_lines draw_entity stage = (build_exec_plan_diagram kind draw_entity stage.0 stage.1 0).0

  abbrev subgraphs : List (Stage Op Schema) → Text
  subgraphs [] = []
  subgraphs (stage ∷ stages) =
      codes "\tsubgraph cluster"
      ++ decimal stage.0
      ++ codes " {\n\t\tlabel = \"Stage "
      ++ decimal stage.0
      ++ codes "\";\n"
      ++ lines_text (stage_lines true stage)
      ++ codes "\t}\n"
      ++ subgraphs stages

  abbrev relationships : List (Stage Op Schema) → Text
  relationships [] = []
  relationships (stage ∷ stages) = lines_text (stage_lines false stage) ++ relationships stages

  unfoldable pub produce_diagram : List (Stage Op Schema) → Text
  unfolding build_exec_plan_diagram line_text decimal
  produce_diagram stages =
      codes "digraph G {\n" ++ subgraphs stages ++ relationships stages ++ codes "}"
