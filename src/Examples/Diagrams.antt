-- ===== src/Examples/Diagrams.antt =====
-- Concrete diagrams.
use ballista.Prelude.{true, false, [], ◌∷◌, ◌++◌, All, ◌+◌, ◌≡◌, refl}
use ballista.Text.{Text, codes}
use ballista.Text.Decimal.{decimal}
use ballista.Plan.{ExecutionPlan, operator, unresolved_shuffle, nil, cons, find_unresolved_shuffles}
use ballista.Diagram.{
  DiagramKind, Line, inner_edge, shuffle_edge, build_exec_plan_diagram, produce_diagram,
}
use ballista.Diagram.Numbering.{
  node_count, entity_ids, declared, LineInRange, build_exec_plan_diagram_lem,
}
use ballista.Diagram.Sources.{sources, named_stages, relationships_lem}

abbrev Plan : Type 0
Plan = ExecutionPlan DiagramKind Text

-- A filter over a join of the outputs of stages 1 and 2.
abbrev filtered_join : Plan
filtered_join = operator DiagramKind.filter (
    cons
      (operator DiagramKind.hash_join (
        cons (unresolved_shuffle (1 ∷ []) (codes "l") 2)
          (cons (unresolved_shuffle (2 ∷ []) (codes "r") 2) nil)))
      nil)

filtered_join-inner :
    (build_exec_plan_diagram (λ k. k) true 3 filtered_join 0).0
    ≡ Line.entity 3 0 (codes "FilterExec")
      ∷ Line.entity 3 1 (codes "HashJoinExec")
      ∷ inner_edge 3 1 0
      ∷ []
unfolding build_exec_plan_diagram
filtered_join-inner = refl

filtered_join-between :
    (build_exec_plan_diagram (λ k. k) false 3 filtered_join 0).0
    ≡ shuffle_edge 1 3 1 ∷ shuffle_edge 2 3 1 ∷ []
unfolding build_exec_plan_diagram
filtered_join-between = refl

-- A stage of one scan, whose only node is number 0, and a stage that reads it: the edge is drawn
-- from a node number 1.
one_scan_diagram :
    produce_diagram
      (λ k. k)
      ((1, operator DiagramKind.csv nil)
        ∷ (2, operator DiagramKind.merge (cons (unresolved_shuffle (1 ∷ []) (codes "s") 1) nil))
        ∷ [])
    ≡ codes "digraph G {\n\tsubgraph cluster1 {\n\t\tlabel = \"Stage 1\";\n"
      ++ codes "\t\tstage_1_exec_0 [shape=box, label=\"CsvExec\"];\n\t}\n"
      ++ codes "\tsubgraph cluster2 {\n\t\tlabel = \"Stage 2\";\n"
      ++ codes "\t\tstage_2_exec_0 [shape=box, label=\"MergeExec\"];\n\t}\n"
      ++ codes "\tstage_1_exec_1 -> stage_2_exec_0;\n}"
unfolding produce_diagram decimal
one_scan_diagram = refl

build_exec_plan_diagram_lem_example :
    ((build_exec_plan_diagram (λ k. k) true 3 filtered_join 0).1 ≡ 0)
    × ((build_exec_plan_diagram (λ k. k) true 3 filtered_join 0).2 ≡ 0 + node_count filtered_join)
    × (entity_ids (build_exec_plan_diagram (λ k. k) true 3 filtered_join 0).0
        ≡ declared true 0 (node_count filtered_join))
    × All
        (LineInRange 0 (0 + node_count filtered_join))
        (build_exec_plan_diagram (λ k. k) true 3 filtered_join 0).0
build_exec_plan_diagram_lem_example =
    build_exec_plan_diagram_lem (λ (k : DiagramKind). k) true 3 filtered_join 0

relationships_lem_example :
    sources (build_exec_plan_diagram (λ k. k) false 3 filtered_join 0).0
    ≡ named_stages (find_unresolved_shuffles filtered_join)
relationships_lem_example = relationships_lem (λ (k : DiagramKind). k) 3 0 filtered_join tt
