-- ===== src/Physical/Reading.antt =====
-- The reading of physical plans, in from_proto.rs of rust/core/src/serde/physical_plan, by the calls of
-- DataFusion's physical planner and of its plans' constructors.
use ballista.Prelude.{ℕ, false, not, List, [], ◌∷◌, ◌++◌}
use ballista.Text.{Text, codes}
use ballista.Text.Decimal.{signed_decimal}
use ballista.Error.{general, Result, ok, err, panicked, required, ◌>>=◌, collect}
use ballista.Serde.{PartitionLocation_try_from}
use ballista.Logical.Arrow.{Schema}
use ballista.Logical.Messages.{from_i32}
use ballista.Logical.Types.Reading.{Schema_try_into}
use ballista.Logical.Exprs.{
  Expr, Exprs, ExprType, LogicalExprNode, OptionalNode, expr_node, no_expr_type, some_node, no_node,
  aggregate_function,
}
use ballista.Logical.Exprs.Reading.{Expr_try_from}
use ballista.Logical.Plans.{CsvReadOptions}
use ballista.Logical.Plans.Reading.{join_types, required_schema, missing_field, first_byte}
use ballista.Plan.{AggregateMode}
use ballista.Physical.{
  PhysicalSortExpr, CsvScanExecNode, AggregateNode, PhysicalPlanNode, OptionalPhysicalNode,
  PhysicalDebug, PhysicalBuilder, no_plan_type, some_plan, no_plan,
}

abbrev pub aggregate_modes : List AggregateMode
aggregate_modes = AggregateMode.partial ∷ AggregateMode.final ∷ []

abbrev pub zip {ℓ} : {A B : Type ℓ} → List A → List B → List (A × B)
zip [] bs = []
zip (a ∷ as') [] = []
zip (a ∷ as') (b ∷ bs) = (a, b) ∷ zip as' bs

module _ {P E A : Type 0} (debug : PhysicalDebug) (builder : PhysicalBuilder P E A) where
  unfoldable pub compile_expr : LogicalExprNode → Schema → Result E
  unfolding Expr_try_from
  compile_expr node schema = do
    expr ← Expr_try_from debug.exprs node
    builder.create_physical_expr expr schema

  unfoldable pub compile_named : Schema → LogicalExprNode × Text → Result (E × Text)
  unfolding compile_expr
  compile_named schema pair = do e ← compile_expr pair.0 schema; ok (e, pair.1)

  -- `expr.try_into()` for each aggregate expression, with its name.
  abbrev pub logical_named : LogicalExprNode × Text → Result (Expr × Text)
  logical_named pair = do e ← Expr_try_from debug.exprs pair.0; ok (e, pair.1)

  -- The loop over the aggregate expressions; `args[0]` panics on no arguments.
  unfoldable pub aggregate_of : Schema → Expr × Text → Result A
  aggregate_of schema (aggregate_function fun (Exprs.exprs arg args) distinct, name) = do
    e ← builder.create_physical_expr arg schema
    builder.create_aggregate_expr fun false (e ∷ []) schema name
  aggregate_of schema (aggregate_function fun Exprs.no_exprs distinct, name) = panicked
  aggregate_of schema _ = err (general (codes "Invalid expression for HashAggregateExec"))

  unfoldable pub hash_aggregate_of : P → AggregateNode → Result P
  unfolding compile_named aggregate_of Schema_try_into Expr_try_from
  hash_aggregate_of input node = do
    mode ← required (from_i32 aggregate_modes node.mode) (
        codes "Received a HashAggregateNode message with unknown AggregateMode "
        ++ signed_decimal node.mode)
    group ←
        collect (compile_named (builder.schema input)) (zip node.group_expr node.group_expr_name)
    logical ← collect logical_named (zip node.aggr_expr node.aggr_expr_name)
    input_schema ←
        required node.input_schema (codes "input_schema in HashAggregateNode is missing.")
    physical_schema ← Schema_try_into input_schema
    aggrs ← collect (aggregate_of physical_schema) logical
    builder.hash_aggregate mode group aggrs input physical_schema

  unfoldable pub csv_of : CsvScanExecNode → Result P
  unfolding Schema_try_into
  csv_of scan = do
    schema ← required_schema scan.schema
    delimiter ← first_byte scan.delimiter
    builder.csv scan.path (options schema delimiter) scan.projection 32768
    where
      options : Schema → ℕ → CsvReadOptions
      options schema delimiter = record {
        schema = schema;
        delimiter = delimiter;
        file_extension = scan.file_extension;
        has_header = scan.has_header;
      }

  abbrev sort_operand : OptionalNode → Schema → Result E
  sort_operand no_node schema =
      err (general (codes "physical_plan::from_proto() Unexpected sort expr " ++ debug.node))
  sort_operand (some_node n) schema = compile_expr n schema

  unfoldable pub sort_expr_of : Schema → LogicalExprNode → Result (PhysicalSortExpr E)
  unfolding compile_expr
  sort_expr_of schema no_expr_type =
      err (general (codes "physical_plan::from_proto() Unexpected expr " ++ debug.node))
  sort_expr_of schema (expr_node (ExprType.sort e asc nulls_first)) = do
    expr ← sort_operand e schema
    ok (record { expr = expr; descending = not asc; nulls_first = nulls_first })
  sort_expr_of schema (expr_node t) =
      err (general (codes "physical_plan::from_proto() " ++ debug.node))

  unfoldable mutual
    unfolding compile_expr compile_named hash_aggregate_of csv_of sort_expr_of Schema_try_into
        PartitionLocation_try_from

    pub PhysicalPlan_try_from : PhysicalPlanNode → Result P
    PhysicalPlan_try_from no_plan_type = err (
        general (
          codes "physical_plan::from_proto() Unsupported physical plan '"
          ++ debug.node
          ++ codes "'"))
    PhysicalPlan_try_from (PhysicalPlanNode.projection input expr expr_name) = do
      plan ← required_physical_plan input
      es ← collect (compile_named (builder.schema plan)) (zip expr expr_name)
      builder.projection es plan
    PhysicalPlan_try_from (PhysicalPlanNode.filter input expr) = do
      plan ← required_physical_plan input
      node ← required expr (codes "filter (FilterExecNode) in PhysicalPlanNode is missing.")
      predicate ← compile_expr node (builder.schema plan)
      builder.filter predicate plan
    PhysicalPlan_try_from (PhysicalPlanNode.csv_scan scan) = csv_of scan
    PhysicalPlan_try_from (PhysicalPlanNode.parquet_scan scan) =
        builder.parquet scan.filename scan.projection scan.batch_size scan.num_partitions
    PhysicalPlan_try_from (PhysicalPlanNode.coalesce_batches input n) = do
      plan ← required_physical_plan input
      ok (builder.coalesce_batches plan n)
    PhysicalPlan_try_from (PhysicalPlanNode.merge input) = do
      plan ← required_physical_plan input
      ok (builder.merge plan)
    PhysicalPlan_try_from (PhysicalPlanNode.global_limit input n) = do
      plan ← required_physical_plan input
      ok (builder.global_limit plan n)
    PhysicalPlan_try_from (PhysicalPlanNode.local_limit input n) = do
      plan ← required_physical_plan input
      ok (builder.local_limit plan n)
    PhysicalPlan_try_from (PhysicalPlanNode.hash_aggregate input node) = do
      plan ← required_physical_plan input
      hash_aggregate_of plan node
    PhysicalPlan_try_from (PhysicalPlanNode.hash_join left right on n) = do
      l ← required_physical_plan left
      r ← required_physical_plan right
      join_type ←
          required (from_i32 join_types n)
            (codes "Received a HashJoinNode message with unknown JoinType " ++ signed_decimal n)
      builder.hash_join l r on join_type
    PhysicalPlan_try_from (PhysicalPlanNode.shuffle_reader locations message) = do
      schema ← required_schema message
      partition_location ← collect PartitionLocation_try_from locations
      builder.shuffle_reader partition_location schema
    PhysicalPlan_try_from (PhysicalPlanNode.empty produce_one_row message) = do
      schema ← required_schema message
      ok (builder.empty produce_one_row schema)
    PhysicalPlan_try_from (PhysicalPlanNode.sort input expr) = do
      plan ← required_physical_plan input
      es ← collect (sort_expr_of (builder.schema plan)) expr
      builder.sort es plan
    PhysicalPlan_try_from (PhysicalPlanNode.unresolved query_stage_ids message partition_count) = do
      schema ← required_schema message
      ok (builder.unresolved_shuffle query_stage_ids schema partition_count)

    -- `convert_box_required!`
    pub required_physical_plan : OptionalPhysicalNode → Result P
    required_physical_plan no_plan = err (general missing_field)
    required_physical_plan (some_plan n) = PhysicalPlan_try_from n
