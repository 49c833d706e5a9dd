-- ===== src/Physical/Writing.antt =====
-- The writing of physical plans, in to_proto.rs of rust/core/src/serde/physical_plan. A panic is that
-- of `expressions[0]` on an aggregate function of no expressions.
use ballista.Prelude.{ℤ, pos, not, List, [], ◌∷◌, ◌++◌, map, some, length}
use ballista.Text.{Text, codes}
use ballista.Error.{general, not_implemented, Result, ok, err, panicked, required, ◌>>=◌, collect}
use ballista.Serde.{u32, PartitionLocation_try_into}
use ballista.Logical.Arrow.{Schema}
use ballista.Logical.Types.{Schema_into}
use ballista.Logical.Functions.{AggregateFunction, BuiltinScalarFunction, aggregate_function_number}
use ballista.Logical.Exprs.{ExprType, LogicalExprNode, Nodes, expr_node, some_node, no_nodes, nodes}
use ballista.Logical.Plans.Writing.{delimiter_text, join_type_number}
use ballista.Plan.{AggregateMode}
use ballista.Physical.{
  PhysicalExpr, AggregateKind, AggregateExpr, PhysicalSortExpr, CsvExec, PhysicalPlan,
  AggregateNode, PhysicalPlanNode, PhysicalDebug, other_aggregate, projection_exec, filter_exec,
  global_limit_exec, local_limit_exec, hash_join_exec, hash_aggregate_exec, empty_exec,
  coalesce_batches_exec, csv_exec, parquet_exec, shuffle_reader_exec, merge_exec, sort_exec,
  unresolved_shuffle_exec, other_exec, some_plan,
}
use ballista.Physical.Exprs.{PhysicalExpr_try_into, exprs_try_into}

abbrev pub aggregate_mode_number : AggregateMode → ℤ
aggregate_mode_number AggregateMode.partial = pos 0
aggregate_mode_number AggregateMode.final = pos 1

-- `expressions[0]`
abbrev pub first_node : Nodes → Result LogicalExprNode
first_node no_nodes = panicked
first_node (nodes n ns) = ok n

-- `flat_map` of the partitions' file names
abbrev pub all_filenames : List (List Text) → List Text
all_filenames [] = []
all_filenames (part ∷ parts) = part ++ all_filenames parts

unfoldable pub csv_scan_node : CsvExec → Result PhysicalPlanNode
unfolding delimiter_text Schema_into
csv_scan_node exec = do
  delimiter ← required exec.delimiter (codes "Delimeter is not set for CsvExec")
  text ← delimiter_text delimiter
  projection ← required exec.projection (codes "projection in CsvExec dosn not exist.")
  ok (
      PhysicalPlanNode.csv_scan (record {
        path = exec.path;
        projection = map u32 projection;
        schema = some (Schema_into exec.schema);
        file_extension = exec.file_extension;
        has_header = exec.has_header;
        batch_size = 32768;
        delimiter = text;
        filename = exec.filenames;
      }))

module _ (debug : PhysicalDebug) (from_str : Text → Result BuiltinScalarFunction) where
  unfoldable pub aggregate_function_of : AggregateKind → Result AggregateFunction
  aggregate_function_of AggregateKind.avg = ok AggregateFunction.avg
  aggregate_function_of AggregateKind.sum = ok AggregateFunction.sum
  aggregate_function_of AggregateKind.count = ok AggregateFunction.count
  aggregate_function_of other_aggregate =
      err (not_implemented (codes "Aggregate function not supported: " ++ debug.aggregate))

  unfoldable pub AggregateExpr_try_into : AggregateExpr → Result LogicalExprNode
  unfolding aggregate_function_of exprs_try_into
  AggregateExpr_try_into e = do
    fun ← aggregate_function_of e.kind
    expressions ← exprs_try_into debug from_str e.expressions
    first ← first_node expressions
    ok (expr_node (ExprType.aggregate_expr (aggregate_function_number fun) (some_node first)))

  unfoldable pub sort_node : PhysicalSortExpr PhysicalExpr → Result LogicalExprNode
  unfolding PhysicalExpr_try_into
  sort_node e = do
    n ← PhysicalExpr_try_into debug from_str e.expr
    ok (expr_node (ExprType.sort (some_node n) (not e.descending) e.nulls_first))

  abbrev pub named_node : PhysicalExpr × Text → Result LogicalExprNode
  named_node e = PhysicalExpr_try_into debug from_str e.0

  unfoldable pub aggregate_node :
      AggregateMode
      → List (PhysicalExpr × Text)
      → List AggregateExpr
      → Schema
      → Result AggregateNode
  unfolding AggregateExpr_try_into Schema_into PhysicalExpr_try_into
  aggregate_node mode group_expr aggr_expr input_schema = do
    groups ← collect named_node group_expr
    agg ← collect AggregateExpr_try_into aggr_expr
    agg_names ← collect (λ (e : AggregateExpr). e.field_name) aggr_expr
    ok (record {
      group_expr = groups;
      aggr_expr = agg;
      mode = aggregate_mode_number mode;
      group_expr_name = map (λ e. e.1) group_expr;
      aggr_expr_name = agg_names;
      input_schema = some (Schema_into input_schema);
    })

  unfoldable pub PhysicalPlanNode_try_from : PhysicalPlan → Result PhysicalPlanNode
  unfolding PhysicalExpr_try_into sort_node aggregate_node csv_scan_node Schema_into
      PartitionLocation_try_into
  PhysicalPlanNode_try_from (projection_exec expr input) = do
    plan ← PhysicalPlanNode_try_from input
    es ← collect named_node expr
    ok (PhysicalPlanNode.projection (some_plan plan) es (map (λ e. e.1) expr))
  PhysicalPlanNode_try_from (filter_exec predicate input) = do
    plan ← PhysicalPlanNode_try_from input
    e ← PhysicalExpr_try_into debug from_str predicate
    ok (PhysicalPlanNode.filter (some_plan plan) (some e))
  PhysicalPlanNode_try_from (global_limit_exec input limit) = do
    plan ← PhysicalPlanNode_try_from input
    ok (PhysicalPlanNode.global_limit (some_plan plan) (u32 limit))
  PhysicalPlanNode_try_from (local_limit_exec input limit) = do
    plan ← PhysicalPlanNode_try_from input
    ok (PhysicalPlanNode.local_limit (some_plan plan) (u32 limit))
  PhysicalPlanNode_try_from (hash_join_exec left right on join_type) = do
    l ← PhysicalPlanNode_try_from left
    r ← PhysicalPlanNode_try_from right
    ok (PhysicalPlanNode.hash_join (some_plan l) (some_plan r) on (join_type_number join_type))
  PhysicalPlanNode_try_from (hash_aggregate_exec mode group_expr aggr_expr input input_schema) = do
    node ← aggregate_node mode group_expr aggr_expr input_schema
    plan ← PhysicalPlanNode_try_from input
    ok (PhysicalPlanNode.hash_aggregate (some_plan plan) node)
  PhysicalPlanNode_try_from (empty_exec produce_one_row schema) =
      ok (PhysicalPlanNode.empty produce_one_row (some (Schema_into schema)))
  PhysicalPlanNode_try_from (coalesce_batches_exec input target_batch_size) = do
    plan ← PhysicalPlanNode_try_from input
    ok (PhysicalPlanNode.coalesce_batches (some_plan plan) (u32 target_batch_size))
  PhysicalPlanNode_try_from (csv_exec exec) = csv_scan_node exec
  PhysicalPlanNode_try_from (parquet_exec partitions projection batch_size) = ok (
      PhysicalPlanNode.parquet_scan (record {
        filename = all_filenames partitions;
        projection = map u32 projection;
        num_partitions = u32 (length partitions);
        batch_size = u32 batch_size;
      }))
  PhysicalPlanNode_try_from (shuffle_reader_exec partition_location schema) = do
    locations ← collect PartitionLocation_try_into partition_location
    ok (PhysicalPlanNode.shuffle_reader locations (some (Schema_into schema)))
  PhysicalPlanNode_try_from (merge_exec input) = do
    plan ← PhysicalPlanNode_try_from input
    ok (PhysicalPlanNode.merge (some_plan plan))
  PhysicalPlanNode_try_from (sort_exec input expr) = do
    plan ← PhysicalPlanNode_try_from input
    es ← collect sort_node expr
    ok (PhysicalPlanNode.sort (some_plan plan) es)
  PhysicalPlanNode_try_from (unresolved_shuffle_exec query_stage_ids schema partition_count) = ok (
      PhysicalPlanNode.unresolved (map u32 query_stage_ids) (some (Schema_into schema))
        (u32 partition_count))
  PhysicalPlanNode_try_from other_exec =
      err (general (codes "physical plan to_proto unsupported plan " ++ debug.plan))
