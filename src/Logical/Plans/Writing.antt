-- ===== src/Logical/Plans/Writing.antt =====
-- The writing of logical plans, in to_proto.rs of rust/core/src/serde/logical_plan. A panic is that
-- of `unimplemented!` and of a projection on a column that the schema does not have.
use ballista.Prelude.{
  ℕ, ℤ, pos, List, [], ◌∷◌, ◌++◌, map, Option, none, some, ltb, if◌then◌else◌, get_elem?,
}
use ballista.Text.{Text, codes}
use ballista.Error.{general, Result, ok, err, panicked, ◌>>=◌, collect}
use ballista.Serde.{u32}
use ballista.Server.Files.{FileType}
use ballista.Logical.Arrow.{Field, Schema, name}
use ballista.Logical.Types.{Schema_into}
use ballista.Logical.Exprs.{Nodes, some_node}
use ballista.Logical.Exprs.Writing.{LogicalExprNode_try_from, Nodes_try_from}
use ballista.Logical.Plans.{
  JoinType, Partitioning, LogicalPlan, TableProvider, LogicalPlanNode, PartitionMethod, PlanDebug,
  table_scan, filter, extension, df_table_adapter, parquet_table, csv_file, csv_scan, parquet_scan,
  selection, some_plan, round_robin_batch,
}

abbrev pub column_name : Option Field → Result Text
column_name none = panicked
column_name (some f) = ok (name f)

-- `columns.iter().map(|i| schema.field(*i).name()).collect()`
unfoldable pub column_names : Schema → List ℕ → Result (List Text)
column_names schema columns = collect (λ i. column_name (get_elem? schema.fields i)) columns

abbrev pub projection_columns : Schema → Option (List ℕ) → Result (Option (List Text))
projection_columns schema none = ok none
projection_columns schema (some columns) = do names ← column_names schema columns; ok (some names)

-- The table below a `DFTableAdapter`.
unfoldable pub adapted_source : TableProvider → Result TableProvider
adapted_source (df_table_adapter (table_scan table schema source filters projection)) = ok source
adapted_source (df_table_adapter plan) = err (general (codes "Invalid LogicalPlan::TableScan"))
adapted_source source = ok source

-- `std::str::from_utf8` of the one byte: a byte from 128 on is no text.
unfoldable pub delimiter_text : ℕ → Result Text
delimiter_text delimiter =
    if ltb delimiter 128 then ok (delimiter ∷ []) else err (general (codes "Invalid CSV delimiter"))

abbrev pub join_type_number : JoinType → ℤ
join_type_number JoinType.inner = pos 0
join_type_number JoinType.left = pos 1
join_type_number JoinType.right = pos 2

abbrev pub file_type_number : FileType → ℤ
file_type_number FileType.nd_json = pos 0
file_type_number FileType.parquet = pos 1
file_type_number FileType.csv = pos 2

module _ (debug : PlanDebug) where
  unfoldable pub scan_node :
      Text → Schema → TableProvider → Nodes → Option (List Text) → Result LogicalPlanNode
  unfolding delimiter_text Schema_into
  scan_node table_name schema (parquet_table path) filters projection = ok (
      parquet_scan (record {
        table_name = table_name;
        path = path;
        projection = projection;
        schema = some (Schema_into schema);
        filters = filters;
      }))
  scan_node table_name schema (csv_file path delimiter has_header file_extension) filters
        projection =
      do
        text ← delimiter_text delimiter
        ok (
            csv_scan (record {
              table_name = table_name;
              path = path;
              has_header = has_header;
              delimiter = text;
              file_extension = file_extension;
              projection = projection;
              schema = some (Schema_into schema);
              filters = filters;
            }))
  scan_node table_name schema source filters projection =
      err (general (codes "logical plan to_proto unsupported table provider " ++ debug.any))

  unfoldable pub PartitionMethod_try_from : Partitioning → Result PartitionMethod
  unfolding Nodes_try_from
  PartitionMethod_try_from (Partitioning.hash es batch_size) = do
    hash_expr ← Nodes_try_from debug.exprs es
    ok (PartitionMethod.hash hash_expr batch_size)
  PartitionMethod_try_from (round_robin_batch batch_size) =
      ok (PartitionMethod.round_robin batch_size)

  unfoldable pub LogicalPlanNode_try_from : LogicalPlan → Result LogicalPlanNode
  unfolding column_names adapted_source scan_node Nodes_try_from LogicalExprNode_try_from
      Schema_into PartitionMethod_try_from
  LogicalPlanNode_try_from (table_scan table_name schema source filters projection) = do
    table ← adapted_source source
    names ← projection_columns schema projection
    nodes ← Nodes_try_from debug.exprs filters
    scan_node table_name schema table nodes names
  LogicalPlanNode_try_from (LogicalPlan.projection expr input) = do
    plan ← LogicalPlanNode_try_from input
    nodes ← Nodes_try_from debug.exprs expr
    ok (LogicalPlanNode.projection (some_plan plan) nodes)
  LogicalPlanNode_try_from (filter predicate input) = do
    plan ← LogicalPlanNode_try_from input
    node ← LogicalExprNode_try_from debug.exprs predicate
    ok (selection (some_plan plan) (some_node node))
  LogicalPlanNode_try_from (LogicalPlan.aggregate input group_expr aggr_expr) = do
    plan ← LogicalPlanNode_try_from input
    groups ← Nodes_try_from debug.exprs group_expr
    aggrs ← Nodes_try_from debug.exprs aggr_expr
    ok (LogicalPlanNode.aggregate (some_plan plan) groups aggrs)
  LogicalPlanNode_try_from (LogicalPlan.join left right on join_type) = do
    l ← LogicalPlanNode_try_from left
    r ← LogicalPlanNode_try_from right
    ok (
        LogicalPlanNode.join (some_plan l) (some_plan r) (join_type_number join_type)
          (map (λ pair. pair.0) on) (map (λ pair. pair.1) on))
  LogicalPlanNode_try_from (LogicalPlan.limit input n) = do
    plan ← LogicalPlanNode_try_from input
    ok (LogicalPlanNode.limit (some_plan plan) (u32 n))
  LogicalPlanNode_try_from (LogicalPlan.sort input expr) = do
    plan ← LogicalPlanNode_try_from input
    nodes ← Nodes_try_from debug.exprs expr
    ok (LogicalPlanNode.sort (some_plan plan) nodes)
  LogicalPlanNode_try_from (LogicalPlan.repartition input partitioning_scheme) = do
    plan ← LogicalPlanNode_try_from input
    pb_partition_method ← PartitionMethod_try_from partitioning_scheme
    ok (LogicalPlanNode.repartition (some_plan plan) (some pb_partition_method))
  LogicalPlanNode_try_from (LogicalPlan.empty_relation produce_one_row) =
      ok (LogicalPlanNode.empty_relation produce_one_row)
  LogicalPlanNode_try_from
        (LogicalPlan.create_external_table name location file_type has_header schema) =
      ok (
        LogicalPlanNode.create_external_table (record {
          name = name;
          location = location;
          file_type = file_type_number file_type;
          has_header = has_header;
          schema = some (Schema_into schema);
        }))
  LogicalPlanNode_try_from (LogicalPlan.explain verbose plan) = do
    input ← LogicalPlanNode_try_from plan
    ok (LogicalPlanNode.explain (some_plan input) verbose)
  LogicalPlanNode_try_from extension = panicked
