-- ===== src/Logical/Plans/Reading.antt =====
-- The reading of logical plans, in from_proto.rs of rust/core/src/serde/logical_plan, by the calls
-- of DataFusion's `LogicalPlanBuilder`. A panic is that of `expect` on a missing expression and of
-- the first byte of an empty delimiter.
use ballista.Prelude.{ℕ, suc, List, [], ◌∷◌, ◌++◌, map, Option, none, some, if◌then◌else◌}
use ballista.Text.{Text, codes, text_eq}
use ballista.Text.Decimal.{signed_decimal}
use ballista.Error.{general, Result, ok, err, panicked, required, ◌>>=◌, collect}
use ballista.Server.Files.{FileType_try_from}
use ballista.Logical.Arrow.{Field, Schema, name}
use ballista.Logical.Messages
use ballista.Logical.Messages.{from_i32}
use ballista.Logical.Types.Reading.{Schema_try_into}
use ballista.Logical.Exprs.{Expr, OptionalNode, some_node, no_node}
use ballista.Logical.Exprs.Reading.{Expr_try_from, exprs_of}
use ballista.Logical.Plans.{
  JoinType, Partitioning, LogicalPlanNode, OptionalPlanNode, PartitionMethod, CsvTableScanNode,
  ParquetTableScanNode, CreateExternalTableNode, CsvReadOptions, LogicalPlanBuilder, PlanDebug,
  no_plan_type, csv_scan, parquet_scan, selection, some_plan, no_plan, round_robin_batch,
}

abbrev pub join_types : List JoinType
join_types = JoinType.inner ∷ JoinType.left ∷ JoinType.right ∷ []

abbrev pub missing_field : Text
missing_field = codes "Missing required field in protobuf"

-- `convert_required!` of a schema
abbrev pub required_schema : Option Messages.Schema → Result Schema
required_schema none = err (general missing_field)
required_schema (some schema) = Schema_try_into schema

abbrev pub next_position : Option ℕ → Option ℕ
next_position none = none
next_position (some i) = some (suc i)

-- `fields().iter().position(|field| field.name() == col_name)`
unfoldable pub position : Text → List Field → Option ℕ
position column [] = none
position column (f ∷ fs) =
    let rest = position column fs in if text_eq (name f) column then some 0 else next_position rest

-- `as_bytes()[0]`
abbrev pub first_byte : Text → Result ℕ
first_byte [] = panicked
first_byte (c ∷ text) = ok c

module _ {P : Type 0} (debug : PlanDebug) (builder : LogicalPlanBuilder P) where
  unfoldable pub parquet_column : Schema → Text → Result ℕ
  unfolding position
  parquet_column schema column = required (position column schema.fields) (
      codes "Parquet projection contains column name that is not present in schema. Column name: "
      ++ column
      ++ codes ". Schema columns: "
      ++ debug.texts (map name schema.fields))

  unfoldable pub parquet_scan_of : ParquetTableScanNode → Result P
  unfolding parquet_column Schema_try_into
  parquet_scan_of scan = do
    projection ← indices scan.projection
    builder.scan_parquet scan.path projection 24
    where
      indices : Option (List Text) → Result (Option (List ℕ))
      indices none = ok none
      indices (some columns) = do
        schema ← required_schema scan.schema
        found ← collect (parquet_column schema) columns
        ok (some found)

  unfoldable pub csv_scan_of : CsvTableScanNode → Result P
  unfolding Schema_try_into
  csv_scan_of scan = do
    schema ← required_schema scan.schema
    delimiter ← first_byte scan.delimiter
    projection ← indices schema scan.projection
    builder.scan_csv scan.path (options schema delimiter) projection
    where
      options : Schema → ℕ → CsvReadOptions
      options schema delimiter = record {
        schema = schema;
        delimiter = delimiter;
        file_extension = scan.file_extension;
        has_header = scan.has_header;
      }

      indices : Schema → Option (List Text) → Result (Option (List ℕ))
      indices schema none = ok none
      indices schema (some columns) = do
        found ← collect (builder.index_of schema) columns
        ok (some found)

  unfoldable pub partitioning_of : PartitionMethod → Result Partitioning
  unfolding exprs_of
  partitioning_of (PartitionMethod.hash hash_expr batch_size) = do
    es ← exprs_of debug.exprs hash_expr
    ok (Partitioning.hash es batch_size)
  partitioning_of (PartitionMethod.round_robin batch_size) = ok (round_robin_batch batch_size)

  -- `expect("expression required")`
  abbrev predicate_of : OptionalNode → Result Expr
  predicate_of no_node = panicked
  predicate_of (some_node n) = Expr_try_from debug.exprs n

  unfoldable pub create_external_table_of : CreateExternalTableNode → Result P
  unfolding FileType_try_from Schema_try_into
  create_external_table_of create = do
    pb_schema ← required create.schema (
        codes
          "Protobuf deserialization error, CreateExternalTableNode was missing required field schema.")
    file_type ← FileType_try_from create.file_type
    schema ← Schema_try_into pb_schema
    builder.create_external_table schema create.name create.location file_type create.has_header

  unfoldable mutual
    unfolding parquet_scan_of csv_scan_of partitioning_of create_external_table_of exprs_of
        Expr_try_from

    pub LogicalPlan_try_from : LogicalPlanNode → Result P
    LogicalPlan_try_from no_plan_type = err (
        general (
          codes "logical_plan::from_proto() Unsupported logical plan '"
          ++ debug.empty_node
          ++ codes "'"))
    LogicalPlan_try_from (LogicalPlanNode.projection input expr) = do
      plan ← required_plan input
      es ← exprs_of debug.exprs expr
      builder.project plan es
    LogicalPlan_try_from (selection input expr) = do
      plan ← required_plan input
      predicate ← predicate_of expr
      builder.filter plan predicate
    LogicalPlan_try_from (LogicalPlanNode.aggregate input group_expr aggr_expr) = do
      plan ← required_plan input
      groups ← exprs_of debug.exprs group_expr
      aggrs ← exprs_of debug.exprs aggr_expr
      builder.aggregate plan groups aggrs
    LogicalPlan_try_from (csv_scan scan) = csv_scan_of scan
    LogicalPlan_try_from (parquet_scan scan) = parquet_scan_of scan
    LogicalPlan_try_from (LogicalPlanNode.sort input expr) = do
      plan ← required_plan input
      es ← exprs_of debug.exprs expr
      builder.sort plan es
    LogicalPlan_try_from (LogicalPlanNode.repartition input partition_method) = do
      plan ← required_plan input
      method ← required partition_method (
          codes
            "Protobuf deserialization error, RepartitionNode was missing required field 'partition_method'")
      scheme ← partitioning_of method
      builder.repartition plan scheme
    LogicalPlan_try_from (LogicalPlanNode.empty_relation produce_one_row) =
        builder.empty produce_one_row
    LogicalPlan_try_from (LogicalPlanNode.create_external_table create) =
        create_external_table_of create
    LogicalPlan_try_from (LogicalPlanNode.explain input verbose) = do
      plan ← required_plan input
      builder.explain plan verbose
    LogicalPlan_try_from (LogicalPlanNode.limit input n) = do
      plan ← required_plan input
      builder.limit plan n
    LogicalPlan_try_from (LogicalPlanNode.join left right n left_keys right_keys) = do
      join_type ←
          required (from_i32 join_types n)
            (codes "Received a JoinNode message with unknown JoinType " ++ signed_decimal n)
      l ← required_plan left
      r ← required_plan right
      builder.join l r join_type left_keys right_keys

    -- `convert_box_required!`
    pub required_plan : OptionalPlanNode → Result P
    required_plan no_plan = err (general missing_field)
    required_plan (some_plan n) = LogicalPlan_try_from n
