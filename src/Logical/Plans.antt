-- ===== src/Logical/Plans.antt =====
-- Logical plans of rust/core/src/serde/logical_plan: DataFusion's plans with what the conversions
-- read of them, the message `LogicalPlanNode`, and the calls that build a plan.
pub mod Writing
pub mod Reading
pub mod Columns
pub mod Rebuild
pub mod Scans
pub mod RoundTrip
use ballista.Prelude.{ℕ, ℤ, Bool, List, Option}
use ballista.Text.{Text}
use ballista.Error.{Result}
use ballista.Server.Files.{FileType}
use ballista.Logical.Arrow.{Schema}
use ballista.Logical.Messages
use ballista.Logical.Functions.{ExprDebug}
use ballista.Logical.Exprs.{Expr, Exprs, OptionalNode, Nodes}

pub data JoinType : Type 0 where
  inner left right : JoinType

pub data Partitioning : Type 0 where
  hash : Exprs → ℕ → Partitioning
  round_robin_batch : ℕ → Partitioning

-- `schema` is what `source.schema()` returns.
mutual
  pub data LogicalPlan : Type 0 where
    table_scan :
        (table_name : Text) (schema : Schema) (source : TableProvider) (filters : Exprs)
        (projection : Option (List ℕ))
        → LogicalPlan
    projection : (expr : Exprs) (input : LogicalPlan) → LogicalPlan
    filter : (predicate : Expr) (input : LogicalPlan) → LogicalPlan
    aggregate : (input : LogicalPlan) (group_expr aggr_expr : Exprs) → LogicalPlan
    join : (left right : LogicalPlan) (on : List (Text × Text)) (join_type : JoinType) → LogicalPlan
    limit : (input : LogicalPlan) (n : ℕ) → LogicalPlan
    sort : (input : LogicalPlan) (expr : Exprs) → LogicalPlan
    repartition : (input : LogicalPlan) (partitioning_scheme : Partitioning) → LogicalPlan
    empty_relation : (produce_one_row : Bool) → LogicalPlan
    create_external_table :
        (name location : Text) (file_type : FileType) (has_header : Bool) (schema : Schema)
        → LogicalPlan
    explain : (verbose : Bool) (plan : LogicalPlan) → LogicalPlan
    extension : LogicalPlan

  -- What a table is downcast to; `other_table` is any other provider.
  pub data TableProvider : Type 0 where
    df_table_adapter : LogicalPlan → TableProvider
    parquet_table : (path : Text) → TableProvider
    csv_file :
        (path : Text) (delimiter : ℕ) (has_header : Bool) (file_extension : Text) → TableProvider
    other_table : TableProvider

pub record CsvTableScanNode : Type 0 where
  pub table_name : Text
  pub path : Text
  pub has_header : Bool
  pub delimiter : Text
  pub file_extension : Text
  pub projection : Option (List Text)
  pub schema : Option Messages.Schema
  pub filters : Nodes

pub record ParquetTableScanNode : Type 0 where
  pub table_name : Text
  pub path : Text
  pub projection : Option (List Text)
  pub schema : Option Messages.Schema
  pub filters : Nodes

pub data PartitionMethod : Type 0 where
  round_robin : ℕ → PartitionMethod
  hash : (hash_expr : Nodes) (batch_size : ℕ) → PartitionMethod

pub record CreateExternalTableNode : Type 0 where
  pub name : Text
  pub location : Text
  pub file_type : ℤ
  pub has_header : Bool
  pub schema : Option Messages.Schema

-- A node is its `logical_plan_type`, which may be missing; a variant holds the fields of the
-- message of its name.
mutual
  pub data LogicalPlanNode : Type 0 where
    no_plan_type : LogicalPlanNode
    csv_scan : CsvTableScanNode → LogicalPlanNode
    parquet_scan : ParquetTableScanNode → LogicalPlanNode
    projection : (input : OptionalPlanNode) (expr : Nodes) → LogicalPlanNode
    selection : (input : OptionalPlanNode) (expr : OptionalNode) → LogicalPlanNode
    limit : (input : OptionalPlanNode) (limit : ℕ) → LogicalPlanNode
    aggregate : (input : OptionalPlanNode) (group_expr aggr_expr : Nodes) → LogicalPlanNode
    join :
        (left right : OptionalPlanNode) (join_type : ℤ)
        (left_join_column right_join_column : List Text)
        → LogicalPlanNode
    sort : (input : OptionalPlanNode) (expr : Nodes) → LogicalPlanNode
    repartition :
        (input : OptionalPlanNode) (partition_method : Option PartitionMethod) → LogicalPlanNode
    empty_relation : (produce_one_row : Bool) → LogicalPlanNode
    create_external_table : CreateExternalTableNode → LogicalPlanNode
    explain : (input : OptionalPlanNode) (verbose : Bool) → LogicalPlanNode

  pub data OptionalPlanNode : Type 0 where
    some_plan : LogicalPlanNode → OptionalPlanNode
    no_plan : OptionalPlanNode

-- `CsvReadOptions`
pub record CsvReadOptions : Type 0 where
  pub schema : Schema
  pub delimiter : ℕ
  pub file_extension : Text
  pub has_header : Bool

-- DataFusion's `LogicalPlanBuilder`, each call with the `build()` after it and the conversion of
-- its error, and the plan of an external table, whose schema is converted to a `DFSchema`;
-- `index_of` is Arrow's `Schema::index_of`.
pub record LogicalPlanBuilder (P : Type 0) : Type 0 where
  pub project : P → Exprs → Result P
  pub filter : P → Expr → Result P
  pub aggregate : P → (group_expr aggr_expr : Exprs) → Result P
  pub scan_csv : (path : Text) → CsvReadOptions → (projection : Option (List ℕ)) → Result P
  pub scan_parquet :
      (path : Text) → (projection : Option (List ℕ)) → (max_concurrency : ℕ) → Result P
  pub sort : P → Exprs → Result P
  pub repartition : P → Partitioning → Result P
  pub empty : (produce_one_row : Bool) → Result P
  pub create_external_table : Schema → (name location : Text) → FileType → Bool → Result P
  pub explain : P → (verbose : Bool) → Result P
  pub limit : P → ℕ → Result P
  pub join : (left right : P) → JoinType → (left_keys right_keys : List Text) → Result P
  pub index_of : Schema → Text → Result ℕ

-- `{:?}` of other types in errors; `any` is that of a `dyn Any`.
pub record PlanDebug : Type 0 where
  pub exprs : ExprDebug
  pub empty_node : Text
  pub any : Text
  pub texts : List Text → Text
