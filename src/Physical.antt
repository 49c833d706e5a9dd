-- ===== src/Physical.antt =====
-- rust/core/src/serde/physical_plan: DataFusion's physical expressions and plans with what the
-- conversions read of them, the message `PhysicalPlanNode`, and the calls that build a plan.
pub mod Exprs
pub mod Writing
pub mod Reading
pub mod Rebuild
pub mod Lists
pub mod Aggregates
pub mod RoundTrip
use ballista.Prelude.{ℕ, ℤ, Bool, List, Option}
use ballista.Text.{Text}
use ballista.Error.{Result}
use ballista.Proto
use ballista.Plan.{AggregateMode}
use ballista.Serde.{PartitionLocation}
use ballista.Logical.Arrow.{DataType, Schema}
use ballista.Logical.Messages
use ballista.Logical.Scalars.{ScalarValue}
use ballista.Logical.Functions.{Operator, AggregateFunction, ExprDebug}
use ballista.Logical.Exprs.{Expr, LogicalExprNode}
use ballista.Logical.Plans.{JoinType, CsvReadOptions}

-- The expressions that the writer tells by `downcast_ref`; `other_expr` is any other one.
mutual
  pub data PhysicalExpr : Type 0 where
    column : (name : Text) → PhysicalExpr
    binary_expr : (left : PhysicalExpr) (op : Operator) (right : PhysicalExpr) → PhysicalExpr
    case_expr :
        (expr : OptionalPhysicalExpr) (when_then_expr : PhysicalWhens)
        (else_expr : OptionalPhysicalExpr)
        → PhysicalExpr
    not_expr is_null_expr is_not_null_expr : (arg : PhysicalExpr) → PhysicalExpr
    in_list_expr : (expr : PhysicalExpr) (list : PhysicalExprs) (negated : Bool) → PhysicalExpr
    negative_expr : (arg : PhysicalExpr) → PhysicalExpr
    literal : (value : ScalarValue) → PhysicalExpr
    cast_expr : (expr : PhysicalExpr) (cast_type : DataType) → PhysicalExpr
    scalar_function_expr : (name : Text) (args : PhysicalExprs) → PhysicalExpr
    other_expr : PhysicalExpr

  pub data PhysicalExprs : Type 0 where
    no_exprs : PhysicalExprs
    exprs : PhysicalExpr → PhysicalExprs → PhysicalExprs

  pub data OptionalPhysicalExpr : Type 0 where
    some_expr : PhysicalExpr → OptionalPhysicalExpr
    no_expr : OptionalPhysicalExpr

  pub data PhysicalWhens : Type 0 where
    no_whens : PhysicalWhens
    when_then : (when_expr then_expr : PhysicalExpr) → PhysicalWhens → PhysicalWhens

pub data AggregateKind : Type 0 where
  avg sum count other_aggregate : AggregateKind

-- An `AggregateExpr`: its kind, its expressions, and the name of its field or the error.
pub record AggregateExpr : Type 0 where
  pub kind : AggregateKind
  pub expressions : PhysicalExprs
  pub field_name : Result Text

pub record PhysicalSortExpr (E : Type 0) : Type 0 where
  pub expr : E
  pub descending : Bool
  pub nulls_first : Bool

pub record CsvExec : Type 0 where
  pub path : Text
  pub filenames : List Text
  pub schema : Schema
  pub has_header : Bool
  pub delimiter : Option ℕ
  pub file_extension : Text
  pub projection : Option (List ℕ)
  pub batch_size : ℕ

-- The plans that the writer tells by `downcast_ref`; `other_exec` is any other one.
pub data PhysicalPlan : Type 0 where
  projection_exec : (expr : List (PhysicalExpr × Text)) (input : PhysicalPlan) → PhysicalPlan
  filter_exec : (predicate : PhysicalExpr) (input : PhysicalPlan) → PhysicalPlan
  global_limit_exec local_limit_exec : (input : PhysicalPlan) (limit : ℕ) → PhysicalPlan
  hash_join_exec :
      (left right : PhysicalPlan) (on : List (Text × Text)) (join_type : JoinType) → PhysicalPlan
  hash_aggregate_exec :
      (mode : AggregateMode) (group_expr : List (PhysicalExpr × Text))
      (aggr_expr : List AggregateExpr) (input : PhysicalPlan) (input_schema : Schema)
      → PhysicalPlan
  empty_exec : (produce_one_row : Bool) (schema : Schema) → PhysicalPlan
  coalesce_batches_exec : (input : PhysicalPlan) (target_batch_size : ℕ) → PhysicalPlan
  csv_exec : CsvExec → PhysicalPlan
  parquet_exec :
      (partitions : List (List Text)) (projection : List ℕ) (batch_size : ℕ) → PhysicalPlan
  shuffle_reader_exec :
      (partition_location : List PartitionLocation) (schema : Schema) → PhysicalPlan
  merge_exec : (input : PhysicalPlan) → PhysicalPlan
  sort_exec : (input : PhysicalPlan) (expr : List (PhysicalSortExpr PhysicalExpr)) → PhysicalPlan
  unresolved_shuffle_exec :
      (query_stage_ids : List ℕ) (schema : Schema) (partition_count : ℕ) → PhysicalPlan
  other_exec : PhysicalPlan

pub record CsvScanExecNode : Type 0 where
  pub path : Text
  pub projection : List ℕ
  pub schema : Option Messages.Schema
  pub file_extension : Text
  pub has_header : Bool
  pub batch_size : ℕ
  pub delimiter : Text
  pub filename : List Text

pub record ParquetScanExecNode : Type 0 where
  pub filename : List Text
  pub projection : List ℕ
  pub num_partitions : ℕ
  pub batch_size : ℕ

-- `HashAggregateExecNode`, without its input.
pub record AggregateNode : Type 0 where
  pub group_expr : List LogicalExprNode
  pub aggr_expr : List LogicalExprNode
  pub mode : ℤ
  pub group_expr_name : List Text
  pub aggr_expr_name : List Text
  pub input_schema : Option Messages.Schema

-- A node is its `physical_plan_type`, which may be missing; a variant holds the fields of the
-- message of its name.
mutual
  pub data PhysicalPlanNode : Type 0 where
    no_plan_type : PhysicalPlanNode
    parquet_scan : ParquetScanExecNode → PhysicalPlanNode
    csv_scan : CsvScanExecNode → PhysicalPlanNode
    empty : (produce_one_row : Bool) (schema : Option Messages.Schema) → PhysicalPlanNode
    projection :
        (input : OptionalPhysicalNode) (expr : List LogicalExprNode) (expr_name : List Text)
        → PhysicalPlanNode
    global_limit local_limit : (input : OptionalPhysicalNode) (limit : ℕ) → PhysicalPlanNode
    hash_aggregate : (input : OptionalPhysicalNode) → AggregateNode → PhysicalPlanNode
    hash_join :
        (left right : OptionalPhysicalNode) (on : List (Text × Text)) (join_type : ℤ)
        → PhysicalPlanNode
    shuffle_reader :
        (partition_location : List Proto.PartitionLocation) (schema : Option Messages.Schema)
        → PhysicalPlanNode
    sort : (input : OptionalPhysicalNode) (expr : List LogicalExprNode) → PhysicalPlanNode
    coalesce_batches : (input : OptionalPhysicalNode) (target_batch_size : ℕ) → PhysicalPlanNode
    filter : (input : OptionalPhysicalNode) (expr : Option LogicalExprNode) → PhysicalPlanNode
    merge : (input : OptionalPhysicalNode) → PhysicalPlanNode
    unresolved :
        (query_stage_ids : List ℕ) (schema : Option Messages.Schema) (partition_count : ℕ)
        → PhysicalPlanNode

  pub data OptionalPhysicalNode : Type 0 where
    some_plan : PhysicalPlanNode → OptionalPhysicalNode
    no_plan : OptionalPhysicalNode

-- `{:?}` of other types in errors.
pub record PhysicalDebug : Type 0 where
  pub exprs : ExprDebug
  pub expr : Text
  pub aggregate : Text
  pub plan : Text
  pub node : Text

-- DataFusion's physical planner and the constructors of its plans, `P`, over its expressions, `E`,
-- and aggregate expressions, `A`, with the conversions of their errors.
pub record PhysicalBuilder (P E A : Type 0) : Type 0 where
  pub schema : P → Schema
  pub create_physical_expr : Expr → Schema → Result E
  pub create_aggregate_expr : AggregateFunction → Bool → List E → Schema → Text → Result A
  pub projection : List (E × Text) → P → Result P
  pub filter : E → P → Result P
  pub csv : Text → CsvReadOptions → List ℕ → ℕ → Result P
  pub parquet : List Text → List ℕ → (batch_size max_concurrency : ℕ) → Result P
  pub coalesce_batches : P → ℕ → P
  pub merge : P → P
  pub global_limit : P → ℕ → P
  pub local_limit : P → ℕ → P
  pub hash_aggregate : AggregateMode → List (E × Text) → List A → P → Schema → Result P
  pub hash_join : P → P → List (Text × Text) → JoinType → Result P
  pub shuffle_reader : List PartitionLocation → Schema → Result P
  pub empty : Bool → Schema → P
  pub sort : List (PhysicalSortExpr E) → P → Result P
  pub unresolved_shuffle : List ℕ → Schema → ℕ → P
