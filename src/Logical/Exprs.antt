-- ===== src/Logical/Exprs.antt =====
-- Expressions of rust/core/src/serde/logical_plan: DataFusion's `Expr` with the variants that the
-- conversions name, and the message `LogicalExprNode`.
pub mod Writing
pub mod Reading
pub mod ReadBack
pub mod RoundTrip
pub mod Refused
use ballista.Prelude.{ℤ, Bool, List}
use ballista.Text.{Text}
use ballista.Logical.Arrow.{DataType}
use ballista.Logical.Messages.{OptionalArrowType}
use ballista.Logical.Scalars.{ScalarValue, OptionalValue}
use ballista.Logical.Functions.{Operator, AggregateFunction, BuiltinScalarFunction}

-- The functions of a user are left to their names: no conversion looks at them.
mutual
  pub data Expr : Type 0 where
    column : Text → Expr
    alias : Expr → Text → Expr
    literal : ScalarValue → Expr
    binary_expr : (left : Expr) (op : Operator) (right : Expr) → Expr
    aggregate_function : (fun : AggregateFunction) (args : Exprs) (distinct : Bool) → Expr
    scalar_variable : List Text → Expr
    scalar_function : (fun : BuiltinScalarFunction) (args : Exprs) → Expr
    scalar_udf aggregate_udf : (fun : Text) (args : Exprs) → Expr
    not is_null is_not_null : Expr → Expr
    between : (expr : Expr) (negated : Bool) (low high : Expr) → Expr
    case : (expr : OptionalExpr) (when_then_expr : WhenThens) (else_expr : OptionalExpr) → Expr
    cast : (expr : Expr) (data_type : DataType) → Expr
    sort : (expr : Expr) (asc nulls_first : Bool) → Expr
    negative : Expr → Expr
    in_list : (expr : Expr) (list : Exprs) (negated : Bool) → Expr
    wildcard : Expr

  pub data Exprs : Type 0 where
    no_exprs : Exprs
    exprs : Expr → Exprs → Exprs

  pub data OptionalExpr : Type 0 where
    some_expr : Expr → OptionalExpr
    no_expr : OptionalExpr

  pub data WhenThens : Type 0 where
    no_whens : WhenThens
    when_then : (when_expr then_expr : Expr) → WhenThens → WhenThens

-- A variant holds the fields of the message of its name.
mutual
  pub data ExprType : Type 0 where
    column_name : Text → ExprType
    alias : (expr : OptionalNode) (alias : Text) → ExprType
    literal : OptionalValue → ExprType
    binary_expr : (l r : OptionalNode) (op : Text) → ExprType
    aggregate_expr : (aggr_function : ℤ) (expr : OptionalNode) → ExprType
    is_null_expr is_not_null_expr not_expr : (expr : OptionalNode) → ExprType
    between : (expr : OptionalNode) (negated : Bool) (low high : OptionalNode) → ExprType
    case :
        (expr : OptionalNode) (when_then_expr : WhenThenNodes) (else_expr : OptionalNode) → ExprType
    cast : (expr : OptionalNode) (arrow_type : OptionalArrowType) → ExprType
    sort : (expr : OptionalNode) (asc nulls_first : Bool) → ExprType
    negative : (expr : OptionalNode) → ExprType
    in_list : (expr : OptionalNode) (list : Nodes) (negated : Bool) → ExprType
    wildcard : Bool → ExprType
    scalar_function : (fun : ℤ) (expr : Nodes) → ExprType

  pub data LogicalExprNode : Type 0 where
    expr_node : ExprType → LogicalExprNode
    no_expr_type : LogicalExprNode

  pub data OptionalNode : Type 0 where
    some_node : LogicalExprNode → OptionalNode
    no_node : OptionalNode

  pub data Nodes : Type 0 where
    no_nodes : Nodes
    nodes : LogicalExprNode → Nodes → Nodes

  pub data WhenThenNodes : Type 0 where
    no_whens : WhenThenNodes
    when_then : (when_expr then_expr : OptionalNode) → WhenThenNodes → WhenThenNodes
