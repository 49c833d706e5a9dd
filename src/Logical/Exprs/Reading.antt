-- ===== src/Logical/Exprs/Reading.antt =====
-- The reading of expressions, in from_proto.rs of rust/core/src/serde/logical_plan. `sqrt(e)` and
-- DataFusion's other functions of this form are the function's expression with the one argument
-- `e`; a panic is that of `expr[0]` on no arguments.
use ballista.Prelude.{false, ◌++◌}
use ballista.Text.{codes}
use ballista.Text.Decimal.{signed_decimal}
use ballista.Error.{general, Result, ok, err, panicked, required, ◌>>=◌}
use ballista.Logical.Arrow.{DataType}
use ballista.Logical.Messages.{OptionalArrowType, some_type, no_type, from_i32}
use ballista.Logical.Types.Reading.{ArrowType_try_into}
use ballista.Logical.Scalars.Reading.{ScalarValue_try_into}
use ballista.Logical.Functions.{
  ExprDebug, scalar_functions, aggregate_functions, function_read, from_proto_binary_op,
}
use ballista.Logical.Exprs.{
  Expr, Exprs, OptionalExpr, WhenThens, ExprType, LogicalExprNode, OptionalNode, Nodes,
  WhenThenNodes, column, not, is_null, is_not_null, no_exprs, exprs, some_expr, no_expr,
  aggregate_function, aggregate_expr, column_name, expr_node, no_expr_type, some_node, no_node,
  is_null_expr, is_not_null_expr, not_expr, no_nodes, nodes,
}

abbrev cast_type : OptionalArrowType → Result DataType
cast_type no_type = err (
    general (
      codes "Protobuf deserialization error: CastNode message missing required field 'arrow_type'"))
cast_type (some_type t) = ArrowType_try_into t

module _ (debug : ExprDebug) where
  unfoldable mutual
    unfolding ArrowType_try_into ScalarValue_try_into function_read from_proto_binary_op

    pub Expr_try_from : LogicalExprNode → Result Expr
    Expr_try_from no_expr_type = err (general (codes "Unexpected empty logical expression"))
    Expr_try_from (expr_node t) = expr_of t

    pub expr_of : ExprType → Result Expr
    expr_of (ExprType.binary_expr l r op) = do
      left ← parse_required_expr l
      operator ← from_proto_binary_op debug op
      right ← parse_required_expr r
      ok (Expr.binary_expr left operator right)
    expr_of (column_name name) = ok (column name)
    expr_of (ExprType.literal value) = do
      scalar_value ← ScalarValue_try_into value
      ok (Expr.literal scalar_value)
    expr_of (aggregate_expr n e) = do
      fun ←
          required (from_i32 aggregate_functions n)
            (codes "Received an unknown aggregate function: " ++ signed_decimal n)
      arg ← parse_required_expr e
      ok (aggregate_function fun (exprs arg no_exprs) false)
    expr_of (ExprType.alias e alias) = do expr ← parse_required_expr e; ok (Expr.alias expr alias)
    expr_of (is_null_expr e) = do expr ← parse_required_expr e; ok (is_null expr)
    expr_of (is_not_null_expr e) = do expr ← parse_required_expr e; ok (is_not_null expr)
    expr_of (not_expr e) = do expr ← parse_required_expr e; ok (not expr)
    expr_of (ExprType.between e negated l h) = do
      expr ← parse_required_expr e
      low ← parse_required_expr l
      high ← parse_required_expr h
      ok (Expr.between expr negated low high)
    expr_of (ExprType.case e whens otherwise) = do
      when_then_expr ← when_thens_of whens
      expr ← parse_optional_expr e
      else_expr ← parse_optional_expr otherwise
      ok (Expr.case expr when_then_expr else_expr)
    expr_of (ExprType.cast e arrow_type) = do
      expr ← parse_required_expr e
      data_type ← cast_type arrow_type
      ok (Expr.cast expr data_type)
    expr_of (ExprType.sort e asc nulls_first) = do
      expr ← parse_required_expr e
      ok (Expr.sort expr asc nulls_first)
    expr_of (ExprType.negative e) = do expr ← parse_required_expr e; ok (Expr.negative expr)
    expr_of (ExprType.in_list e items negated) = do
      expr ← parse_required_expr e
      list ← exprs_of items
      ok (Expr.in_list expr list negated)
    expr_of (ExprType.wildcard b) = ok Expr.wildcard
    expr_of (ExprType.scalar_function n args) = do
      scalar_function ←
          required (from_i32 scalar_functions n)
            (codes "Received an unknown scalar function: " ++ signed_decimal n)
      fun ← function_read scalar_function
      arg ← first_expr args
      ok (Expr.scalar_function fun (exprs arg no_exprs))

    -- `(&expr.expr[0]).try_into()`
    pub first_expr : Nodes → Result Expr
    first_expr no_nodes = panicked
    first_expr (nodes n ns) = Expr_try_from n

    pub exprs_of : Nodes → Result Exprs
    exprs_of no_nodes = ok no_exprs
    exprs_of (nodes n ns) = do first ← Expr_try_from n; rest ← exprs_of ns; ok (exprs first rest)

    pub parse_required_expr : OptionalNode → Result Expr
    parse_required_expr (some_node n) = Expr_try_from n
    parse_required_expr no_node = err (general (codes "Missing required expression"))

    pub parse_optional_expr : OptionalNode → Result OptionalExpr
    parse_optional_expr (some_node n) = do expr ← Expr_try_from n; ok (some_expr expr)
    parse_optional_expr no_node = ok no_expr

    pub when_thens_of : WhenThenNodes → Result WhenThens
    when_thens_of WhenThenNodes.no_whens = ok WhenThens.no_whens
    when_thens_of (WhenThenNodes.when_then w t whens) = do
      when_expr ← parse_required_expr w
      then_expr ← parse_required_expr t
      rest ← when_thens_of whens
      ok (WhenThens.when_then when_expr then_expr rest)
