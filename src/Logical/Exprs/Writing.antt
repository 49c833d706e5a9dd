-- ===== src/Logical/Exprs/Writing.antt =====
-- The writing of expressions, in to_proto.rs of rust/core/src/serde/logical_plan. A panic is that of
-- `unimplemented!` and of `args[0]` on no arguments.
use ballista.Prelude.{true}
use ballista.Error.{Result, ok, panicked, ◌>>=◌}
use ballista.Logical.Messages.{some_type}
use ballista.Logical.Types.{ArrowType_from}
use ballista.Logical.Scalars.Writing.{ScalarValue_try_from}
use ballista.Logical.Functions.{
  ExprDebug, ScalarFunction_try_from, scalar_function_number, aggregate_function_number,
}
use ballista.Logical.Exprs.{
  Expr, Exprs, OptionalExpr, WhenThens, ExprType, LogicalExprNode, OptionalNode, Nodes,
  WhenThenNodes, column, scalar_variable, scalar_udf, aggregate_udf, not, is_null, is_not_null,
  no_exprs, exprs, some_expr, no_expr, aggregate_function, aggregate_expr, column_name, expr_node,
  some_node, no_node, is_null_expr, is_not_null_expr, not_expr, no_nodes, nodes,
}

module _ (debug : ExprDebug) where
  unfoldable mutual
    unfolding ArrowType_from ScalarValue_try_from ScalarFunction_try_from

    pub LogicalExprNode_try_from : Expr → Result LogicalExprNode
    LogicalExprNode_try_from (column name) = ok (expr_node (column_name name))
    LogicalExprNode_try_from (Expr.alias expr alias) = do
      e ← LogicalExprNode_try_from expr
      ok (expr_node (ExprType.alias (some_node e) alias))
    LogicalExprNode_try_from (Expr.literal value) = do
      pb_value ← ScalarValue_try_from debug.scalars value
      ok (expr_node (ExprType.literal pb_value))
    LogicalExprNode_try_from (Expr.binary_expr left op right) = do
      l ← LogicalExprNode_try_from left
      r ← LogicalExprNode_try_from right
      ok (expr_node (ExprType.binary_expr (some_node l) (some_node r) (debug.operator op)))
    LogicalExprNode_try_from (aggregate_function fun no_exprs distinct) = panicked
    LogicalExprNode_try_from (aggregate_function fun (exprs arg args) distinct) = do
      e ← LogicalExprNode_try_from arg
      ok (expr_node (aggregate_expr (aggregate_function_number fun) (some_node e)))
    LogicalExprNode_try_from (scalar_variable names) = panicked
    LogicalExprNode_try_from (Expr.scalar_function fun args) = do
      pb_fun ← ScalarFunction_try_from debug fun
      expr ← Nodes_try_from args
      ok (expr_node (ExprType.scalar_function (scalar_function_number pb_fun) expr))
    LogicalExprNode_try_from (scalar_udf fun args) = panicked
    LogicalExprNode_try_from (aggregate_udf fun args) = panicked
    LogicalExprNode_try_from (not expr) = do
      e ← LogicalExprNode_try_from expr
      ok (expr_node (not_expr (some_node e)))
    LogicalExprNode_try_from (is_null expr) = do
      e ← LogicalExprNode_try_from expr
      ok (expr_node (is_null_expr (some_node e)))
    LogicalExprNode_try_from (is_not_null expr) = do
      e ← LogicalExprNode_try_from expr
      ok (expr_node (is_not_null_expr (some_node e)))
    LogicalExprNode_try_from (Expr.between expr negated low high) = do
      e ← LogicalExprNode_try_from expr
      l ← LogicalExprNode_try_from low
      h ← LogicalExprNode_try_from high
      ok (expr_node (ExprType.between (some_node e) negated (some_node l) (some_node h)))
    LogicalExprNode_try_from (Expr.case expr when_then_expr else_expr) = do
      whens ← WhenThenNodes_try_from when_then_expr
      e ← OptionalNode_try_from expr
      otherwise ← OptionalNode_try_from else_expr
      ok (expr_node (ExprType.case e whens otherwise))
    LogicalExprNode_try_from (Expr.cast expr data_type) = do
      e ← LogicalExprNode_try_from expr
      ok (expr_node (ExprType.cast (some_node e) (some_type (ArrowType_from data_type))))
    LogicalExprNode_try_from (Expr.sort expr asc nulls_first) = do
      e ← LogicalExprNode_try_from expr
      ok (expr_node (ExprType.sort (some_node e) asc nulls_first))
    LogicalExprNode_try_from (Expr.negative expr) = do
      e ← LogicalExprNode_try_from expr
      ok (expr_node (ExprType.negative (some_node e)))
    LogicalExprNode_try_from (Expr.in_list expr list negated) = do
      e ← LogicalExprNode_try_from expr
      items ← Nodes_try_from list
      ok (expr_node (ExprType.in_list (some_node e) items negated))
    LogicalExprNode_try_from Expr.wildcard = ok (expr_node (ExprType.wildcard true))

    -- `iter().map(|e| e.try_into()).collect()`
    pub Nodes_try_from : Exprs → Result Nodes
    Nodes_try_from no_exprs = ok no_nodes
    Nodes_try_from (exprs e es) = do
      first ← LogicalExprNode_try_from e
      rest ← Nodes_try_from es
      ok (nodes first rest)

    pub OptionalNode_try_from : OptionalExpr → Result OptionalNode
    OptionalNode_try_from (some_expr e) = do n ← LogicalExprNode_try_from e; ok (some_node n)
    OptionalNode_try_from no_expr = ok no_node

    pub WhenThenNodes_try_from : WhenThens → Result WhenThenNodes
    WhenThenNodes_try_from WhenThens.no_whens = ok WhenThenNodes.no_whens
    WhenThenNodes_try_from (WhenThens.when_then when_expr then_expr whens) = do
      w ← LogicalExprNode_try_from when_expr
      t ← LogicalExprNode_try_from then_expr
      rest ← WhenThenNodes_try_from whens
      ok (WhenThenNodes.when_then (some_node w) (some_node t) rest)
