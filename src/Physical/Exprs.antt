-- ===== src/Physical/Exprs.antt =====
-- The writing of physical expressions, in to_proto.rs of rust/core/src/serde/physical_plan, and
-- the logical expressions that they stand for.
pub mod SameNodes
use ballista.Prelude.{Bool, Option, ◌≡◌, refl}
use ballista.Text.{Text, codes}
use ballista.Error.{general, Result, ok, err, panicked, ◌>>=◌}
use ballista.Prelude.{[], ◌++◌}
use ballista.Logical.Messages.{some_type}
use ballista.Logical.Types.{ArrowType_from}
use ballista.Logical.Scalars.Writing.{ScalarValue_try_from}
use ballista.Logical.Functions.{
  ExprDebug, BuiltinScalarFunction, ScalarFunction_try_from, scalar_function_number,
}
use ballista.Logical.Exprs.{
  Expr, Exprs, OptionalExpr, WhenThens, ExprType, LogicalExprNode, OptionalNode, Nodes,
  WhenThenNodes, column_name, expr_node, some_node, no_node, no_nodes, nodes,
}
use ballista.Logical.Exprs.Writing.{
  LogicalExprNode_try_from, Nodes_try_from, OptionalNode_try_from, WhenThenNodes_try_from,
}
use ballista.Logical.Exprs.ReadBack.{
  IsSupported, FirstSupported, AllSupported, OptionalSupported, WhensSupported,
}
use ballista.Physical.{
  PhysicalExpr, PhysicalExprs, OptionalPhysicalExpr, PhysicalWhens, PhysicalDebug, binary_expr,
  case_expr, in_list_expr, negative_expr, cast_expr, scalar_function_expr, other_expr,
}

-- `from_str` is `BuiltinScalarFunction::from_str`.
module _ (debug : PhysicalDebug) (from_str : Text → Result BuiltinScalarFunction) where
  unfoldable mutual
    unfolding ArrowType_from ScalarValue_try_from ScalarFunction_try_from

    pub PhysicalExpr_try_into : PhysicalExpr → Result LogicalExprNode
    PhysicalExpr_try_into (PhysicalExpr.column name) = ok (expr_node (column_name name))
    PhysicalExpr_try_into (binary_expr left op right) = do
      l ← PhysicalExpr_try_into left
      r ← PhysicalExpr_try_into right
      ok (expr_node (ExprType.binary_expr (some_node l) (some_node r) (debug.exprs.operator op)))
    PhysicalExpr_try_into (case_expr expr when_then_expr else_expr) = do
      e ← optional_try_into expr
      whens ← whens_try_into when_then_expr
      otherwise ← optional_try_into else_expr
      ok (expr_node (ExprType.case e whens otherwise))
    PhysicalExpr_try_into (PhysicalExpr.not_expr arg) = do
      e ← PhysicalExpr_try_into arg
      ok (expr_node (ExprType.not_expr (some_node e)))
    PhysicalExpr_try_into (PhysicalExpr.is_null_expr arg) = do
      e ← PhysicalExpr_try_into arg
      ok (expr_node (ExprType.is_null_expr (some_node e)))
    PhysicalExpr_try_into (PhysicalExpr.is_not_null_expr arg) = do
      e ← PhysicalExpr_try_into arg
      ok (expr_node (ExprType.is_not_null_expr (some_node e)))
    PhysicalExpr_try_into (in_list_expr expr list negated) = do
      e ← PhysicalExpr_try_into expr
      items ← exprs_try_into list
      ok (expr_node (ExprType.in_list (some_node e) items negated))
    PhysicalExpr_try_into (negative_expr arg) = do
      e ← PhysicalExpr_try_into arg
      ok (expr_node (ExprType.negative (some_node e)))
    PhysicalExpr_try_into (PhysicalExpr.literal value) = do
      pb_value ← ScalarValue_try_from debug.exprs.scalars value
      ok (expr_node (ExprType.literal pb_value))
    PhysicalExpr_try_into (cast_expr expr cast_type) = do
      e ← PhysicalExpr_try_into expr
      ok (expr_node (ExprType.cast (some_node e) (some_type (ArrowType_from cast_type))))
    PhysicalExpr_try_into (scalar_function_expr name args) = do
      fun ← from_str name
      pb_fun ← ScalarFunction_try_from debug.exprs fun
      expr ← exprs_try_into args
      ok (expr_node (ExprType.scalar_function (scalar_function_number pb_fun) expr))
    PhysicalExpr_try_into other_expr =
        err (general (codes "physical_plan::to_proto() unsupported expression " ++ debug.expr))

    pub exprs_try_into : PhysicalExprs → Result Nodes
    exprs_try_into PhysicalExprs.no_exprs = ok no_nodes
    exprs_try_into (PhysicalExprs.exprs e es) = do
      first ← PhysicalExpr_try_into e
      rest ← exprs_try_into es
      ok (nodes first rest)

    pub optional_try_into : OptionalPhysicalExpr → Result OptionalNode
    optional_try_into (OptionalPhysicalExpr.some_expr e) = do
      n ← PhysicalExpr_try_into e
      ok (some_node n)
    optional_try_into OptionalPhysicalExpr.no_expr = ok no_node

    -- `try_parse_when_then_expr` of each pair
    pub whens_try_into : PhysicalWhens → Result WhenThenNodes
    whens_try_into PhysicalWhens.no_whens = ok WhenThenNodes.no_whens
    whens_try_into (PhysicalWhens.when_then when_expr then_expr whens) = do
      w ← PhysicalExpr_try_into when_expr
      t ← PhysicalExpr_try_into then_expr
      rest ← whens_try_into whens
      ok (WhenThenNodes.when_then (some_node w) (some_node t) rest)

  abbrev pub named_function : Result BuiltinScalarFunction → Text → BuiltinScalarFunction
  named_function (ok fun) name = fun
  named_function _ name = BuiltinScalarFunction.unnamed name

  -- The logical expression that a physical one stands for.
  unfoldable mutual
    pub logical_of : PhysicalExpr → Expr
    logical_of (PhysicalExpr.column name) = Expr.column name
    logical_of (binary_expr l op r) = Expr.binary_expr (logical_of l) op (logical_of r)
    logical_of (case_expr e whens otherwise) =
        Expr.case (logical_optional e) (logical_whens whens) (logical_optional otherwise)
    logical_of (PhysicalExpr.not_expr e) = Expr.not (logical_of e)
    logical_of (PhysicalExpr.is_null_expr e) = Expr.is_null (logical_of e)
    logical_of (PhysicalExpr.is_not_null_expr e) = Expr.is_not_null (logical_of e)
    logical_of (in_list_expr e list negated) =
        Expr.in_list (logical_of e) (logical_exprs list) negated
    logical_of (negative_expr e) = Expr.negative (logical_of e)
    logical_of (PhysicalExpr.literal v) = Expr.literal v
    logical_of (cast_expr e t) = Expr.cast (logical_of e) t
    logical_of (scalar_function_expr name args) =
        Expr.scalar_function (named_function (from_str name) name) (logical_exprs args)
    logical_of other_expr = Expr.scalar_udf [] Exprs.no_exprs

    pub logical_exprs : PhysicalExprs → Exprs
    logical_exprs PhysicalExprs.no_exprs = Exprs.no_exprs
    logical_exprs (PhysicalExprs.exprs e es) = Exprs.exprs (logical_of e) (logical_exprs es)

    pub logical_optional : OptionalPhysicalExpr → OptionalExpr
    logical_optional (OptionalPhysicalExpr.some_expr e) = OptionalExpr.some_expr (logical_of e)
    logical_optional OptionalPhysicalExpr.no_expr = OptionalExpr.no_expr

    pub logical_whens : PhysicalWhens → WhenThens
    logical_whens PhysicalWhens.no_whens = WhenThens.no_whens
    logical_whens (PhysicalWhens.when_then w t whens) =
        WhenThens.when_then (logical_of w) (logical_of t) (logical_whens whens)
