-- ===== src/Logical/Exprs/RoundTrip.antt =====
-- What survives the writing and reading of expressions.
use ballista.Prelude.{true, ◌≡◌, refl}
use ballista.Error.{ok}
use ballista.Logical.Messages.{some_type}
use ballista.Logical.Types.{ArrowType_from}
use ballista.Logical.Types.RoundTrip.{ArrowType_round_trip}
use ballista.Logical.Scalars.RoundTrip.{ScalarValue_round_trip}
use ballista.Logical.Functions.{ExprDebug, scalar_function_number, aggregate_function_number}
use ballista.Logical.Functions.Laws.{
  scalar_function_read, aggregate_function_read, from_proto_binary_op-operator_name,
  function_survives,
}
use ballista.Logical.Exprs.{
  Expr, Exprs, OptionalExpr, WhenThens, ExprType, LogicalExprNode, OptionalNode, Nodes,
  WhenThenNodes, column, scalar_variable, scalar_udf, aggregate_udf, not, is_null, is_not_null,
  no_exprs, exprs, some_expr, no_expr, aggregate_function, aggregate_expr, column_name, expr_node,
  some_node, no_node, is_null_expr, is_not_null_expr, not_expr, no_nodes, nodes,
}
use ballista.Logical.Exprs.ReadBack.{
  RendersNames, read_back, read_back_first, read_back_all, read_back_optional, read_back_whens,
  IsSupported, FirstSupported, AllSupported, OptionalSupported, WhensSupported,
}
use ballista.Logical.Exprs.Writing.{
  LogicalExprNode_try_from, Nodes_try_from, OptionalNode_try_from, WhenThenNodes_try_from,
}
use ballista.Logical.Exprs.Reading.{
  Expr_try_from, expr_of, first_expr, exprs_of, parse_required_expr, parse_optional_expr,
  when_thens_of,
}

module _ (debug : ExprDebug) (renders : RendersNames debug) where
  -- The expression is written, and its node reads back as `e'`.
  abbrev Survives : Expr → Expr → Type 0
  Survives e e' =
      (m : LogicalExprNode) × (LogicalExprNode_try_from debug e ≡ ok m)
      × (Expr_try_from debug m ≡ ok e')

  mutual
    unfolding LogicalExprNode_try_from Nodes_try_from OptionalNode_try_from WhenThenNodes_try_from
        IsSupported FirstSupported AllSupported OptionalSupported WhensSupported read_back
        read_back_first read_back_all read_back_optional read_back_whens Expr_try_from expr_of
        first_expr exprs_of parse_required_expr parse_optional_expr when_thens_of

    expr_round_trip : (e : Expr) → IsSupported debug e → Survives e (read_back e)
    expr_round_trip (column name) s = (expr_node (column_name name), refl, refl)
    expr_round_trip (Expr.alias e alias) s =
        let (n, w, r) = expr_round_trip e s in
        (expr_node (ExprType.alias (some_node n) alias), rw w, rw r)
    expr_round_trip (Expr.literal v) s =
        let (m, w) = s.1 in
        (expr_node (ExprType.literal m), rw w, rw (ScalarValue_round_trip debug.scalars v m w s.0))
    expr_round_trip (Expr.binary_expr l op r) s =
        let (ln, lw, lr) = expr_round_trip l s.1 in
        let (rn, rw', rr) = expr_round_trip r s.2 in
        (
          expr_node (ExprType.binary_expr (some_node ln) (some_node rn) (debug.operator op)),
          rw (lw, rw'),
          rw (lr, renders op s.0, from_proto_binary_op-operator_name debug op s.0, rr),
        )
    expr_round_trip (aggregate_function fun no_exprs distinct) s = absurd s
    expr_round_trip (aggregate_function fun (exprs e es) distinct) s =
        let (n, w, r) = expr_round_trip e s in
        (
          expr_node (aggregate_expr (aggregate_function_number fun) (some_node n)),
          rw w,
          rw (aggregate_function_read fun, r),
        )
    expr_round_trip (scalar_variable names) s = absurd s
    expr_round_trip (Expr.scalar_function fun no_exprs) s = absurd s.1
    expr_round_trip (Expr.scalar_function fun (exprs e es)) s =
        let (f, named, read) = function_survives debug fun s.0 in
        let (n, w, r) = expr_round_trip e s.1 in
        let (ns, ws, rs) = exprs_round_trip es s.2.1 in
        (
          expr_node (ExprType.scalar_function (scalar_function_number f) (nodes n ns)),
          rw (named, w, ws),
          rw (scalar_function_read f, read, r),
        )
    expr_round_trip (scalar_udf fun args) s = absurd s
    expr_round_trip (aggregate_udf fun args) s = absurd s
    expr_round_trip (not e) s =
        let (n, w, r) = expr_round_trip e s in (expr_node (not_expr (some_node n)), rw w, rw r)
    expr_round_trip (is_null e) s =
        let (n, w, r) = expr_round_trip e s in (expr_node (is_null_expr (some_node n)), rw w, rw r)
    expr_round_trip (is_not_null e) s =
        let (n, w, r) = expr_round_trip e s in
        (expr_node (is_not_null_expr (some_node n)), rw w, rw r)
    expr_round_trip (Expr.between e negated low high) s =
        let (n, w, r) = expr_round_trip e s.0 in
        let (ln, lw, lr) = expr_round_trip low s.1 in
        let (hn, hw, hr) = expr_round_trip high s.2 in
        (
          expr_node (ExprType.between (some_node n) negated (some_node ln) (some_node hn)),
          rw (w, lw, hw),
          rw (r, lr, hr),
        )
    expr_round_trip (Expr.case e whens otherwise) s =
        let (n, w, r) = optional_round_trip e s.0 in
        let (ns, ws, rs) = whens_round_trip whens s.1 in
        let (o, ow, or') = optional_round_trip otherwise s.2 in
        (expr_node (ExprType.case n ns o), rw (ws, w, ow), rw (rs, r, or'))
    expr_round_trip (Expr.cast e t) s =
        let (n, w, r) = expr_round_trip e s in
        (
          expr_node (ExprType.cast (some_node n) (some_type (ArrowType_from t))),
          rw w,
          rw (r, ArrowType_round_trip t),
        )
    expr_round_trip (Expr.sort e asc nulls_first) s =
        let (n, w, r) = expr_round_trip e s in
        (expr_node (ExprType.sort (some_node n) asc nulls_first), rw w, rw r)
    expr_round_trip (Expr.negative e) s =
        let (n, w, r) = expr_round_trip e s in
        (expr_node (ExprType.negative (some_node n)), rw w, rw r)
    expr_round_trip (Expr.in_list e list negated) s =
        let (n, w, r) = expr_round_trip e s.0 in
        let (ns, ws, rs) = exprs_round_trip list s.1 in
        (expr_node (ExprType.in_list (some_node n) ns negated), rw (w, ws), rw (r, rs))
    expr_round_trip Expr.wildcard s = (expr_node (ExprType.wildcard true), refl, refl)

    pub exprs_round_trip :
        (es : Exprs)
        → AllSupported debug es
        → (ns : Nodes) × (Nodes_try_from debug es ≡ ok ns)
          × (exprs_of debug ns ≡ ok (read_back_all es))
    exprs_round_trip no_exprs s = (no_nodes, refl, refl)
    exprs_round_trip (exprs e es) s =
        let (n, w, r) = expr_round_trip e s.0 in
        let (ns, ws, rs) = exprs_round_trip es s.1 in (nodes n ns, rw (w, ws), rw (r, rs))

    optional_round_trip :
        (e : OptionalExpr)
        → OptionalSupported debug e
        → (n : OptionalNode) × (OptionalNode_try_from debug e ≡ ok n)
          × (parse_optional_expr debug n ≡ ok (read_back_optional e))
    optional_round_trip no_expr s = (no_node, refl, refl)
    optional_round_trip (some_expr e) s =
        let (n, w, r) = expr_round_trip e s in (some_node n, rw w, rw r)

    whens_round_trip :
        (whens : WhenThens)
        → WhensSupported debug whens
        → (ns : WhenThenNodes) × (WhenThenNodes_try_from debug whens ≡ ok ns)
          × (when_thens_of debug ns ≡ ok (read_back_whens whens))
    whens_round_trip WhenThens.no_whens s = (WhenThenNodes.no_whens, refl, refl)
    whens_round_trip (WhenThens.when_then w t whens) s =
        let (wn, ww, wr) = expr_round_trip w s.0 in
        let (tn, tw, tr) = expr_round_trip t s.1 in
        let (ns, ws, rs) = whens_round_trip whens s.2 in
        (WhenThenNodes.when_then (some_node wn) (some_node tn) ns, rw (ww, tw, ws), rw (wr, tr, rs))

-- An expression of operators that the reader names, functions that it builds on an argument at
-- least, and literals that are written and in their ranges is written, and its node is read back as
-- that expression, with literals and types up to what their messages leave out, each function on
-- its first argument alone, and no aggregate function distinct. `Debug` renders the names of
-- operators.
pub Expr_round_trip :
    (debug : ExprDebug)
    → RendersNames debug
    → (e : Expr) → IsSupported debug e
    → (m : LogicalExprNode) × (LogicalExprNode_try_from debug e ≡ ok m)
      × (Expr_try_from debug m ≡ ok (read_back e))
Expr_round_trip debug renders e s = expr_round_trip debug renders e s
