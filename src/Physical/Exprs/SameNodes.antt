-- ===== src/Physical/Exprs/SameNodes.antt =====
-- A physical expression is written as the node of the logical expression that it stands for.
use ballista.Prelude.{◌≡◌, refl}
use ballista.Text.{Text}
use ballista.Error.{Result, ok, err, panicked}
use ballista.Logical.Messages.{some_type}
use ballista.Logical.Types.{ArrowType_from}
use ballista.Logical.Functions.{BuiltinScalarFunction, scalar_function_number}
use ballista.Logical.Exprs.{
  ExprType, LogicalExprNode, OptionalNode, Nodes, WhenThenNodes, column_name, expr_node, some_node,
  no_node, no_nodes, nodes,
}
use ballista.Logical.Exprs.Writing.{
  LogicalExprNode_try_from, Nodes_try_from, OptionalNode_try_from, WhenThenNodes_try_from,
}
use ballista.Logical.Exprs.ReadBack.{
  IsSupported, FirstSupported, AllSupported, OptionalSupported, WhensSupported,
}
use ballista.Physical.{
  PhysicalExpr, PhysicalExprs, OptionalPhysicalExpr, PhysicalWhens, PhysicalDebug, binary_expr,
  case_expr, in_list_expr, negative_expr, cast_expr, scalar_function_expr, other_expr,
}
use ballista.Logical.Functions.Laws.{IsReadable, function_survives}
use ballista.Physical.Exprs.{
  PhysicalExpr_try_into, exprs_try_into, optional_try_into, whens_try_into, logical_of,
  logical_exprs, logical_optional, logical_whens, named_function,
}

module _ (debug : PhysicalDebug) (from_str : Text → Result BuiltinScalarFunction) where
  named_readable :
      (r : Result BuiltinScalarFunction) (name : Text)
      → IsReadable (named_function debug from_str r name)
      → (f : BuiltinScalarFunction) × (r ≡ ok f)
  named_readable (ok f) name s = (f, refl)
  named_readable (err e) name s = absurd s
  named_readable panicked name s = absurd s

  mutual
    unfolding PhysicalExpr_try_into exprs_try_into optional_try_into whens_try_into logical_of
        logical_exprs logical_optional logical_whens LogicalExprNode_try_from Nodes_try_from
        OptionalNode_try_from WhenThenNodes_try_from IsSupported FirstSupported AllSupported
        OptionalSupported WhensSupported

    pub same_node :
        (e : PhysicalExpr)
        → IsSupported debug.exprs (logical_of debug from_str e)
        → (m : LogicalExprNode) × (PhysicalExpr_try_into debug from_str e ≡ ok m)
          × (LogicalExprNode_try_from debug.exprs (logical_of debug from_str e) ≡ ok m)
    same_node (PhysicalExpr.column name) s = (expr_node (column_name name), refl, refl)
    same_node (binary_expr l op r) s =
        let (ln, lp, ll) = same_node l s.1 in
        let (rn, rp, rl) = same_node r s.2 in
        (
          expr_node (ExprType.binary_expr (some_node ln) (some_node rn) (debug.exprs.operator op)),
          rw (lp, rp),
          rw (ll, rl),
        )
    same_node (case_expr e whens otherwise) s =
        let (n, p, l) = same_optional e s.0 in
        let (ns, ps, ls) = same_whens whens s.1 in
        let (o, po, lo) = same_optional otherwise s.2 in
        (expr_node (ExprType.case n ns o), rw (p, ps, po), rw (ls, l, lo))
    same_node (PhysicalExpr.not_expr e) s =
        let (n, p, l) = same_node e s in (expr_node (ExprType.not_expr (some_node n)), rw p, rw l)
    same_node (PhysicalExpr.is_null_expr e) s =
        let (n, p, l) = same_node e s in
        (expr_node (ExprType.is_null_expr (some_node n)), rw p, rw l)
    same_node (PhysicalExpr.is_not_null_expr e) s =
        let (n, p, l) = same_node e s in
        (expr_node (ExprType.is_not_null_expr (some_node n)), rw p, rw l)
    same_node (in_list_expr e list negated) s =
        let (n, p, l) = same_node e s.0 in
        let (ns, ps, ls) = same_nodes list s.1 in
        (expr_node (ExprType.in_list (some_node n) ns negated), rw (p, ps), rw (l, ls))
    same_node (negative_expr e) s =
        let (n, p, l) = same_node e s in (expr_node (ExprType.negative (some_node n)), rw p, rw l)
    same_node (PhysicalExpr.literal v) s =
        let (m, w) = s.1 in (expr_node (ExprType.literal m), rw w, rw w)
    same_node (cast_expr e t) s =
        let (n, p, l) = same_node e s in
        (expr_node (ExprType.cast (some_node n) (some_type (ArrowType_from t))), rw p, rw l)
    same_node (scalar_function_expr name args) s =
        let (f, found) = named_readable (from_str name) name s.0 in
        let (g, written, read) = function_survives debug.exprs f (rw found at s.0) in
        let (ns, ps, ls) = same_nodes args s.2 in
        (
          expr_node (ExprType.scalar_function (scalar_function_number g) ns),
          rw (found, written, ps),
          rw (found, written, ls),
        )
    same_node other_expr s = absurd s

    pub same_nodes :
        (es : PhysicalExprs)
        → AllSupported debug.exprs (logical_exprs debug from_str es)
        → (ns : Nodes) × (exprs_try_into debug from_str es ≡ ok ns)
          × (Nodes_try_from debug.exprs (logical_exprs debug from_str es) ≡ ok ns)
    same_nodes PhysicalExprs.no_exprs s = (no_nodes, refl, refl)
    same_nodes (PhysicalExprs.exprs e es) s =
        let (n, p, l) = same_node e s.0 in
        let (ns, ps, ls) = same_nodes es s.1 in (nodes n ns, rw (p, ps), rw (l, ls))

    same_optional :
        (e : OptionalPhysicalExpr)
        → OptionalSupported debug.exprs (logical_optional debug from_str e)
        → (n : OptionalNode) × (optional_try_into debug from_str e ≡ ok n)
          × (OptionalNode_try_from debug.exprs (logical_optional debug from_str e) ≡ ok n)
    same_optional OptionalPhysicalExpr.no_expr s = (no_node, refl, refl)
    same_optional (OptionalPhysicalExpr.some_expr e) s =
        let (n, p, l) = same_node e s in (some_node n, rw p, rw l)

    same_whens :
        (whens : PhysicalWhens)
        → WhensSupported debug.exprs (logical_whens debug from_str whens)
        → (ns : WhenThenNodes) × (whens_try_into debug from_str whens ≡ ok ns)
          × (WhenThenNodes_try_from debug.exprs (logical_whens debug from_str whens) ≡ ok ns)
    same_whens PhysicalWhens.no_whens s = (WhenThenNodes.no_whens, refl, refl)
    same_whens (PhysicalWhens.when_then w t whens) s =
        let (wn, wp, wl) = same_node w s.0 in
        let (tn, tp, tl) = same_node t s.1 in
        let (ns, ps, ls) = same_whens whens s.2 in
        (WhenThenNodes.when_then (some_node wn) (some_node tn) ns, rw (wp, tp, ps), rw (wl, tl, ls))
