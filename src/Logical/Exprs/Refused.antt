-- ===== src/Logical/Exprs/Refused.antt =====
-- Functions whose expressions are written, and then refused by the reader.
use ballista.Prelude.{◌≡◌, subst}
use ballista.Text.{codes}
use ballista.Error.{general, ok, err, bind-eq-ok, ok-injective}
use ballista.Logical.Functions.{ExprDebug, BuiltinScalarFunction, ScalarFunction_try_from}
use ballista.Logical.Functions.Laws.{IsReadable, scalar_function_read, function_read-refuses}
use ballista.Logical.Exprs.{Expr, Exprs, LogicalExprNode}
use ballista.Logical.Exprs.Writing.{LogicalExprNode_try_from, Nodes_try_from}
use ballista.Logical.Exprs.Reading.{Expr_try_from}

-- A call of a function that the reader cannot build may be written, and what was written is then
-- refused.
pub unreadable_function_refused :
    (debug : ExprDebug) (f : BuiltinScalarFunction) (args : Exprs) (m : LogicalExprNode)
    → ¬ IsReadable f
    → LogicalExprNode_try_from debug (Expr.scalar_function f args) ≡ ok m
    → Expr_try_from debug m
      ≡ err (general (codes "Protobuf deserialization error: Unsupported scalar function"))
unfolding LogicalExprNode_try_from Expr_try_from
unreadable_function_refused debug f args m unreadable h =
    let (p, named, rest) = bind-eq-ok (ScalarFunction_try_from debug f) _ h in
    let (ns, written, made) = bind-eq-ok (Nodes_try_from debug args) _ rest in
    subst
      (λ m.
        Expr_try_from debug m
        ≡ err (general (codes "Protobuf deserialization error: Unsupported scalar function")))
      (ok-injective made)
      (rw (scalar_function_read p, function_read-refuses debug f p unreadable named))
