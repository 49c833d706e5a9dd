-- ===== src/Physical/Lists.antt =====
-- The expressions of a plan, in their lists, survive their messages.
use ballista.Prelude.{Bool, true, false, not, List, [], ◌∷◌, map, All, ◌≡◌, refl}
use ballista.Text.{Text}
use ballista.Error.{Result, ok, collect}
use ballista.Logical.Arrow.{Schema}
use ballista.Logical.Functions.{BuiltinScalarFunction}
use ballista.Logical.Exprs.{ExprType, LogicalExprNode, expr_node, some_node}
use ballista.Logical.Exprs.ReadBack.{RendersNames, read_back}
use ballista.Logical.Exprs.Reading.{Expr_try_from}
use ballista.Logical.Exprs.RoundTrip.{Expr_round_trip}
use ballista.Physical.{PhysicalExpr, PhysicalSortExpr, PhysicalDebug, PhysicalBuilder}
use ballista.Physical.Exprs.{PhysicalExpr_try_into, logical_of}
use ballista.Physical.Exprs.SameNodes.{same_node}
use ballista.Physical.Writing.{sort_node, named_node}
use ballista.Physical.Reading.{zip, compile_expr, compile_named, sort_expr_of}
use ballista.Physical.Rebuild.{ExprSupported, compiled, compiled_named, compiled_sort}

module _ (debug : PhysicalDebug) (from_str : Text → Result BuiltinScalarFunction)
    (renders : RendersNames debug.exprs) where
  -- The node of a supported expression is read as the logical expression that it stands for, up to
  -- what its message leaves out.
  pub expr_survives :
      (e : PhysicalExpr)
      → ExprSupported debug from_str e
      → (n : LogicalExprNode) × (PhysicalExpr_try_into debug from_str e ≡ ok n)
        × (Expr_try_from debug.exprs n ≡ ok (read_back (logical_of debug from_str e)))
  expr_survives e s =
      let (n, written, l) = same_node debug from_str e s in
      let (m, w, r) = Expr_round_trip debug.exprs renders (logical_of debug from_str e) s in
      (n, written, cc)

  module _ {P E A : Type 0} (builder : PhysicalBuilder P E A) where
    pub expr_compiled :
        (e : PhysicalExpr)
        → ExprSupported debug from_str e
        → (n : LogicalExprNode) × (PhysicalExpr_try_into debug from_str e ≡ ok n)
          × ((schema : Schema)
              → compile_expr debug builder n schema ≡ compiled debug from_str builder schema e)
    unfolding compile_expr
    expr_compiled e s = let (n, w, r) = expr_survives e s in (n, w, λ schema. rw r)

    pub named_compiled :
        (es : List (PhysicalExpr × Text))
        → All (λ e. ExprSupported debug from_str e.0) es
        → (ns : List LogicalExprNode) × (collect (named_node debug from_str) es ≡ ok ns)
          × ((schema : Schema)
              → collect (compile_named debug builder schema) (zip ns (map (λ e. e.1) es))
                ≡ collect (compiled_named debug from_str builder schema) es)
    unfolding compile_named
    named_compiled [] s = ([], refl, λ schema. refl)
    named_compiled ((e, name) ∷ es) s =
        let (n, w, r) = expr_compiled e s.0 in
        let (ns, ws, rs) = named_compiled es s.1 in
        (n ∷ ns, rw (w, ws), λ schema. rw (r schema, rs schema))

    pub sort_compiled :
        (es : List (PhysicalSortExpr PhysicalExpr))
        → All (λ e. ExprSupported debug from_str e.expr) es
        → (ns : List LogicalExprNode) × (collect (sort_node debug from_str) es ≡ ok ns)
          × ((schema : Schema)
              → collect (sort_expr_of debug builder schema) ns
                ≡ collect (compiled_sort debug from_str builder schema) es)
    unfolding sort_node sort_expr_of
    sort_compiled [] s = ([], refl, λ schema. refl)
    sort_compiled (e ∷ es) s =
        let (n, w, r) = expr_compiled e.expr s.0 in
        let (ns, ws, rs) = sort_compiled es s.1 in
        (
          expr_node (ExprType.sort (some_node n) (not e.descending) e.nulls_first) ∷ ns,
          rw (w, ws),
          λ schema. rw (r schema, rs schema, not-not e.descending),
        )
      where
        not-not : (b : Bool) → not (not b) ≡ b
        not-not true = refl
        not-not false = refl
