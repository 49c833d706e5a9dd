-- ===== src/Physical/Aggregates.antt =====
-- The aggregate expressions of a plan survive their messages.
use ballista.Prelude.{false, List, [], ◌∷◌, All, ◌≡◌, refl}
use ballista.Text.{Text}
use ballista.Error.{Result, ok, collect}
use ballista.Logical.Arrow.{Schema}
use ballista.Logical.Functions.{BuiltinScalarFunction, AggregateFunction, aggregate_function_number}
use ballista.Logical.Functions.Laws.{aggregate_function_read}
use ballista.Logical.Exprs.{Expr, Exprs, ExprType, LogicalExprNode, expr_node, some_node}
use ballista.Logical.Exprs.ReadBack.{RendersNames, AllSupported, read_back}
use ballista.Logical.Exprs.Reading.{Expr_try_from, expr_of, parse_required_expr}
use ballista.Physical.{
  PhysicalExpr, PhysicalExprs, AggregateKind, AggregateExpr, PhysicalDebug, PhysicalBuilder,
  other_aggregate,
}
use ballista.Physical.Exprs.{exprs_try_into, logical_of, logical_exprs}
use ballista.Physical.Exprs.SameNodes.{same_nodes}
use ballista.Physical.Lists.{expr_survives}
use ballista.Physical.Writing.{aggregate_function_of, AggregateExpr_try_into}
use ballista.Physical.Reading.{zip, logical_named, aggregate_of}
use ballista.Physical.Rebuild.{ExprSupported, AggregateSupported, compiled_aggregate}

module _ (debug : PhysicalDebug) (from_str : Text → Result BuiltinScalarFunction) where
  -- What the writer and the reader need of an aggregate expression.
  abbrev AggregateParts : AggregateExpr → Type 0
  AggregateParts a =
      (fun : AggregateFunction) × (e : PhysicalExpr) × (es : PhysicalExprs) × (name : Text)
      × (aggregate_function_of debug from_str a.kind ≡ ok fun)
      × (a.expressions ≡ PhysicalExprs.exprs e es)
      × (a.field_name ≡ ok name)
      × ExprSupported debug from_str e
      × AllSupported debug.exprs (logical_exprs debug from_str es)

  known_kind :
      (kind : AggregateKind) (es : PhysicalExprs) (name : Result Text)
      → AggregateSupported debug from_str kind es name
      → (fun : AggregateFunction) × (aggregate_function_of debug from_str kind ≡ ok fun)
  unfolding aggregate_function_of
  known_kind AggregateKind.avg es name s = (_, refl)
  known_kind AggregateKind.sum es name s = (_, refl)
  known_kind AggregateKind.count es name s = (_, refl)
  known_kind other_aggregate es name s = absurd s

  aggregate_parts :
      (kind : AggregateKind) (es : PhysicalExprs) (name : Result Text)
      → AggregateSupported debug from_str kind es name
      → AggregateParts (record { kind = kind; expressions = es; field_name = name })
  aggregate_parts other_aggregate es name s = absurd s
  aggregate_parts kind PhysicalExprs.no_exprs name s = absurd s
  aggregate_parts kind (PhysicalExprs.exprs e es) (ok name) s =
      let (fun, known) = known_kind kind (PhysicalExprs.exprs e es) (ok name) s in
      (fun, e, es, name, known, refl, refl, s.0, s.1)
  aggregate_parts kind (PhysicalExprs.exprs e es) name s = absurd s

  module _ (renders : RendersNames debug.exprs) {P E A : Type 0} (builder : PhysicalBuilder P E A)
      (schema : Schema) where
    aggregate_compiled :
        (a : AggregateExpr)
        → AggregateParts a
        → (n : LogicalExprNode) × (name : Text) × (l : Expr) × (AggregateExpr_try_into debug
              from_str a
            ≡ ok n)
          × (a.field_name ≡ ok name)
          × (Expr_try_from debug.exprs n ≡ ok l)
          × (aggregate_of debug builder schema (l, name)
              ≡ compiled_aggregate debug from_str builder schema a)
    unfolding AggregateExpr_try_into Expr_try_from expr_of parse_required_expr aggregate_of
        exprs_try_into
    aggregate_compiled a (fun, e, es, name, known, some_exprs, named, s, others) =
        let (n, w, r) = expr_survives debug from_str renders e s in
        let (ns, ws, ls) = same_nodes debug from_str es others in
        (
          expr_node (ExprType.aggregate_expr (aggregate_function_number fun) (some_node n)),
          name,
          Expr.aggregate_function fun
              (Exprs.exprs (read_back (logical_of debug from_str e)) Exprs.no_exprs) false,
          rw (known, some_exprs, w, ws),
          named,
          rw (aggregate_function_read fun, r),
          rw (known, some_exprs, named),
        )

    pub aggregates_compiled :
        (as' : List AggregateExpr)
        → All
            (λ (a : AggregateExpr).
              AggregateSupported debug from_str a.kind a.expressions a.field_name)
            as'
        → (ns : List LogicalExprNode) × (names : List Text) × (ls : List (Expr × Text)) × (collect
              (AggregateExpr_try_into debug from_str)
              as'
            ≡ ok ns)
          × (collect (λ (a : AggregateExpr). a.field_name) as' ≡ ok names)
          × (collect (logical_named debug builder) (zip ns names) ≡ ok ls)
          × (collect (aggregate_of debug builder schema) ls
              ≡ collect (compiled_aggregate debug from_str builder schema) as')
    aggregates_compiled [] s = ([], [], [], refl, refl, refl, refl)
    aggregates_compiled (a ∷ as') s =
        let (n, name, l, w, named, r, made) =
          aggregate_compiled a (aggregate_parts a.kind a.expressions a.field_name s.0) in
        let (ns, names, ls, ws, all_named, rs, all_made) = aggregates_compiled as' s.1 in
        (
          n ∷ ns,
          name ∷ names,
          (l, name) ∷ ls,
          rw (w, ws),
          rw (named, all_named),
          rw (r, rs),
          rw (made, all_made),
        )
