-- ===== src/Examples/Physical.antt =====
-- Concrete runs of the conversions of physical plans.
use ballista.Prelude.{if◌then◌else◌, suc, ◌+◌, ℕ, true, false, some, [], ◌∷◌, ◌++◌}
use ballista.Text.{Text, codes, text_eq}
use ballista.Error.{general, Result, ok, err}
use ballista.Logical.Arrow.{Schema}
use ballista.Logical.Functions.{Operator, BuiltinScalarFunction}
use ballista.Logical.Exprs.{Expr}
use ballista.Plan.{AggregateMode}
use ballista.Physical.{
  PhysicalExpr, PhysicalExprs, AggregateKind, PhysicalPlan, PhysicalDebug, PhysicalBuilder,
  binary_expr, filter_exec, global_limit_exec, hash_aggregate_exec, csv_exec, sort_exec,
}
use ballista.Examples.Plans.{expr_debug, points}

abbrev physical_debug : PhysicalDebug
physical_debug = record {
  exprs = expr_debug;
  expr = codes "expr";
  aggregate = codes "aggregate";
  plan = codes "plan";
  node = codes "node";
}

-- A library whose only function is `abs`.
abbrev only_abs : Text → Result BuiltinScalarFunction
only_abs name =
    if text_eq name (codes "abs")
    then ok BuiltinScalarFunction.abs
    else err (general (codes "There is no built-in function named " ++ name))

-- A plan is its schema and the number of its operators, with no checks.
abbrev counting_builder : PhysicalBuilder (Schema × ℕ) Expr Text
counting_builder = record {
  schema = λ p. p.0;
  create_physical_expr = λ e schema. ok e;
  create_aggregate_expr = λ fun distinct es schema name. ok name;
  projection = λ es p. ok (p.0, suc p.1);
  filter = λ e p. ok (p.0, suc p.1);
  csv = λ path options columns n. ok (options.schema, 1);
  parquet = λ files columns n m. ok (points, 1);
  coalesce_batches = λ p n. (p.0, suc p.1);
  merge = λ p. (p.0, suc p.1);
  global_limit = λ p n. (p.0, suc p.1);
  local_limit = λ p n. (p.0, suc p.1);
  hash_aggregate = λ mode groups aggrs p schema. ok (schema, suc p.1);
  hash_join = λ l r on t. ok (l.0, suc (l.1 + r.1));
  shuffle_reader = λ locations schema. ok (schema, 1);
  empty = λ one schema. (schema, 1);
  sort = λ es p. ok (p.0, suc p.1);
  unresolved_shuffle = λ ids schema n. (schema, 1);
}

abbrev points_exec : PhysicalPlan
points_exec = csv_exec (record {
  path = codes "points.csv";
  filenames = codes "points.csv" ∷ [];
  schema = points;
  has_header = true;
  delimiter = some 44;
  file_extension = codes ".csv";
  projection = some (0 ∷ 1 ∷ []);
  batch_size = 1024;
})

-- The five groups of the largest `x`, with the number of the `y` that are not less than `x`.
abbrev largest_groups : PhysicalPlan
largest_groups =
    global_limit_exec
      (sort_exec
        (hash_aggregate_exec AggregateMode.partial ((x, codes "x") ∷ [])
          (record {
            kind = AggregateKind.count;
            expressions = PhysicalExprs.exprs y PhysicalExprs.no_exprs;
            field_name = ok (codes "n");
          }
            ∷ [])
          (filter_exec (binary_expr x Operator.lt_eq y) points_exec) points)
        (record { expr = x; descending = true; nulls_first = false } ∷ []))
      5
  where
    x : PhysicalExpr
    x = PhysicalExpr.column (codes "x")

    y : PhysicalExpr
    y = PhysicalExpr.column (codes "y")
