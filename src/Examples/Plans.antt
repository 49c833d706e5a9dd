-- ===== src/Examples/Plans.antt =====
-- Concrete runs of the conversions of expressions and logical plans.
use ballista.Prelude.{pos, true, false, some, [], ◌∷◌, ◌≡◌, refl, arith}
use ballista.Text.{codes, text_eq}
use ballista.Error.{general, ok, err, required}
use ballista.Logical.Arrow.{DataType, Schema, new_field}
use ballista.Logical.Functions.{ExprDebug, AggregateFunction, BuiltinScalarFunction}
use ballista.Logical.Functions.Laws.{operator_name}
use ballista.Logical.Exprs.{
  Expr, ExprType, LogicalExprNode, column, exprs, no_exprs, expr_node, column_name, nodes, no_nodes,
}
use ballista.Logical.Exprs.Writing.{LogicalExprNode_try_from}
use ballista.Logical.Exprs.Reading.{Expr_try_from}
use ballista.Logical.Exprs.ReadBack.{RendersNames, IsSupported, AllSupported, read_back}
use ballista.Logical.Exprs.RoundTrip.{Expr_round_trip}
use ballista.Logical.Exprs.Refused.{unreadable_function_refused}
use ballista.Logical.Plans.{
  LogicalPlan, TableProvider, LogicalPlanNode, LogicalPlanBuilder, PlanDebug, table_scan, csv_file,
}
use ballista.Logical.Plans.Writing.{LogicalPlanNode_try_from}
use ballista.Logical.Plans.Reading.{LogicalPlan_try_from, position}
use ballista.Logical.Plans.Rebuild.{PlanSupported, FindsFirst, rebuild}
use ballista.Logical.Plans.RoundTrip.{LogicalPlan_round_trip}
use ballista.Examples.Types.{plain_debug}

abbrev pub expr_debug : ExprDebug
expr_debug = record {
  scalars = plain_debug;
  operator = operator_name;
  text = λ t. t;
  function = λ f. codes "function";
}

pub expr_debug-RendersNames : RendersNames expr_debug
expr_debug-RendersNames op named = refl

-- `sum(distinct abs(x)) AS total`, which is read back with no `distinct`.
abbrev total : Expr
total =
    Expr.alias
      (Expr.aggregate_function AggregateFunction.sum
        (exprs
          (Expr.scalar_function BuiltinScalarFunction.abs (exprs (column (codes "x")) no_exprs))
          no_exprs)
        true)
      (codes "total")

total-IsSupported : IsSupported expr_debug total
unfolding IsSupported
total-IsSupported = (tt, tt, (tt, tt))

Expr_round_trip_example :
    (m : LogicalExprNode) × (LogicalExprNode_try_from expr_debug total ≡ ok m)
    × (Expr_try_from expr_debug m ≡ ok (read_back total))
Expr_round_trip_example = Expr_round_trip expr_debug expr_debug-RendersNames total total-IsSupported

abbrev asin_node : LogicalExprNode
asin_node =
    expr_node
      (ExprType.scalar_function (pos 4) (nodes (expr_node (column_name (codes "x"))) no_nodes))

asin_written :
    LogicalExprNode_try_from expr_debug
      (Expr.scalar_function BuiltinScalarFunction.asin (exprs (column (codes "x")) no_exprs))
    ≡ ok asin_node
unfolding LogicalExprNode_try_from
asin_written = refl

unreadable_function_refused_example :
    Expr_try_from expr_debug asin_node
    ≡ err (general (codes "Protobuf deserialization error: Unsupported scalar function"))
unreadable_function_refused_example =
    unreadable_function_refused expr_debug BuiltinScalarFunction.asin
      (exprs (column (codes "x")) no_exprs) asin_node (λ r. r) asin_written

-- A builder that makes plans with no checks, for a schema with known names.
abbrev plain_builder : LogicalPlanBuilder LogicalPlan
plain_builder = record {
  project = λ p es. ok (LogicalPlan.projection es p);
  filter = λ p e. ok (LogicalPlan.filter e p);
  aggregate = λ p gs as'. ok (LogicalPlan.aggregate p gs as');
  scan_csv = λ path options projection. ok (
      table_scan [] options.schema
        (csv_file path options.delimiter options.has_header options.file_extension) no_exprs
        projection);
  scan_parquet = λ path projection n. ok (
      table_scan [] (record { fields = []; metadata = [] }) (TableProvider.parquet_table path)
        no_exprs projection);
  sort = λ p es. ok (LogicalPlan.sort p es);
  repartition = λ p scheme. ok (LogicalPlan.repartition p scheme);
  empty = λ one. ok (LogicalPlan.empty_relation one);
  create_external_table = λ schema name location file_type has_header.
      ok (LogicalPlan.create_external_table name location file_type has_header schema);
  explain = λ p verbose. ok (LogicalPlan.explain verbose p);
  limit = λ p n. ok (LogicalPlan.limit p n);
  join = λ l r t left_keys right_keys. ok (LogicalPlan.join l r [] t);
  index_of = λ schema c. required (position c schema.fields) (codes "no such field");
}

plain_builder-FindsFirst : FindsFirst plain_builder
plain_builder-FindsFirst schema c i e = rw e

abbrev pub points : Schema
points = record {
  fields =
      new_field (codes "x") DataType.int32 false ∷ new_field (codes "y") DataType.int32 false ∷ [];
  metadata = [];
}

-- The first five rows of the second column of a CSV file.
abbrev first_rows : LogicalPlan
first_rows =
    LogicalPlan.limit
      (table_scan (codes "points") points (csv_file (codes "points.csv") 44 true (codes ".csv"))
        no_exprs (some (1 ∷ [])))
      5

abbrev plan_debug : PlanDebug
plan_debug = record {
  exprs = expr_debug;
  empty_node = codes "node";
  any = codes "Any";
  texts = λ ts. codes "names";
}

first_rows-PlanSupported : PlanSupported expr_debug first_rows
unfolding PlanSupported AllSupported text_eq
first_rows-PlanSupported = (((refl, tt), (tt, tt)), omega arith, (omega arith, tt), tt)

LogicalPlan_round_trip_example :
    (m : LogicalPlanNode) × (LogicalPlanNode_try_from plan_debug first_rows ≡ ok m)
    × (LogicalPlan_try_from plan_debug plain_builder m ≡ rebuild plain_builder first_rows)
LogicalPlan_round_trip_example =
    LogicalPlan_round_trip plan_debug plain_builder expr_debug-RendersNames plain_builder-FindsFirst
      first_rows first_rows-PlanSupported
