-- ===== src/Logical/Plans/RoundTrip.antt =====
-- What survives the writing and reading of logical plans.
use ballista.Prelude.{some, map, ◌≡◌, refl}
use ballista.Error.{Result, ok, err, panicked}
use ballista.Serde.{u32}
use ballista.Server.Files.{FileType, FileType_try_from}
use ballista.Logical.Messages.{from_i32}
use ballista.Logical.Types.RoundTrip.{Schema_round_trip}
use ballista.Logical.Exprs.{some_node}
use ballista.Logical.Exprs.ReadBack.{RendersNames}
use ballista.Logical.Exprs.RoundTrip.{Expr_round_trip, exprs_round_trip}
use ballista.Logical.Plans.{
  JoinType, Partitioning, LogicalPlan, TableProvider, LogicalPlanNode, PartitionMethod, PlanDebug,
  LogicalPlanBuilder, table_scan, filter, extension, selection, some_plan, round_robin_batch,
}
use ballista.Logical.Plans.Writing.{
  adapted_source, PartitionMethod_try_from, LogicalPlanNode_try_from, join_type_number,
  file_type_number,
}
use ballista.Logical.Plans.Reading.{
  join_types, partitioning_of, create_external_table_of, LogicalPlan_try_from, required_plan,
}
use ballista.Logical.Plans.Rebuild.{
  FindsFirst, TableSupported, PartitioningSupported, PlanSupported, read_back_partitioning, rebuild,
}
use ballista.Logical.Plans.Scans.{scan_round_trip, projection_named}

pub join_type_read : (t : JoinType) → from_i32 join_types (join_type_number t) ≡ some t
join_type_read JoinType.inner = refl
join_type_read _ = refl

file_type_read : (t : FileType) → FileType_try_from (file_type_number t) ≡ ok t
unfolding FileType_try_from
file_type_read FileType.nd_json = refl
file_type_read _ = refl

adapted_supported :
    (r : Result TableProvider)
    → TableSupported r
    → (t : TableProvider) × (r ≡ ok t) × TableSupported (ok t)
adapted_supported (ok t) s = (t, refl, s)
adapted_supported (err e) s = absurd s
adapted_supported panicked s = absurd s

module _ {P : Type 0} (debug : PlanDebug) (builder : LogicalPlanBuilder P)
    (renders : RendersNames debug.exprs) (finds : FindsFirst builder) where
  partitioning_round_trip :
      (scheme : Partitioning)
      → PartitioningSupported debug.exprs scheme
      → (m : PartitionMethod) × (PartitionMethod_try_from debug scheme ≡ ok m)
        × (partitioning_of debug builder m ≡ ok (read_back_partitioning scheme))
  unfolding PartitionMethod_try_from partitioning_of
  partitioning_round_trip (round_robin_batch n) s = (PartitionMethod.round_robin n, refl, refl)
  partitioning_round_trip (Partitioning.hash es n) s =
      let (ns, w, r) = exprs_round_trip debug.exprs renders es s in
      (PartitionMethod.hash ns n, rw w, rw r)

  plan_round_trip :
      (plan : LogicalPlan)
      → PlanSupported debug.exprs plan
      → (m : LogicalPlanNode) × (LogicalPlanNode_try_from debug plan ≡ ok m)
        × (LogicalPlan_try_from debug builder m ≡ rebuild builder plan)
  unfolding LogicalPlanNode_try_from LogicalPlan_try_from required_plan PlanSupported rebuild
      create_external_table_of
  plan_round_trip (table_scan table_name schema source filters projection) s =
      let (table, adapted, supported) = adapted_supported (adapted_source source) s.1 in
      let (names, named) = projection_named schema projection s.2 in
      let (ns, ws, rs) = exprs_round_trip debug.exprs renders filters s.3 in
      let (m, w, r) =
        scan_round_trip debug builder finds table_name schema table ns projection names s.0
          supported named in
      (m, rw (adapted, named, ws) w, rw adapted r)
  plan_round_trip (LogicalPlan.projection expr input) s =
      let (p, w, r) = plan_round_trip input s.1 in
      let (ns, ws, rs) = exprs_round_trip debug.exprs renders expr s.0 in
      (LogicalPlanNode.projection (some_plan p) ns, rw (w, ws), rw (r, rs))
  plan_round_trip (filter predicate input) s =
      let (p, w, r) = plan_round_trip input s.1 in
      let (n, wn, rn) = Expr_round_trip debug.exprs renders predicate s.0 in
      (selection (some_plan p) (some_node n), rw (w, wn), rw (r, rn))
  plan_round_trip (LogicalPlan.aggregate input group_expr aggr_expr) s =
      let (p, w, r) = plan_round_trip input s.2 in
      let (gs, wg, rg) = exprs_round_trip debug.exprs renders group_expr s.0 in
      let (ns, wa, ra) = exprs_round_trip debug.exprs renders aggr_expr s.1 in
      (LogicalPlanNode.aggregate (some_plan p) gs ns, rw (w, wg, wa), rw (r, rg, ra))
  plan_round_trip (LogicalPlan.join left right on join_type) s =
      let (l, lw, lr) = plan_round_trip left s.0 in
      let (r, rw', rr) = plan_round_trip right s.1 in
      (
        LogicalPlanNode.join (some_plan l) (some_plan r) (join_type_number join_type)
            (map (λ pair. pair.0) on) (map (λ pair. pair.1) on),
        rw (lw, rw'),
        rw (join_type_read join_type, lr, rr),
      )
  plan_round_trip (LogicalPlan.limit input n) s =
      let (p, w, r) = plan_round_trip input s in
      (LogicalPlanNode.limit (some_plan p) (u32 n), rw w, rw r)
  plan_round_trip (LogicalPlan.sort input expr) s =
      let (p, w, r) = plan_round_trip input s.1 in
      let (ns, ws, rs) = exprs_round_trip debug.exprs renders expr s.0 in
      (LogicalPlanNode.sort (some_plan p) ns, rw (w, ws), rw (r, rs))
  plan_round_trip (LogicalPlan.repartition input scheme) s =
      let (p, w, r) = plan_round_trip input s.1 in
      let (m, wm, rm) = partitioning_round_trip scheme s.0 in
      (LogicalPlanNode.repartition (some_plan p) (some m), rw (w, wm), rw (r, rm))
  plan_round_trip (LogicalPlan.empty_relation one) s =
      (LogicalPlanNode.empty_relation one, refl, refl)
  plan_round_trip (LogicalPlan.create_external_table name location file_type has_header schema) s =
      (_, refl, rw (file_type_read file_type, Schema_round_trip schema))
  plan_round_trip (LogicalPlan.explain verbose plan) s =
      let (p, w, r) = plan_round_trip plan s in
      (LogicalPlanNode.explain (some_plan p) verbose, rw w, rw r)
  plan_round_trip extension s = absurd s

-- A plan of supported expressions and tables is written, and reading its node makes the builder's
-- calls for the plan: its operators and columns, with the expressions as they are read back,
-- schemas without what their messages leave out, and a limit of 32 bits. A scan is built with
-- neither its filters nor the name of its table, and a Parquet scan with 24 as its concurrency.
-- `Debug` renders the names of operators, and `index_of` finds the first field of a name.
pub LogicalPlan_round_trip :
    {P : Type 0} (debug : PlanDebug) (builder : LogicalPlanBuilder P)
    → RendersNames debug.exprs
    → FindsFirst builder
    → (plan : LogicalPlan) → PlanSupported debug.exprs plan
    → (m : LogicalPlanNode) × (LogicalPlanNode_try_from debug plan ≡ ok m)
      × (LogicalPlan_try_from debug builder m ≡ rebuild builder plan)
LogicalPlan_round_trip debug builder renders finds plan s =
    plan_round_trip debug builder renders finds plan s
