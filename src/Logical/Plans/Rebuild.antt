-- ===== src/Logical/Plans/Rebuild.antt =====
-- Plans that survive their messages, and the calls that build them.
use ballista.Prelude.{[], ℕ, length, All, ◌<◌, Option, none, some, List, map, ◌≡◌}
use ballista.Text.{Text}
use ballista.Error.{Result, ok, panicked, ◌>>=◌}
use ballista.Serde.{u32}
use ballista.Logical.Arrow.{Schema}
use ballista.Logical.Types.RoundTrip.{known_field}
use ballista.Logical.Functions.{ExprDebug}
use ballista.Logical.Exprs.ReadBack.{IsSupported, AllSupported, read_back, read_back_all}
use ballista.Logical.Plans.{
  Partitioning, LogicalPlan, TableProvider, LogicalPlanBuilder, table_scan, filter, extension,
  parquet_table, csv_file, round_robin_batch,
}
use ballista.Logical.Plans.Writing.{adapted_source}
use ballista.Logical.Plans.Reading.{position}
use ballista.Logical.Plans.Columns.{DistinctNames}

abbrev pub known_schema : Schema → Schema
known_schema schema = record { fields = map known_field schema.fields; metadata = [] }

-- `Schema::index_of` finds the first field of a name.
abbrev pub FindsFirst : {P : Type 0} → LogicalPlanBuilder P → Type 0
FindsFirst builder =
    (schema : Schema) (column : Text) (i : ℕ)
    → position column schema.fields ≡ some i
    → builder.index_of schema column ≡ ok i

-- The table below a scan is a Parquet file, or a CSV file with a delimiter of one byte.
abbrev pub TableSupported : Result TableProvider → Type 0
TableSupported (ok (parquet_table path)) = Unit
TableSupported (ok (csv_file path delimiter has_header file_extension)) = delimiter < 128
TableSupported _ = ⊥

abbrev pub ColumnsInRange : Schema → Option (List ℕ) → Type 0
ColumnsInRange schema none = Unit
ColumnsInRange schema (some columns) = All (λ i. i < length schema.fields) columns

module _ (debug : ExprDebug) where
  abbrev pub PartitioningSupported : Partitioning → Type 0
  PartitioningSupported (Partitioning.hash es n) = AllSupported debug es
  PartitioningSupported (round_robin_batch n) = Unit

  -- The expressions of a plan are supported, and the tables that it scans, with distinct names of
  -- their columns and a projection on these; it has no extension of a user.
  unfoldable pub PlanSupported : LogicalPlan → Type 0
  unfolding adapted_source
  PlanSupported (table_scan table_name schema source filters projection) =
      DistinctNames schema.fields
      × TableSupported (adapted_source source)
      × ColumnsInRange schema projection
      × AllSupported debug filters
  PlanSupported (LogicalPlan.projection expr input) = AllSupported debug expr × PlanSupported input
  PlanSupported (filter predicate input) = IsSupported debug predicate × PlanSupported input
  PlanSupported (LogicalPlan.aggregate input group_expr aggr_expr) =
      AllSupported debug group_expr × AllSupported debug aggr_expr × PlanSupported input
  PlanSupported (LogicalPlan.join left right on join_type) =
      PlanSupported left × PlanSupported right
  PlanSupported (LogicalPlan.limit input n) = PlanSupported input
  PlanSupported (LogicalPlan.sort input expr) = AllSupported debug expr × PlanSupported input
  PlanSupported (LogicalPlan.repartition input scheme) =
      PartitioningSupported scheme × PlanSupported input
  PlanSupported (LogicalPlan.explain verbose plan) = PlanSupported plan
  PlanSupported (LogicalPlan.empty_relation produce_one_row) = Unit
  PlanSupported (LogicalPlan.create_external_table name location file_type has_header schema) = Unit
  PlanSupported extension = ⊥

abbrev pub read_back_partitioning : Partitioning → Partitioning
read_back_partitioning (Partitioning.hash es n) = Partitioning.hash (read_back_all es) n
read_back_partitioning (round_robin_batch n) = round_robin_batch n

module _ {P : Type 0} (builder : LogicalPlanBuilder P) where
  abbrev pub rebuild_scan : Result TableProvider → Schema → Option (List ℕ) → Result P
  rebuild_scan (ok (parquet_table path)) schema projection = builder.scan_parquet path projection 24
  rebuild_scan (ok (csv_file path delimiter has_header file_extension)) schema projection =
      builder.scan_csv path
        (record {
          schema = known_schema schema;
          delimiter = delimiter;
          file_extension = file_extension;
          has_header = has_header;
        })
        projection
  rebuild_scan _ schema projection = panicked

  -- The plan built by the builder's calls, from its own parts: its expressions as they are read
  -- back, a limit of 32 bits, and a scanned table without its name and its filters.
  unfoldable pub rebuild : LogicalPlan → Result P
  unfolding adapted_source
  rebuild (table_scan table_name schema source filters projection) =
      rebuild_scan (adapted_source source) schema projection
  rebuild (LogicalPlan.projection expr input) = do
    plan ← rebuild input
    builder.project plan (read_back_all expr)
  rebuild (filter predicate input) = do
    plan ← rebuild input
    builder.filter plan (read_back predicate)
  rebuild (LogicalPlan.aggregate input group_expr aggr_expr) = do
    plan ← rebuild input
    builder.aggregate plan (read_back_all group_expr) (read_back_all aggr_expr)
  rebuild (LogicalPlan.join left right on join_type) = do
    l ← rebuild left
    r ← rebuild right
    builder.join l r join_type (map (λ pair. pair.0) on) (map (λ pair. pair.1) on)
  rebuild (LogicalPlan.limit input n) = do plan ← rebuild input; builder.limit plan (u32 n)
  rebuild (LogicalPlan.sort input expr) = do
    plan ← rebuild input
    builder.sort plan (read_back_all expr)
  rebuild (LogicalPlan.repartition input scheme) = do
    plan ← rebuild input
    builder.repartition plan (read_back_partitioning scheme)
  rebuild (LogicalPlan.empty_relation produce_one_row) = builder.empty produce_one_row
  rebuild (LogicalPlan.create_external_table name location file_type has_header schema) =
      builder.create_external_table (known_schema schema) name location file_type has_header
  rebuild (LogicalPlan.explain verbose plan) = do
    input ← rebuild plan
    builder.explain input verbose
  rebuild extension = panicked
