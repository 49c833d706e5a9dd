-- ===== src/Physical/Rebuild.antt =====
-- Physical plans that survive their messages, and the calls that build them.
use ballista.Prelude.{ℕ, ◌^◌, ◌<◌, false, List, [], ◌∷◌, map, length, All, Option, some}
use ballista.Text.{Text}
use ballista.Error.{Result, ok, panicked, ◌>>=◌, collect}
use ballista.Serde.{u32, PartitionLocation}
use ballista.Serde.RoundTrip.{FitsProto}
use ballista.Logical.Arrow.{Schema}
use ballista.Logical.Functions.{AggregateFunction, BuiltinScalarFunction}
use ballista.Logical.Exprs.ReadBack.{IsSupported, AllSupported, read_back}
use ballista.Logical.Plans.Rebuild.{known_schema}
use ballista.Physical.{
  PhysicalExpr, PhysicalExprs, AggregateKind, AggregateExpr, PhysicalSortExpr, CsvExec,
  PhysicalPlan, PhysicalDebug, PhysicalBuilder, other_aggregate, projection_exec, filter_exec,
  global_limit_exec, local_limit_exec, hash_join_exec, hash_aggregate_exec, empty_exec,
  coalesce_batches_exec, csv_exec, parquet_exec, shuffle_reader_exec, merge_exec, sort_exec,
  unresolved_shuffle_exec, other_exec,
}
use ballista.Physical.Exprs.{logical_of, logical_exprs}
use ballista.Physical.Writing.{all_filenames, aggregate_function_of}

abbrev pub CsvSupported : Option ℕ → Option (List ℕ) → Type 0
CsvSupported (some delimiter) (some projection) = delimiter < 128
CsvSupported _ _ = ⊥

abbrev pub LocationFits : PartitionLocation → Type 0
LocationFits l = FitsProto l.partition_id × (l.executor_meta.port < 2 ^ 16)

module _ (debug : PhysicalDebug) (from_str : Text → Result BuiltinScalarFunction) where
  abbrev pub ExprSupported : PhysicalExpr → Type 0
  ExprSupported e = IsSupported debug.exprs (logical_of debug from_str e)

  -- An average, a sum or a count of supported expressions, one at least, whose field has a name.
  abbrev pub AggregateSupported : AggregateKind → PhysicalExprs → Result Text → Type 0
  AggregateSupported other_aggregate es name = ⊥
  AggregateSupported kind PhysicalExprs.no_exprs name = ⊥
  AggregateSupported kind (PhysicalExprs.exprs e es) (ok name) =
      ExprSupported e × AllSupported debug.exprs (logical_exprs debug from_str es)
  AggregateSupported kind (PhysicalExprs.exprs e es) _ = ⊥

  -- The expressions of a plan are supported, its CSV files have a delimiter of one byte and a
  -- projection, and the locations that it reads fit their messages.
  unfoldable pub PhysicalSupported : PhysicalPlan → Type 0
  PhysicalSupported (projection_exec expr input) =
      All (λ e. ExprSupported e.0) expr × PhysicalSupported input
  PhysicalSupported (filter_exec predicate input) =
      ExprSupported predicate × PhysicalSupported input
  PhysicalSupported (global_limit_exec input n) = PhysicalSupported input
  PhysicalSupported (local_limit_exec input n) = PhysicalSupported input
  PhysicalSupported (hash_join_exec left right on join_type) =
      PhysicalSupported left × PhysicalSupported right
  PhysicalSupported (hash_aggregate_exec mode group_expr aggr_expr input input_schema) =
      All (λ e. ExprSupported e.0) group_expr
      × All (λ (e : AggregateExpr). AggregateSupported e.kind e.expressions e.field_name) aggr_expr
      × PhysicalSupported input
  PhysicalSupported (empty_exec produce_one_row schema) = Unit
  PhysicalSupported (coalesce_batches_exec input n) = PhysicalSupported input
  PhysicalSupported (csv_exec exec) = CsvSupported exec.delimiter exec.projection
  PhysicalSupported (parquet_exec partitions projection batch_size) = Unit
  PhysicalSupported (shuffle_reader_exec locations schema) = All LocationFits locations
  PhysicalSupported (merge_exec input) = PhysicalSupported input
  PhysicalSupported (sort_exec input expr) =
      All (λ (e : PhysicalSortExpr PhysicalExpr). ExprSupported e.expr) expr
      × PhysicalSupported input
  PhysicalSupported (unresolved_shuffle_exec ids schema n) = Unit
  PhysicalSupported other_exec = ⊥

  module _ {P E A : Type 0} (builder : PhysicalBuilder P E A) where
    -- DataFusion's expression for what is read back of the logical one.
    abbrev pub compiled : Schema → PhysicalExpr → Result E
    compiled schema e =
        builder.create_physical_expr (read_back (logical_of debug from_str e)) schema

    abbrev pub compiled_named : Schema → PhysicalExpr × Text → Result (E × Text)
    compiled_named schema e = do c ← compiled schema e.0; ok (c, e.1)

    abbrev pub compiled_sort : Schema → PhysicalSortExpr PhysicalExpr → Result (PhysicalSortExpr E)
    compiled_sort schema e = do
      c ← compiled schema e.expr
      ok (record { expr = c; descending = e.descending; nulls_first = e.nulls_first })

    abbrev pub aggregate_call :
        Schema → Result AggregateFunction → PhysicalExprs → Result Text → Result A
    aggregate_call schema (ok fun) (PhysicalExprs.exprs e es) (ok name) = do
      c ← compiled schema e
      builder.create_aggregate_expr fun false (c ∷ []) schema name
    aggregate_call schema _ _ _ = panicked

    abbrev pub compiled_aggregate : Schema → AggregateExpr → Result A
    compiled_aggregate schema e =
        aggregate_call schema (aggregate_function_of debug from_str e.kind) e.expressions
          e.field_name

    abbrev pub csv_call : CsvExec → Option ℕ → Option (List ℕ) → Result P
    csv_call exec (some delimiter) (some projection) =
        builder.csv exec.path
          (record {
            schema = known_schema exec.schema;
            delimiter = delimiter;
            file_extension = exec.file_extension;
            has_header = exec.has_header;
          })
          (map u32 projection) 32768
    csv_call exec _ _ = panicked

    -- The plan built by the builder's calls, from its own parts: its expressions as they are read
    -- back, its numbers with 32 bits, and no names of CSV files.
    unfoldable pub rebuild : PhysicalPlan → Result P
    unfolding aggregate_function_of
    rebuild (projection_exec expr input) = do
      plan ← rebuild input
      es ← collect (compiled_named (builder.schema plan)) expr
      builder.projection es plan
    rebuild (filter_exec predicate input) = do
      plan ← rebuild input
      e ← compiled (builder.schema plan) predicate
      builder.filter e plan
    rebuild (global_limit_exec input n) = do
      plan ← rebuild input
      ok (builder.global_limit plan (u32 n))
    rebuild (local_limit_exec input n) = do
      plan ← rebuild input
      ok (builder.local_limit plan (u32 n))
    rebuild (hash_join_exec left right on join_type) = do
      l ← rebuild left
      r ← rebuild right
      builder.hash_join l r on join_type
    rebuild (hash_aggregate_exec mode group_expr aggr_expr input input_schema) = do
      plan ← rebuild input
      group ← collect (compiled_named (builder.schema plan)) group_expr
      aggrs ← collect (compiled_aggregate (known_schema input_schema)) aggr_expr
      builder.hash_aggregate mode group aggrs plan (known_schema input_schema)
    rebuild (empty_exec produce_one_row schema) =
        ok (builder.empty produce_one_row (known_schema schema))
    rebuild (coalesce_batches_exec input n) = do
      plan ← rebuild input
      ok (builder.coalesce_batches plan (u32 n))
    rebuild (csv_exec exec) = csv_call exec exec.delimiter exec.projection
    rebuild (parquet_exec partitions projection batch_size) =
        builder.parquet (all_filenames partitions) (map u32 projection) (u32 batch_size)
          (u32 (length partitions))
    rebuild (shuffle_reader_exec locations schema) =
        builder.shuffle_reader locations (known_schema schema)
    rebuild (merge_exec input) = do plan ← rebuild input; ok (builder.merge plan)
    rebuild (sort_exec input expr) = do
      plan ← rebuild input
      es ← collect (compiled_sort (builder.schema plan)) expr
      builder.sort es plan
    rebuild (unresolved_shuffle_exec ids schema n) =
        ok (builder.unresolved_shuffle (map u32 ids) (known_schema schema) (u32 n))
    rebuild other_exec = panicked
