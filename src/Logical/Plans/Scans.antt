-- ===== src/Logical/Plans/Scans.antt =====
-- The scans of tables survive their messages.
use ballista.Prelude.{
  ℕ, zero, suc, length, All, get_elem?, ◌<◌, Bool, Option, none, some, List, [], ◌∷◌, ◌≡◌, refl,
  sym, arith,
}
use ballista.Text.{Text}
use ballista.Error.{ok, bind-eq-ok, ok-injective}
use ballista.Logical.Arrow.{Schema, Field, name}
use ballista.Logical.Types.{Schema_into}
use ballista.Logical.Types.RoundTrip.{Schema_round_trip}
use ballista.Logical.Exprs.{Nodes}
use ballista.Logical.Plans.{
  TableProvider, LogicalPlanNode, PlanDebug, LogicalPlanBuilder, df_table_adapter, parquet_table,
  csv_file, other_table, csv_scan,
}
use ballista.Logical.Plans.Writing.{scan_node, projection_columns, column_names, delimiter_text}
use ballista.Logical.Plans.Reading.{
  parquet_column, parquet_scan_of, csv_scan_of, LogicalPlan_try_from,
}
use ballista.Logical.Plans.Columns.{DistinctNames, column-position}
use ballista.Logical.Plans.Rebuild.{
  known_schema, FindsFirst, TableSupported, ColumnsInRange, rebuild_scan,
}

pub delimiter_written : (d : ℕ) → d < 128 → delimiter_text d ≡ ok (d ∷ [])
unfolding delimiter_text
delimiter_written d h = ground arith

in_range_elem : (fs : List Field) (i : ℕ) → i < length fs → (f : Field) × (get_elem? fs i ≡ some f)
in_range_elem [] i h = absurd (omega arith)
in_range_elem (f ∷ fs) zero h = (f, refl)
in_range_elem (f ∷ fs) (suc i) h = in_range_elem fs i (omega (arith, h))

-- Columns in range have names.
columns_named :
    (schema : Schema) (columns : List ℕ)
    → All (λ i. i < length schema.fields) columns
    → (names : List Text) × (column_names schema columns ≡ ok names)
unfolding column_names
columns_named schema [] h = ([], refl)
columns_named schema (i ∷ columns) h =
    let (f, found) = in_range_elem schema.fields i h.0 in
    let (names, rest) = columns_named schema columns h.1 in (name f ∷ names, rw (found, rest))

pub projection_named :
    (schema : Schema) (projection : Option (List ℕ))
    → ColumnsInRange schema projection
    → (names : Option (List Text)) × (projection_columns schema projection ≡ ok names)
projection_named schema none h = (none, refl)
projection_named schema (some columns) h =
    let (names, found) = columns_named schema columns h in (some names, rw found)

projection_columns-some :
    (schema : Schema) (columns : List ℕ) (names : Option (List Text))
    → projection_columns schema (some columns) ≡ ok names
    → (ns : List Text) × (names ≡ some ns) × (column_names schema columns ≡ ok ns)
projection_columns-some schema columns names h =
    let (ns, found, made) = bind-eq-ok (column_names schema columns) _ h in
    (ns, sym (ok-injective made), found)

module _ {P : Type 0} (debug : PlanDebug) (builder : LogicalPlanBuilder P)
    (finds : FindsFirst builder) where
  parquet_scan_read :
      (table_name : Text) (schema : Schema) (path : Text) (filters : Nodes)
      (projection : Option (List ℕ)) (names : Option (List Text))
      → DistinctNames schema.fields
      → projection_columns schema projection ≡ ok names
      → parquet_scan_of debug builder (record {
        table_name = table_name;
        path = path;
        projection = names;
        schema = some (Schema_into schema);
        filters = filters;
      })
        ≡ builder.scan_parquet path projection 24
  unfolding parquet_scan_of parquet_column
  parquet_scan_read table_name schema path filters none names d h = rw (sym (ok-injective h))
  parquet_scan_read table_name schema path filters (some columns) names d h =
      let (ns, same, found) = projection_columns-some schema columns names h in
      let back =
        column-position schema d (parquet_column debug builder (known_schema schema))
          (λ c i e. rw e) columns ns found in
      rw (same, Schema_round_trip schema, back)

  csv_scan_read :
      (table_name : Text) (schema : Schema) (path : Text) (delimiter : ℕ) (has_header : Bool)
      (file_extension : Text) (filters : Nodes) (projection : Option (List ℕ))
      (names : Option (List Text))
      → DistinctNames schema.fields
      → projection_columns schema projection ≡ ok names
      → csv_scan_of debug builder (record {
        table_name = table_name;
        path = path;
        has_header = has_header;
        delimiter = delimiter ∷ [];
        file_extension = file_extension;
        projection = names;
        schema = some (Schema_into schema);
        filters = filters;
      })
        ≡ rebuild_scan builder
            (ok (csv_file path delimiter has_header file_extension))
            schema
            projection
  unfolding csv_scan_of
  csv_scan_read table_name schema path delimiter has_header file_extension filters none names d h =
      rw (sym (ok-injective h), Schema_round_trip schema)
  csv_scan_read table_name schema path delimiter has_header file_extension filters (some columns)
        names d h =
      let (ns, same, found) = projection_columns-some schema columns names h in
      let back =
        column-position schema d (builder.index_of (known_schema schema))
          (λ c i e. finds (known_schema schema) c i e) columns ns found in
      rw (same, Schema_round_trip schema, back)

  -- A scan of a supported table is written, and read back as the scan.
  pub scan_round_trip :
      (table_name : Text) (schema : Schema) (source : TableProvider) (filters : Nodes)
      (projection : Option (List ℕ)) (names : Option (List Text))
      → DistinctNames schema.fields
      → TableSupported (ok source)
      → projection_columns schema projection ≡ ok names
      → (m : LogicalPlanNode) × (scan_node debug table_name schema source filters names ≡ ok m)
        × (LogicalPlan_try_from debug builder m
            ≡ rebuild_scan builder (ok source) schema projection)
  unfolding scan_node LogicalPlan_try_from
  scan_round_trip table_name schema (parquet_table path) filters projection names d s h =
      (_, refl, parquet_scan_read table_name schema path filters projection names d h)
  scan_round_trip table_name schema (csv_file path del hh ext) filters projection names d s h = (
    csv_scan (record {
      table_name = table_name;
      path = path;
      has_header = hh;
      delimiter = del ∷ [];
      file_extension = ext;
      projection = names;
      schema = some (Schema_into schema);
      filters = filters;
    }),
    rw (delimiter_written del s),
    csv_scan_read table_name schema path del hh ext filters projection names d h,
  )
  scan_round_trip table_name schema (df_table_adapter plan) filters projection names d s h =
      absurd s
  scan_round_trip table_name schema other_table filters projection names d s h = absurd s
