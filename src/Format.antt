-- ===== src/Format.antt =====
-- `format_plan` of rust/core/src/utils.rs: a plan as text, for logs.
pub mod Prints
use ballista.Prelude.{
  if◌then◌else◌, ℕ, zero, suc, ◌+◌, Bool, true, false, List, [], ◌∷◌, ◌++◌, map, length, ltb, leb,
}
use ballista.Text.{Text, codes}
use ballista.Text.Decimal.{decimal}
use ballista.Error.{Result, ok, panicked, ◌>>=◌, bind, collect}
use ballista.Serde.{PartitionLocation}
use ballista.Plan.{
  ExecutionPlan, query_stage, shuffle_reader, unresolved_shuffle, operator, Plans, nil, cons,
  DataFusion,
}

-- What `format_expr` tells apart of a physical expression, with its parts by `Display`.
pub data ExprText : Type 0 where
  column : (name : Text) → ExprText
  literal : (value : Text) → ExprText
  binary_expr : (left op right : Text) → ExprText
  other_expr : Text → ExprText

-- An aggregate expression: the name of its field or the error, and its expressions.
pub record AggregateText : Type 0 where
  pub field_name : Result Text
  pub expressions : List ExprText

-- What `format_plan` reads of an operator of DataFusion. `other` is any other one, by `{:?}`.
pub data OperatorText : Type 0 where
  hash_aggregate : (group_expr : List ExprText) (aggr_expr : List AggregateText) → OperatorText
  hash_join : (join_type on : Text) → OperatorText
  parquet : (files : List ℕ) → OperatorText
  csv : (path : Text) → OperatorText
  filter : (predicate : ExprText) → OperatorText
  coalesce_batches : (target_batch_size : ℕ) → OperatorText
  merge : OperatorText
  other : Text → OperatorText

-- Texts of other libraries: an operator, and by `{:?}` a shuffle reader, a query stage and a vector
-- of strings. `info` and `debug` say which logs are on: a log that is off evaluates nothing.
pub record PlanTexts (Op Schema : Type 0) : Type 0 where
  pub operator_text : Op → Plans Op Schema → OperatorText
  pub reader : List PartitionLocation → Schema → Text
  pub stage : Text → ℕ → ExecutionPlan Op Schema → Text
  pub strings : List Text → Text
  pub info : Bool
  pub debug : Bool

-- A byte that is not the first of a character.
abbrev is_continuation : ℕ → Bool
is_continuation c = if leb 128 c then ltb c 192 else false

-- `&text[0..n]`, which panics past the end and inside a character.
unfoldable pub slice : ℕ → Text → Result Text
slice zero [] = ok []
slice zero (c ∷ text) = if is_continuation c then panicked else ok []
slice (suc n) [] = panicked
slice (suc n) (c ∷ text) = do rest ← slice n text; ok (c ∷ rest)

abbrev join : Text → List Text → Text
join separator [] = []
join separator (t ∷ []) = t
join separator (t ∷ u ∷ ts) = t ++ separator ++ join separator (u ∷ ts)

-- `{:?}` of a vector of numbers.
abbrev numbers_text : List ℕ → Text
numbers_text ns = codes "[" ++ join (codes ", ") (map decimal ns) ++ codes "]"

abbrev sum : List ℕ → ℕ
sum [] = 0
sum (n ∷ ns) = n + sum ns

abbrev repeat : Text → ℕ → Text
repeat t zero = []
repeat t (suc n) = t ++ repeat t n

unfoldable pub format_expr : ExprText → Text
format_expr (column name) = name
format_expr (literal value) = value
format_expr (binary_expr left op right) = left ++ codes " " ++ op ++ codes " " ++ right
format_expr (other_expr text) = text

-- The line of an operator, with what its children were formatted to below it.
abbrev laid_out : ℕ → Text → List Text → Text
laid_out indent operator_str [] = repeat (codes "  ") indent ++ operator_str
laid_out indent operator_str (c ∷ cs) =
    repeat (codes "  ") indent ++ operator_str ++ codes "\n" ++ join (codes "\n") (c ∷ cs)

module _ {Op Schema : Type 0} (df : DataFusion Op Schema) (texts : PlanTexts Op Schema) where
  unfoldable pub format_agg_expr : AggregateText → Result Text
  unfolding format_expr
  format_agg_expr a = do
    name ← a.field_name
    ok (name ++ codes " " ++ texts.strings (map format_expr a.expressions))

  -- The line of an operator with so many partitions.
  unfoldable pub format_operator : OperatorText → ℕ → Result Text
  unfolding format_agg_expr format_expr slice decimal
  format_operator (hash_aggregate group_expr aggr_expr) count = do
    aggrs ← collect format_agg_expr aggr_expr
    ok (
        codes "HashAggregateExec: groupBy="
        ++ texts.strings (map format_expr group_expr)
        ++ codes ", aggrExpr="
        ++ texts.strings aggrs)
  format_operator (hash_join join_type on) count =
      ok (codes "HashJoinExec: joinType=" ++ join_type ++ codes ", on=" ++ on)
  format_operator (parquet files) count = ok (
      codes "ParquetExec: partitions="
      ++ decimal (length files)
      ++ codes ", files="
      ++ decimal (sum files))
  format_operator (csv path) count =
      ok (codes "CsvExec: " ++ path ++ codes "; partitions=" ++ decimal count)
  format_operator (filter predicate) count = ok (codes "FilterExec: " ++ format_expr predicate)
  format_operator (coalesce_batches n) count =
      ok (codes "CoalesceBatchesExec: batchSize=" ++ decimal n)
  format_operator merge count = ok (codes "MergeExec")
  format_operator (other text) count = slice 120 text

  unfoldable mutual
    unfolding format_operator slice decimal

    pub format_plan : ExecutionPlan Op Schema → ℕ → Result Text
    format_plan (query_stage job_id stage_id child) indent = do
      c ← format_plan child (indent + 1)
      ok (
          laid_out indent
            (codes "QueryStageExec: job=" ++ job_id ++ codes ", stage=" ++ decimal stage_id)
            (c ∷ []))
    format_plan (shuffle_reader locations s) indent = do
      operator_str ← slice 120 (texts.reader locations s)
      ok (laid_out indent operator_str [])
    format_plan (unresolved_shuffle ids s count) indent =
        ok (laid_out indent (codes "UnresolvedShuffleExec: stages=" ++ numbers_text ids) [])
    format_plan (operator op inputs) indent = do
      operator_str ←
          format_operator (texts.operator_text op inputs) (df.op_partition_count op inputs)
      cs ← format_children inputs (indent + 1)
      ok (laid_out indent operator_str cs)

    pub format_children : Plans Op Schema → ℕ → Result (List Text)
    format_children nil indent = ok []
    format_children (cons p ps) indent = do
      c ← format_plan p indent
      cs ← format_children ps indent
      ok (c ∷ cs)

-- A log with a text that is evaluated only if the log is on.
abbrev pub logged : Bool → Result Text → Result (Unit {0})
logged false text = ok tt
logged true text = bind text λ t. ok tt
