-- ===== src/Plan.antt =====
-- Physical plans as the scheduler sees them: the three operators of
-- rust/core/src/execution_plans, and those of DataFusion behind an interface.
pub mod Children
use ballista.Prelude.{ℕ, List, [], ◌∷◌, ◌++◌, length}
use ballista.Text.{Text, codes}
use ballista.Error.{data_fusion_error, Result, ok, err, panicked, bind}
use ballista.Serde.{PartitionLocation}

-- A plan with its children. `operator` is any DataFusion operator.
mutual
  pub data ExecutionPlan (Op Schema : Type 0) : Type 0 where
    query_stage : Text → ℕ → ExecutionPlan Op Schema → ExecutionPlan Op Schema
    shuffle_reader : List PartitionLocation → Schema → ExecutionPlan Op Schema
    unresolved_shuffle : List ℕ → Schema → ℕ → ExecutionPlan Op Schema
    operator : Op → Plans Op Schema → ExecutionPlan Op Schema

  -- `Vec<Arc<dyn ExecutionPlan>>`
  pub data Plans (Op Schema : Type 0) : Type 0 where
    nil : Plans Op Schema
    cons : ExecutionPlan Op Schema → Plans Op Schema → Plans Op Schema

pub data AggregateMode : Type 0 where
  partial final : AggregateMode

-- What the downcasts of the planner tell apart.
pub data OpKind : Type 0 where
  merge hash_join other : OpKind
  hash_aggregate : AggregateMode → OpKind

-- DataFusion's operators: their schema and partition count over given children, and
-- `with_new_children`, which may refuse and may compute the operator's own data anew.
pub record DataFusion (Op Schema : Type 0) : Type 0 where
  pub kind : Op → OpKind
  pub op_schema : Op → Plans Op Schema → Schema
  pub op_partition_count : Op → Plans Op Schema → ℕ
  pub rebuild : Op → Plans Op Schema → Result Op

module _ {Op Schema : Type 0} where
  abbrev pub length_plans : Plans Op Schema → ℕ
  length_plans nil = 0
  length_plans (cons p ps) = ℕ.suc (length_plans ps)

  unfoldable pub children : ExecutionPlan Op Schema → Plans Op Schema
  children (query_stage job_id stage_id child) = cons child nil
  children (shuffle_reader locations schema) = nil
  children (unresolved_shuffle ids schema count) = nil
  children (operator op inputs) = inputs

  no_new_children : Text → Result (ExecutionPlan Op Schema)
  no_new_children name = err (
      data_fusion_error
        (codes "Plan(\"" ++ name ++ codes " does not support with_new_children()\")"))

module _ {Op Schema : Type 0} (df : DataFusion Op Schema) where
  unfoldable pub schema : ExecutionPlan Op Schema → Schema
  schema (query_stage job_id stage_id child) = schema child
  schema (shuffle_reader locations s) = s
  schema (unresolved_shuffle ids s count) = s
  schema (operator op inputs) = df.op_schema op inputs

  -- `output_partitioning().partition_count()`
  unfoldable pub partition_count : ExecutionPlan Op Schema → ℕ
  partition_count (query_stage job_id stage_id child) = partition_count child
  partition_count (shuffle_reader locations s) = length locations
  partition_count (unresolved_shuffle ids s count) = count
  partition_count (operator op inputs) = df.op_partition_count op inputs

  -- `assert!(children.len() == 1)` of `QueryStageExec` is the only panic.
  unfoldable pub with_new_children :
      ExecutionPlan Op Schema → Plans Op Schema → Result (ExecutionPlan Op Schema)
  unfolding no_new_children
  with_new_children (query_stage job_id stage_id child) (cons p nil) =
      ok (query_stage job_id stage_id p)
  with_new_children (query_stage job_id stage_id child) _ = panicked
  with_new_children (shuffle_reader locations s) ps =
      no_new_children (codes "Ballista ShuffleReaderExec")
  with_new_children (unresolved_shuffle ids s count) ps =
      no_new_children (codes "Ballista UnresolvedShuffleExec")
  with_new_children (operator op inputs) ps = bind (df.rebuild op ps) (λ op'. ok (operator op' ps))

-- The fields of an `UnresolvedShuffleExec`.
pub record UnresolvedShuffle (Schema : Type 0) : Type 0 where
  pub query_stage_ids : List ℕ
  pub schema : Schema
  pub partition_count : ℕ

-- `find_unresolved_shuffles` of rust/scheduler/src/state/mod.rs, which never fails: the leaves
-- from left to right.
unfoldable mutual
  pub find_unresolved_shuffles :
      {Op Schema : Type 0} → ExecutionPlan Op Schema → List (UnresolvedShuffle Schema)
  find_unresolved_shuffles (query_stage job_id stage_id child) =
      find_unresolved_shuffles child ++ []
  find_unresolved_shuffles (shuffle_reader locations s) = []
  find_unresolved_shuffles (unresolved_shuffle ids s count) =
      record { query_stage_ids = ids; schema = s; partition_count = count } ∷ []
  find_unresolved_shuffles (operator op inputs) = find_in_children inputs

  pub find_in_children : {Op Schema : Type 0} → Plans Op Schema → List (UnresolvedShuffle Schema)
  find_in_children nil = []
  find_in_children (cons p ps) = find_unresolved_shuffles p ++ find_in_children ps
