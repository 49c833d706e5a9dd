-- ===== src/Planner.antt =====
-- rust/scheduler/src/planner.rs: `DistributedPlanner` cuts a physical plan into query stages.
pub mod Shuffles
pub mod Resolved
pub mod Chunks
pub mod Execute
pub mod Resolves
pub mod Executed
pub mod Panics
pub mod Order
pub mod Stages
pub mod Cuts
pub mod Results
pub mod Total
use ballista.Prelude.{ℕ, ◌+◌, List, [], ◌∷◌, ◌++◌, ◌==◌, if◌then◌else◌, Bool, true, false}
use ballista.Text.{Text, codes}
use ballista.Error.{general, Result, ok, err, panicked}
use ballista.Error.Actions.{Exec, pure, lift, ◌>>=◌}
use ballista.Serde.{ExecutorMeta}
use ballista.Plan.{
  ExecutionPlan, query_stage, shuffle_reader, unresolved_shuffle, operator, Plans, nil, cons,
  DataFusion, OpKind, merge, hash_join, other, hash_aggregate, partial, final, schema,
  partition_count, with_new_children,
}

-- `QueryStageExec`, as the planner returns it.
pub record QueryStage (Op Schema : Type 0) : Type 0 where
  pub job_id : Text
  pub stage_id : ℕ
  pub child : ExecutionPlan Op Schema

pub record DistributedPlanner : Type 0 where
  pub executors : List ExecutorMeta
  pub next_stage_id : ℕ

unfoldable pub try_new : List ExecutorMeta → Result DistributedPlanner
try_new [] = err (general (codes "DistributedPlanner requires at least one executor"))
try_new (e ∷ es) = ok (record { executors = e ∷ es; next_stage_id = 0 })

-- Generate a new stage id.
unfoldable pub next_stage_id : Exec DistributedPlanner ℕ
next_stage_id s = let id = s.next_stage_id + 1 in (ok id, record s { next_stage_id = id })

module _ {Op Schema : Type 0} (df : DataFusion Op Schema) (job_id : Text) where
  unfoldable pub create_query_stage : ℕ → ExecutionPlan Op Schema → Result (QueryStage Op Schema)
  create_query_stage stage_id plan =
      ok (record { job_id = job_id; stage_id = stage_id; child = plan })

  -- The shuffle that stands for the output of a stage.
  unfoldable pub shuffle_of : QueryStage Op Schema → ExecutionPlan Op Schema
  shuffle_of stage =
      unresolved_shuffle (stage.stage_id ∷ []) (schema df stage.child)
        (partition_count df stage.child)

  -- `for child in &children`: a stage for each child, and the shuffles that take their place.
  unfoldable pub stage_children :
      Plans Op Schema → Exec DistributedPlanner (Plans Op Schema × List (QueryStage Op Schema))
  unfolding create_query_stage shuffle_of next_stage_id
  stage_children nil = pure (nil, [])
  stage_children (cons child rest) = do
    id ← next_stage_id
    stage ← lift (create_query_stage id child)
    (shuffles, stages) ← stage_children rest
    pure (cons (shuffle_of stage) shuffles, stage ∷ stages)

  -- The cases of `plan_query_stages_internal` after its loop over the children: the plan itself,
  -- its first original child, its new children and the stages that the loop collected.
  unfoldable pub repartition :
      ExecutionPlan Op Schema
      → Plans Op Schema
      → List (QueryStage Op Schema)
      → Exec DistributedPlanner (ExecutionPlan Op Schema × List (QueryStage Op Schema))
  unfolding stage_children
  repartition plan new_children stages = do
    (shuffles, new_stages) ← stage_children new_children
    new_plan ← lift (with_new_children df plan shuffles)
    pure (new_plan, stages ++ new_stages)

  -- The case of `MergeExec`, whose stage holds the original child.
  unfoldable pub merge_stage :
      ExecutionPlan Op Schema
      → ExecutionPlan Op Schema
      → List (QueryStage Op Schema)
      → Exec DistributedPlanner (ExecutionPlan Op Schema × List (QueryStage Op Schema))
  unfolding create_query_stage shuffle_of next_stage_id
  merge_stage plan child stages = do
    id ← next_stage_id
    stage ← lift (create_query_stage id child)
    new_plan ← lift (with_new_children df plan (cons (shuffle_of stage) nil))
    pure (new_plan, stages ++ stage ∷ [])

  unfoldable pub keep_children :
      ExecutionPlan Op Schema
      → Plans Op Schema
      → List (QueryStage Op Schema)
      → Exec DistributedPlanner (ExecutionPlan Op Schema × List (QueryStage Op Schema))
  keep_children plan new_children stages = do
    new_plan ← lift (with_new_children df plan new_children)
    pure (new_plan, stages)

  -- `children[0]` of an operator without children would panic; the caller returned before that.
  unfoldable pub cut :
      OpKind
      → ExecutionPlan Op Schema
      → Plans Op Schema
      → Plans Op Schema
      → List (QueryStage Op Schema)
      → Exec DistributedPlanner (ExecutionPlan Op Schema × List (QueryStage Op Schema))
  unfolding repartition merge_stage keep_children
  cut merge plan nil new_children stages = lift panicked
  cut merge plan (cons child rest) new_children stages = merge_stage plan child stages
  cut (hash_aggregate final) plan old new_children stages = repartition plan new_children stages
  cut (hash_aggregate partial) plan old new_children stages = keep_children plan new_children stages
  cut hash_join plan old new_children stages = keep_children plan new_children stages
  cut other plan old nil stages = lift panicked
  cut other plan old (cons child rest) stages =
      if partition_count df plan == partition_count df child
      then keep_children plan (cons child rest) stages
      else repartition plan (cons child rest) stages

  -- An operator without children is returned as it is.
  unfoldable pub finish_operator :
      Op
      → Plans Op Schema
      → Plans Op Schema
      → List (QueryStage Op Schema)
      → Exec DistributedPlanner (ExecutionPlan Op Schema × List (QueryStage Op Schema))
  unfolding cut
  finish_operator op nil new_children stages = pure (operator op nil, [])
  finish_operator op (cons child rest) new_children stages =
      cut (df.kind op) (operator op (cons child rest)) (cons child rest) new_children stages

  unfoldable mutual
    unfolding finish_operator

    pub plan_query_stages_internal :
        ExecutionPlan Op Schema
        → Exec DistributedPlanner (ExecutionPlan Op Schema × List (QueryStage Op Schema))
    plan_query_stages_internal (query_stage job stage_id child) = do
      (new_child, stages) ← plan_query_stages_internal child
      cut other (query_stage job stage_id child) (cons child nil) (cons new_child nil) stages
    plan_query_stages_internal (shuffle_reader locations s) = pure (shuffle_reader locations s, [])
    plan_query_stages_internal (unresolved_shuffle ids s count) =
        pure (unresolved_shuffle ids s count, [])
    plan_query_stages_internal (operator op inputs) = do
      (new_children, stages) ← plan_children inputs
      finish_operator op inputs new_children stages

    -- The loop over `execution_plan.children()`.
    pub plan_children :
        Plans Op Schema → Exec DistributedPlanner (Plans Op Schema × List (QueryStage Op Schema))
    plan_children nil = pure (nil, [])
    plan_children (cons child rest) = do
      (new_child, child_stages) ← plan_query_stages_internal child
      (new_rest, rest_stages) ← plan_children rest
      pure (cons new_child new_rest, child_stages ++ rest_stages)

  unfoldable pub plan_query_stages :
      ExecutionPlan Op Schema → Exec DistributedPlanner (List (QueryStage Op Schema))
  unfolding plan_query_stages_internal create_query_stage next_stage_id
  plan_query_stages plan = do
    (new_plan, stages) ← plan_query_stages_internal plan
    id ← next_stage_id
    stage ← lift (create_query_stage id new_plan)
    pure (stages ++ stage ∷ [])
