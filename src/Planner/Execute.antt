-- ===== src/Planner/Execute.antt =====
-- `execute_distributed_query`, `execute` and `execute_query_stage` of rust/scheduler/src/planner.rs:
-- the stages are executed one after the other, and each reads what those before it left.
use ballista.Prelude.{ℕ, ◌+◌, ◌%◌, List, [], ◌∷◌, ◌++◌, length, get_elem?}
use ballista.Text.{Text, codes}
use ballista.Text.Decimal.{decimal}
use ballista.Error.{BallistaError, general, Result, ok, err, panicked, bind}
use ballista.Error.Actions.{Exec, pure, lift, ◌>>=◌}
use ballista.Serde.{ExecutorMeta, PartitionLocation}
use ballista.Plan.{
  ExecutionPlan, query_stage, shuffle_reader, unresolved_shuffle, operator, DataFusion, schema,
  partition_count,
}
use ballista.Format.{PlanTexts, slice, format_plan, logged}
use ballista.Planner.{QueryStage, DistributedPlanner, plan_query_stages}
use ballista.Planner.Shuffles.{Locations, remove_unresolved_shuffles}
use ballista.Planner.Chunks.{partition_chunks, indexed, stage_locations}

-- One call of `BallistaClient::execute_partition`, on an executor.
pub record Call (Op Schema : Type 0) : Type 0 where
  pub executor : ExecutorMeta
  pub job_id : Text
  pub stage_id : ℕ
  pub partition_ids : List ℕ
  pub plan : ExecutionPlan Op Schema

-- What `join_all` gives for a spawned call; `not_joined` is a call that panicked, as rendered.
pub data Joined : Type 0 where
  finished : Joined
  failed : BallistaError → Joined
  not_joined : Text → Joined

-- Spawning the calls and waiting for all of them: the client's and the runtime's part.
abbrev pub JoinAll : Type 0 → Type 0 → Type 0 → Type 0
JoinAll S Op Schema = List (Call Op Schema) → Exec S (List Joined)

-- `for result in results`
unfoldable pub check_results : ℕ → List Joined → Result (Unit {0})
check_results stage_id [] = ok tt
check_results stage_id (finished ∷ rest) = check_results stage_id rest
check_results stage_id (failed e ∷ rest) = err e
check_results stage_id (not_joined e ∷ rest) =
    err (general (codes "Query stage " ++ (decimal stage_id ++ (codes " failed: " ++ e))))

module _ {Op Schema : Type 0} (job_id : Text) (stage_id : ℕ) (plan : ExecutionPlan Op Schema) where
  -- The loop that spawns the calls, from chunk `i` on.
  unfoldable pub calls_from : List ExecutorMeta → ℕ → List (List ℕ) → Result (List (Call Op Schema))
  calls_from executors i [] = ok []
  calls_from executors i (chunk ∷ rest) =
      bind (indexed (get_elem? executors (i % length executors))) λ meta.
        bind (calls_from executors (i + 1) rest) λ others. ok (
          record {
            executor = meta;
            job_id = job_id;
            stage_id = stage_id;
            partition_ids = chunk;
            plan = plan;
          }
          ∷ others)

module _ {Op Schema : Type 0} where
  -- `downcast_ref::<QueryStageExec>().unwrap()`
  unfoldable pub as_query_stage : ExecutionPlan Op Schema → Result (QueryStage Op Schema)
  as_query_stage (query_stage job_id stage_id child) =
      ok (record { job_id = job_id; stage_id = stage_id; child = child })
  as_query_stage (shuffle_reader locations s) = panicked
  as_query_stage (unresolved_shuffle ids s count) = panicked
  as_query_stage (operator op inputs) = panicked

  -- `stages.last().unwrap()`
  unfoldable pub last_stage : List (QueryStage Op Schema) → Result (QueryStage Op Schema)
  last_stage [] = panicked
  last_stage (stage ∷ []) = ok stage
  last_stage (stage ∷ next ∷ rest) = last_stage (next ∷ rest)

module _ {S Op Schema : Type 0} (df : DataFusion Op Schema) (texts : PlanTexts Op Schema)
    (join_all : JoinAll S Op Schema) where
  unfoldable pub execute_query_stage :
      Text → ℕ → ExecutionPlan Op Schema → List ExecutorMeta → Exec S (List PartitionLocation)
  unfolding stage_locations calls_from check_results format_plan
  execute_query_stage job_id stage_id plan executors = do
    info ← lift (logged texts.info (format_plan df texts plan 0))
    let count = partition_count df plan
    meta ← lift (stage_locations job_id stage_id count executors)
    calls ←
        lift
          (calls_from job_id stage_id plan executors 0 (partition_chunks count (length executors)))
    results ← join_all calls
    checked ← lift (check_results stage_id results)
    pure meta

  -- `for stage in &stages`: an insertion into the map hides what was there.
  unfoldable pub execute_stages :
      List ExecutorMeta
      → List (QueryStage Op Schema)
      → Locations
      → List PartitionLocation
      → Exec S (List PartitionLocation)
  unfolding remove_unresolved_shuffles as_query_stage execute_query_stage slice
  execute_stages executors [] partition_locations result = pure result
  execute_stages executors (stage ∷ stages) partition_locations result = do
    debug ←
        lift (logged texts.debug (slice 60 (texts.stage stage.job_id stage.stage_id stage.child)))
    resolved ← lift (
        remove_unresolved_shuffles df (query_stage stage.job_id stage.stage_id stage.child)
          partition_locations)
    stage' ← lift (as_query_stage resolved)
    locations ← execute_query_stage stage'.job_id stage'.stage_id stage'.child executors
    execute_stages executors stages ((stage'.stage_id, locations) ∷ partition_locations) locations

  unfoldable pub execute :
      List (QueryStage Op Schema) → List ExecutorMeta → Exec S (ExecutionPlan Op Schema)
  unfolding execute_stages last_stage
  execute stages executors = do
    result ← execute_stages executors stages [] []
    last ← lift (last_stage stages)
    pure (shuffle_reader result (schema df last.child))

  -- `for plan in &execution_plans`
  unfoldable pub log_stages : List (QueryStage Op Schema) → Result (Unit {0})
  unfolding format_plan
  log_stages [] = ok tt
  log_stages (stage ∷ stages) =
      bind
        (logged texts.info
          (format_plan df texts (query_stage stage.job_id stage.stage_id stage.child) 0))
        λ info. log_stages stages

  -- The execution of what the planner returned.
  unfoldable pub execute_planned :
      Result (List (QueryStage Op Schema)) → List ExecutorMeta → Exec S (ExecutionPlan Op Schema)
  unfolding execute log_stages
  execute_planned planned executors = do
    stages ← lift planned
    info ← lift (log_stages stages)
    execute stages executors

  -- The planner, and what the executors work on.
  unfoldable pub execute_distributed_query :
      Text → ExecutionPlan Op Schema → Exec (DistributedPlanner × S) (ExecutionPlan Op Schema)
  unfolding plan_query_stages execute_planned
  execute_distributed_query job_id plan (planner, s) =
      let (planned, planner') = plan_query_stages df job_id plan planner in
      let (executed, s') = execute_planned planned planner'.executors s in
      (executed, (planner', s'))
