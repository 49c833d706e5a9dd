-- ===== src/Server/Submit.antt =====
-- `execute_query` of rust/scheduler/src/lib.rs: a job is recorded, and a spawned task plans it and
-- records its stages and pending tasks.
use ballista.Prelude.{ℕ, List, [], ◌∷◌, ◌++◌, Option, none, some, range_from}
use ballista.Text.{Text, codes}
use ballista.Error.{Result, ok, err, panicked, display}
use ballista.Error.Actions.{Exec, pure, lift}
use ballista.Proto.{TaskStatus, JobState}
use ballista.Serde.{ExecutorMeta, u32}
use ballista.Plan.{ExecutionPlan, partition_count}
use ballista.Planner
use ballista.Planner.{QueryStage, DistributedPlanner, plan_query_stages}
use ballista.State.{
  SchedulerState, get_executors_metadata, save_job_metadata, save_stage_plan, save_task_status,
}
use ballista.Server.{Handler, Response, response, status, internal, or_internal}

-- An answer of DataFusion, or its error as it is rendered.
pub data Planned (A : Type 0) : Type 0 where
  planned : A → Planned A
  refused : Text → Planned A

-- DataFusion's SQL front end, its optimizer and its physical planner; the conversion of a logical
-- plan's message; and tonic's rendering of an internal status with a message.
pub record QueryEngine (LogicalPlan LogicalPlanNode Op Schema : Type 0) : Type 0 where
  pub from_node : LogicalPlanNode → Result LogicalPlan
  pub sql : Text → Planned LogicalPlan
  pub optimize : LogicalPlan → Planned LogicalPlan
  pub create_physical_plan : LogicalPlan → Planned (ExecutionPlan Op Schema)
  pub status_text : Text → Text

pub data Query (LogicalPlanNode : Type 0) : Type 0 where
  logical_plan : LogicalPlanNode → Query LogicalPlanNode
  sql : Text → Query LogicalPlanNode

-- What `fail_job!` is given: a value, or the message of the status that it fails with.
pub data Attempt (A : Type 0) : Type 0 where
  value : A → Attempt A
  failure : Text → Attempt A
  crash : Attempt A

module _ {A : Type 0} where
  abbrev pub of_result : Text → Result A → Attempt A
  of_result message (ok a) = value a
  of_result message (err e) = failure (message ++ display e)
  of_result message panicked = crash

  abbrev pub of_planned : Text → Planned A → Attempt A
  of_planned message (planned a) = value a
  of_planned message (refused e) = failure (message ++ e)

  -- `unwrap` of the result of an action
  abbrev pub unwrapped : Result A → Result A
  unwrapped (ok a) = ok a
  unwrapped (err e) = panicked
  unwrapped panicked = panicked

module _ {S Op Schema PlanNode LogicalPlan LogicalPlanNode : Type 0}
    (state : SchedulerState S Op Schema PlanNode)
    (engine : QueryEngine LogicalPlan LogicalPlanNode Op Schema) (namespace job_id : Text) where
  unfoldable pub save_failed : Text → Exec S (Unit {0})
  save_failed error s =
      let (r, s') =
        save_job_metadata state namespace job_id (record { status = some (JobState.failed error) })
          s in
      (unwrapped r, s')

  -- `fail_job!(attempt)`, and the rest of the task.
  unfoldable pub fail_job : {A : Type 0} → Attempt A → (A → Exec S (Unit {0})) → Exec S (Unit {0})
  unfolding save_failed
  fail_job (value a) k = k a
  fail_job (failure message) k = save_failed (engine.status_text message)
  fail_job crash k = lift panicked

  -- `fail_job!(action.await.map_err(…))`
  unfoldable pub fail_job_after :
      {A : Type 0} → Text → Exec S A → (A → Exec S (Unit {0})) → Exec S (Unit {0})
  unfolding fail_job
  fail_job_after message m k s = let (r, s') = m s in fail_job (of_result message r) k s'

  abbrev pub pending : ℕ → ℕ → TaskStatus
  pending stage_id partition_id = record {
    partition_id =
        some (record { job_id = job_id; stage_id = u32 stage_id; partition_id = u32 partition_id });
    status = none;
  }

  -- `for partition_id in 0..num_partitions`
  unfoldable pub save_pending : ℕ → List ℕ → Exec S (Unit {0}) → Exec S (Unit {0})
  unfolding fail_job_after
  save_pending stage_id [] k = k
  save_pending stage_id (p ∷ ps) k =
      fail_job_after (codes "Could not save task status: ")
        (save_task_status state namespace (pending stage_id p)) λ saved. save_pending stage_id ps k

  -- `for stage in stages`
  unfoldable pub save_stages : List (QueryStage Op Schema) → Exec S (Unit {0})
  unfolding save_pending
  save_stages [] = pure tt
  save_stages (stage ∷ stages) =
      fail_job_after (codes "Could not save stage plan: ")
        (save_stage_plan state namespace job_id stage.stage_id stage.child)
        λ saved.
          save_pending stage.stage_id (range_from 0 (partition_count state.data_fusion stage.child))
            (save_stages stages)

  -- The job is marked as running; a failure to do so is only logged.
  unfoldable pub mark_running : Exec S (Unit {0}) → Exec S (Unit {0})
  mark_running k s =
      let (r, s') =
        save_job_metadata state namespace job_id (record { status = some JobState.running }) s in
      elim r [ ok done ↦ k s' | err e ↦ k s' | panicked ↦ (panicked, s') ]

  -- The spawned task.
  unfoldable pub run_job : LogicalPlan → List ExecutorMeta → Exec S (Unit {0})
  unfolding fail_job mark_running save_stages
  run_job plan executors =
      fail_job
        (of_planned (codes "Could not create optimized logical plan: ") (engine.optimize plan))
        λ optimized.
          fail_job
            (of_planned (codes "Could not create physical plan: ")
              (engine.create_physical_plan optimized))
            λ physical. mark_running (
              fail_job
                (of_result (codes "Could not create distributed planner: ")
                  (Planner.try_new executors))
                λ planner.
                  fail_job
                    (of_result (codes "Could not plan query stages: ")
                      (plan_query_stages state.data_fusion job_id physical planner).0)
                    save_stages)

  -- The plan of a request.
  unfoldable pub parse_query :
      Query LogicalPlanNode → (LogicalPlan → Handler S Text) → Handler S Text
  parse_query (logical_plan node) k = elim (engine.from_node node) [
    | ok plan ↦ k plan
    | err e ↦
        λ s. (status internal (codes "Could not parse logical plan protobuf: " ++ display e), s)
    | panicked ↦ λ s. (Response.crashed, s)
  ]
  parse_query (sql text) k = elim (engine.sql text) [
    | planned plan ↦ k plan
    | refused e ↦ λ s. (status internal (codes "Error parsing SQL: " ++ e), s)
  ]

  -- `job_id` is the random id; the task that is spawned is handed to `spawn` with its arguments.
  unfoldable pub execute_query :
      Option (Query LogicalPlanNode) → (LogicalPlan → List ExecutorMeta → S → S) → Handler S Text
  unfolding parse_query
  execute_query none spawn s = (status internal (codes "Error parsing request"), s)
  execute_query (some query) spawn s =
      parse_query query
        (λ plan.
          or_internal (codes "Error reading executors metadata: ")
            (get_executors_metadata state namespace)
            λ executors.
              or_internal (codes "Could not save job metadata: ")
                (save_job_metadata state namespace job_id
                  (record { status = some JobState.queued }))
                λ saved s'. (response job_id, spawn plan executors s'))
        s
