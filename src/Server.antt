-- ===== src/Server.antt =====
-- rust/scheduler/src/lib.rs: the handlers of the scheduler's gRPC service.
pub mod Submit
pub mod Polls
pub mod Failures
pub mod Files
use ballista.Prelude.{
  ℕ, List, [], ◌∷◌, ◌++◌, map, Option, none, some, Bool, true, false, if◌then◌else◌, ◌≡◌,
}
use ballista.Text.{Text, Bytes, codes}
use ballista.Error.{BallistaError, Result, ok, err, panicked, display}
use ballista.Error.Actions.{Exec}
use ballista.Proto
use ballista.Proto.{TaskStatus, JobStatus, ExecutorMetadata}
use ballista.Serde.{ExecutorMeta, ExecutorMeta_into, ExecutorMeta_from}
use ballista.Plan.{ExecutionPlan}
use ballista.State.{
  SchedulerState, get_executors_metadata, save_executor_metadata, save_task_status,
  get_job_metadata,
}
use ballista.State.Synchronize.{synchronize_job_status}
use ballista.State.Assign.{Assignment, assign_next_schedulable_task}

-- The statuses of tonic that the handlers answer with.
pub data Code : Type 0 where
  internal invalid_argument unimplemented : Code

-- `crashed` is a panic in the handler.
pub data Response (A : Type 0) : Type 0 where
  response : A → Response A
  status : Code → Text → Response A
  crashed : Response A

abbrev pub Handler : Type 0 → Type 0 → Type 0
Handler S A = S → Response A × S

module _ {S A B : Type 0} where
  abbrev pub respond : Text → Result A → (A → Handler S B) → Handler S B
  respond message (ok a) k s = k a s
  respond message (err e) k s = (status internal (message ++ display e), s)
  respond message panicked k s = (crashed, s)

  -- `m.await.map_err(|e| … tonic::Status::internal(msg))?`, and the rest of the handler.
  abbrev pub or_internal : Text → Exec S A → (A → Handler S B) → Handler S B
  or_internal message m k s = let (r, s') = m s in respond message r k s'

  -- `if let Err(e) = m.await { warn!(…) }`
  abbrev pub ignoring : Exec S A → Handler S B → Handler S B
  ignoring m k s =
      let (r, s') = m s in elim r [ ok a ↦ k s' | err e ↦ k s' | panicked ↦ (crashed, s') ]

pub record PollWorkParams : Type 0 where
  pub metadata : Option ExecutorMetadata
  pub can_accept_task : Bool
  pub task_status : List TaskStatus

pub record TaskDefinition (PlanNode : Type 0) : Type 0 where
  pub plan : Option PlanNode
  pub task_id : Option Proto.PartitionId

pub record PollWorkResult (PlanNode : Type 0) : Type 0 where
  pub task : Option (TaskDefinition PlanNode)

module _ {S Op Schema PlanNode : Type 0} (state : SchedulerState S Op Schema PlanNode)
    (namespace : Text) where
  open state use {config_client, plan_serde}

  unfoldable pub handle_get_executors_metadata : Handler S (List ExecutorMetadata)
  handle_get_executors_metadata =
      or_internal (codes "Error reading executors metadata: ")
        (get_executors_metadata state namespace)
        λ metas s. (response (map ExecutorMeta_into metas), s)

  unfoldable pub handle_get_job_status : Text → Handler S JobStatus
  handle_get_job_status job_id =
      or_internal (codes "Error reading job metadata: ") (get_job_metadata state namespace job_id)
        λ job_meta s. (response job_meta, s)

  -- `for task_status in task_status`
  unfoldable pub save_statuses :
      List TaskStatus → Handler S (PollWorkResult PlanNode) → Handler S (PollWorkResult PlanNode)
  save_statuses [] k = k
  save_statuses (t ∷ ts) k =
      or_internal (codes "Could not save task status: ") (save_task_status state namespace t)
        λ saved. save_statuses ts k

  -- The reply to the executor: `unwrap` of the task's id, which is logged, and of the plan's
  -- conversion.
  unfoldable pub task_definition :
      Assignment Op Schema
      → (Option (TaskDefinition PlanNode) → Handler S (PollWorkResult PlanNode))
      → Handler S (PollWorkResult PlanNode)
  task_definition none k = k none
  task_definition (some (task, plan)) k = elim (task.partition_id) [
    | none ↦ λ s. (crashed, s)
    | some partition_id ↦ elim (plan_serde.to_proto plan) [
      | ok node ↦ k (some (record { plan = some node; task_id = some partition_id }))
      | err e ↦ λ s. (crashed, s)
      | panicked ↦ λ s. (crashed, s)
    ]
  ]

  -- `order` is the order in which the tasks are tried.
  unfoldable pub next_task :
      (List (Text × Bytes) → List (Text × Bytes))
      → Bool
      → Text
      → (Option (TaskDefinition PlanNode) → Handler S (PollWorkResult PlanNode))
      → Handler S (PollWorkResult PlanNode)
  unfolding task_definition
  next_task order false executor_id k = k none
  next_task order true executor_id k =
      or_internal (codes "Error finding next assignable task: ")
        (assign_next_schedulable_task state namespace order executor_id)
        λ assignment. task_definition assignment k

  unfoldable pub synchronize_if :
      List TaskStatus → Handler S (PollWorkResult PlanNode) → Handler S (PollWorkResult PlanNode)
  synchronize_if [] k = k
  synchronize_if (t ∷ ts) k = ignoring (synchronize_job_status state namespace) k

  -- The end of the handler: the lock is given back, and the reply sent.
  unfoldable pub reply_with : Option (TaskDefinition PlanNode) → Handler S (PollWorkResult PlanNode)
  reply_with task s =
      let (r, s') = config_client.unlock s in
      elim r [
        | ok done ↦ (response (record { task = task }), s')
        | err e ↦ (crashed, s')
        | panicked ↦ (crashed, s')
      ]

  -- What `poll_work` does while it has the lock.
  unfoldable pub poll_locked :
      (List (Text × Bytes) → List (Text × Bytes))
      → ExecutorMeta
      → Bool
      → List TaskStatus
      → Handler S (PollWorkResult PlanNode)
  unfolding save_statuses next_task synchronize_if reply_with
  poll_locked order metadata can_accept_task task_status =
      or_internal (codes "Could not save executor metadata: ")
        (save_executor_metadata state namespace metadata)
        λ saved. save_statuses task_status (
          next_task order can_accept_task metadata.id
            λ task. synchronize_if task_status (reply_with task))

  -- On every way out the guard is dropped.
  abbrev dropping : Handler S (PollWorkResult PlanNode) → Handler S (PollWorkResult PlanNode)
  dropping h s = let (r, s') = h s in (r, config_client.drop_guard s')

  unfoldable pub poll_metadata :
      (List (Text × Bytes) → List (Text × Bytes))
      → Option ExecutorMetadata
      → Bool
      → List TaskStatus
      → Handler S (PollWorkResult PlanNode)
  unfolding poll_locked
  poll_metadata order none can_accept_task task_status s =
      (status invalid_argument (codes "Missing metadata in request"), s)
  poll_metadata order (some metadata) can_accept_task task_status s =
      or_internal (codes "Could not lock the state: ") config_client.lock
        (λ locked.
          dropping (poll_locked order (ExecutorMeta_from metadata) can_accept_task task_status))
        s

  unfoldable pub poll_work :
      (List (Text × Bytes) → List (Text × Bytes))
      → PollWorkParams
      → Handler S (PollWorkResult PlanNode)
  unfolding poll_metadata
  poll_work order request =
      poll_metadata order request.metadata request.can_accept_task request.task_status
