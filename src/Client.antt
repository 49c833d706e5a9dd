-- ===== src/Client.antt =====
-- rust/client/src/context.rs: `BallistaDataFrame::collect`, which submits a query, polls the status
-- of its job and fetches the result's partitions.
pub mod Waiting
use ballista.Prelude.{ℕ, zero, suc, List, [], ◌∷◌, ◌++◌, Option, none, some}
use ballista.Text.{Text, codes}
use ballista.Error.{general, internal, Result, ok, err, required}
use ballista.Error.Actions.{Exec, pure, lift, ◌>>=◌}
use ballista.Proto.{PartitionLocation, JobState, JobStatus}
use ballista.Serde.{u16}

-- The calls of other parts: connecting to the scheduler, the two calls of its service, the
-- conversion of the plan, and fetching one partition from an executor with all its batches.
-- `sleep` is the 100 milliseconds between two polls.
pub record Service (S LogicalPlan LogicalPlanNode Batch : Type 0) : Type 0 where
  pub connect : Exec S (Unit {0})
  pub to_node : LogicalPlan → Result LogicalPlanNode
  pub execute_query : LogicalPlanNode → Exec S Text
  pub get_job_status : Text → Exec S (Option JobStatus)
  pub fetch_partition : Text → ℕ → Text → ℕ → ℕ → Exec S (List Batch)
  pub sleep : S → S

-- `ok_or_else` with an internal error.
abbrev pub received {ℓ} : {A : Type ℓ} → Option A → Text → Result A
received none message = err (internal message)
received (some a) message = ok a

-- `status.and_then(|s| s.status)`
abbrev pub state_of : Option JobStatus → Option JobState
state_of none = none
state_of (some s) = s.status

module _ {S LogicalPlan LogicalPlanNode Batch : Type 0}
    (service : Service S LogicalPlan LogicalPlanNode Batch) where
  -- `for location in completed.partition_location`
  unfoldable pub fetch_all : List PartitionLocation → List Batch → Exec S (List Batch)
  fetch_all [] result = pure result
  fetch_all (location ∷ rest) result = do
    metadata ← lift (received location.executor_meta (codes "Received empty executor metadata"))
    partition_id ← lift (received location.partition_id (codes "Received empty partition id"))
    batches ←
        service.fetch_partition metadata.host (u16 metadata.port) partition_id.job_id
          partition_id.stage_id partition_id.partition_id
    fetch_all rest (result ++ batches)

  -- What the loop does with a status, given its next round.
  unfoldable pub on_status :
      Text → JobState → Exec S (Option (List Batch)) → Exec S (Option (List Batch))
  unfolding fetch_all
  on_status job_id JobState.queued again s = again (service.sleep s)
  on_status job_id JobState.running again s = again (service.sleep s)
  on_status job_id (JobState.failed error) again s =
      (err (general (codes "Job " ++ (job_id ++ (codes " failed: " ++ error)))), s)
  on_status job_id (JobState.completed locations) again s =
      (do result ← fetch_all locations []; pure (some result)) s

  -- The loop, on fuel: `none` if the job is not settled after so many rounds.
  unfoldable pub await_job : ℕ → Text → Exec S (Option (List Batch))
  unfolding on_status
  await_job zero job_id = pure none
  await_job (suc fuel) job_id = do
    status ← service.get_job_status job_id
    job_state ← lift (received (state_of status) (codes "Received empty status message"))
    on_status job_id job_state (await_job fuel job_id)

  unfoldable pub collect : ℕ → LogicalPlan → Exec S (Option (List Batch))
  unfolding await_job
  collect fuel plan = do
    connected ← service.connect
    node ← lift (service.to_node plan)
    job_id ← service.execute_query node
    await_job fuel job_id
