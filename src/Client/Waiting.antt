-- ===== src/Client/Waiting.antt =====
-- That the polling loop of rust/client/src/context.rs ends once the job is settled.
use ballista.Prelude.{
  ℕ, suc, ◌+◌, ◌∙◌, List, [], ◌∷◌, ◌++◌, append-nil, append_assoc, Option, some, ◌≡◌, refl, ◌⊎◌,
  inl, inr,
}
use native.Mathlib.Nat.{suc-add, zero-add}
use ballista.Text.{Text}
use ballista.Error.{ok}
use ballista.Proto.{PartitionId, ExecutorMetadata, PartitionLocation, JobState, JobStatus}
use ballista.Serde.{u16}
use ballista.Client.{Service, fetch_all, await_job, collect}

abbrev status_is : JobState → Option JobStatus
status_is x = some (record { status = some x })

-- The job is queued or running.
abbrev pub IsPending : JobState → Type 0
IsPending x = (x ≡ JobState.queued) ⊎ (x ≡ JobState.running)

module _ {S LogicalPlan LogicalPlanNode Batch : Type 0}
    (service : Service S LogicalPlan LogicalPlanNode Batch) (job_id : Text) where
  -- To one state, so many polls in a row find the job pending, from another state.
  pub data Waits (t : S) : ℕ → S → Type 0 where
    at_once : Waits t 0 t
    later :
        {n : ℕ} {s u : S} (x : JobState)
        → service.get_job_status job_id s ≡ (ok (status_is x), u)
        → IsPending x
        → Waits t n (service.sleep u)
        → Waits t (suc n) s

  poll_pending :
      (fuel : ℕ) (t u : S) (x : JobState)
      → service.get_job_status job_id t ≡ (ok (status_is x), u)
      → IsPending x
      → await_job service (suc fuel) job_id t ≡ await_job service fuel job_id (service.sleep u)
  unfolding await_job
  poll_pending fuel t u x e (inl queued) = rw (e, queued) refl
  poll_pending fuel t u x e (inr running) = rw (e, running) refl

  await_job-Waits :
      (t : S) {n : ℕ} {s : S} (fuel : ℕ)
      → Waits t n s
      → await_job service (n + fuel) job_id s ≡ await_job service fuel job_id t
  await_job-Waits t fuel at_once = rw (zero-add fuel) refl
  await_job-Waits t fuel (later x e p rest) =
      rw suc-add (poll_pending _ _ _ x e p ∙ await_job-Waits t fuel rest)

  -- Each location names an executor and a partition, which is fetched from there: the batches of
  -- all, one after the other, from one state to another.
  pub data Fetches (v : S) : List PartitionLocation → S → List Batch → Type 0 where
    none_left : Fetches v [] v []
    fetched :
        {locations : List PartitionLocation} {s u : S} {rest : List Batch} (meta : ExecutorMetadata)
        (id : PartitionId) (batches : List Batch)
        → service.fetch_partition meta.host (u16 meta.port) id.job_id id.stage_id id.partition_id s
          ≡ (ok batches, u)
        → Fetches v locations u rest
        → Fetches v
            (record { partition_id = some id; executor_meta = some meta } ∷ locations)
            s
            (batches ++ rest)

  fetch_all-Fetches :
      (v : S) {locations : List PartitionLocation} {s : S} {batches : List Batch}
      (result : List Batch)
      → Fetches v locations s batches
      → fetch_all service locations result s ≡ (ok (result ++ batches), v)
  unfolding fetch_all
  fetch_all-Fetches v result none_left = rw (append-nil result) refl
  fetch_all-Fetches v result (fetched meta id batches e more) =
      rw e (rw (append_assoc result batches _) at (fetch_all-Fetches v (result ++ batches) more))

-- When the plan is submitted, polls find the job pending for some rounds and then completed, and
-- each location names an executor and a partition that is fetched from there, then `collect`, with
-- more fuel than those rounds, returns the batches of all partitions, in the order of the
-- locations.
pub collect_lem :
    {S LogicalPlan LogicalPlanNode Batch : Type 0}
    (service : Service S LogicalPlan LogicalPlanNode Batch) (plan : LogicalPlan)
    (node : LogicalPlanNode) (job_id : Text) (n fuel : ℕ) (s connected submitted t u v : S)
    (locations : List PartitionLocation) (batches : List Batch)
    → service.connect s ≡ (ok tt, connected)
    → service.to_node plan ≡ ok node
    → service.execute_query node connected ≡ (ok job_id, submitted)
    → Waits service job_id t n submitted
    → service.get_job_status job_id t ≡ (ok (status_is (JobState.completed locations)), u)
    → Fetches service job_id v locations u batches
    → collect service (n + suc fuel) plan s ≡ (ok (some batches), v)
unfolding collect await_job
collect_lem service plan node job_id n fuel s connected submitted t u v locations batches c made q w
      e f =
    rw (c, made, q)
      (await_job-Waits service job_id t (suc fuel) w
        ∙ rw (e, fetch_all-Fetches service job_id v [] f) refl)
