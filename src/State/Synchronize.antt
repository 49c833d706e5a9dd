-- ===== src/State/Synchronize.antt =====
-- `get_job_status_from_tasks` and `synchronize_job_status` of rust/scheduler/src/state/mod.rs.
use ballista.Prelude.{List, [], ◌∷◌, Option, none, some}
use ballista.Text.{Text, Bytes}
use ballista.Error.Actions.{Exec, pure, lift, ◌>>=◌, ◌>>◌}
use ballista.Proto.{JobStatus, JobState, JobStatus-discrete}
use ballista.Serde.{ExecutorMeta}
use ballista.State.Keys.{get_job_prefix, get_task_prefix_for_job, extract_job_id_from_key}
use ballista.State.Codec.{decode_protobuf, decode_all}
use ballista.State.JobState.{job_state_of_tasks}
use ballista.State.{SchedulerState, get_executors_metadata, save_job_metadata}

abbrev pub with_status : Option JobState → Option JobStatus
with_status none = none
with_status (some job_state) = some (record { status = some job_state })

-- The action of an `if a != b`.
abbrev pub unless_same : {S P : Type 0} → Dec P → Exec S (Unit {0}) → Exec S (Unit {0})
unless_same (yes same) action = pure tt
unless_same (no differs) action = action

module _ {S Op Schema PlanNode : Type 0} (state : SchedulerState S Op Schema PlanNode)
    (namespace : Text) where
  open state use {config_client, job_codec, task_codec}

  unfoldable pub get_job_status_from_tasks : Text → List ExecutorMeta → Exec S (Option JobStatus)
  get_job_status_from_tasks job_id executors = do
    entries ← config_client.get_from_prefix (get_task_prefix_for_job namespace job_id)
    statuses ← lift (decode_all task_codec entries)
    pure (with_status (job_state_of_tasks executors statuses))

  -- `if status != new_status { … }`
  unfoldable pub save_if_changed : Text → JobStatus → Option JobStatus → Exec S (Unit {0})
  save_if_changed job_id status none = pure tt
  save_if_changed job_id status (some new_status) =
      unless_same (JobStatus-discrete status new_status)
        (save_job_metadata state namespace job_id new_status)

  unfoldable pub synchronize_job : List ExecutorMeta → Text → Bytes → Exec S (Unit {0})
  synchronize_job executors key value = do
    job_id ← lift (extract_job_id_from_key key)
    status ← lift (decode_protobuf job_codec value)
    new_status ← get_job_status_from_tasks job_id executors
    save_if_changed job_id status new_status

  unfoldable pub synchronize_jobs : List ExecutorMeta → List (Text × Bytes) → Exec S (Unit {0})
  synchronize_jobs executors [] = pure tt
  synchronize_jobs executors ((key, value) ∷ kvs) = do
    synchronize_job executors key value
    synchronize_jobs executors kvs

  unfoldable pub synchronize_job_status : Exec S (Unit {0})
  synchronize_job_status = do
    kvs ← config_client.get_from_prefix (get_job_prefix namespace)
    executors ← get_executors_metadata state namespace
    synchronize_jobs executors kvs
