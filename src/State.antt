-- ===== src/State.antt =====
-- `SchedulerState` of rust/scheduler/src/state/mod.rs: the records that the scheduler keeps in its
-- backend. Each method is an action on the backend.
pub mod Keys
pub mod KeyLaws
pub mod Codec
pub mod JobState
pub mod JobSpec
pub mod Synchronize
pub mod Assign
pub mod Backed
pub mod Records
pub mod Located
pub mod Pushes
pub mod Readers
pub mod Blocked
pub mod Listed
pub mod Assigned
pub mod Synchronized
use ballista.Prelude.{
  ℕ, List, [], ◌∷◌, ◌++◌, map, Option, none, some, Bool, true, false, ◌==◌, if◌then◌else◌,
}
use ballista.Text.{Text, Bytes, codes, text_eq}
use ballista.Error.{general, Result, ok, err, panicked, bind}
use ballista.Error.Actions.{Exec, pure, lift, ◌>>=◌, ◌>>◌}
use ballista.Proto
use ballista.Serde.{ExecutorMeta, ExecutorMeta_into, ExecutorMeta_from}
use ballista.Serde.Actions.{PlanSerde}
use ballista.Plan.{ExecutionPlan, DataFusion}
use ballista.Backend.{ConfigBackendClient}
use Codec.{Prost, decode_protobuf, encode_protobuf, decode_all}
use JobState.{executor_of, job_state_of_tasks}
use Keys.{
  get_executors_prefix, get_executor_key, get_job_prefix, get_job_key, get_task_prefix,
  get_task_prefix_for_job, extract_job_id_from_key, get_task_status_key, get_stage_plan_key,
}

abbrev pub lease_time : ℕ
lease_time = 60

-- What the methods stand on: the backend, prost's codecs of the stored messages, and the plans.
pub record SchedulerState (S Op Schema PlanNode : Type 0) : Type 0 where
  pub config_client : ConfigBackendClient S
  pub executor_codec : Prost Proto.ExecutorMetadata
  pub job_codec : Prost Proto.JobStatus
  pub task_codec : Prost Proto.TaskStatus
  pub plan_codec : Prost PlanNode
  pub plan_serde : PlanSerde (ExecutionPlan Op Schema) PlanNode
  pub data_fusion : DataFusion Op Schema

-- `unwrap`
abbrev pub unwrap {ℓ} : {A : Type ℓ} → Option A → Result A
unwrap none = panicked
unwrap (some a) = ok a

-- An absent value is read as no bytes.
abbrev pub non_empty : Bytes → Text → Result Bytes
non_empty [] message = err (general message)
non_empty (b ∷ bytes) message = ok (b ∷ bytes)

module _ {S Op Schema PlanNode : Type 0} (state : SchedulerState S Op Schema PlanNode)
    (namespace : Text) where
  open state use {
    config_client, executor_codec, job_codec, task_codec, plan_codec, plan_serde, data_fusion,
  }

  unfoldable pub get_executors_metadata : Exec S (List ExecutorMeta)
  unfolding decode_all get_executors_prefix
  get_executors_metadata = do
    entries ← config_client.get_from_prefix (get_executors_prefix namespace)
    metas ← lift (decode_all executor_codec entries)
    pure (map ExecutorMeta_from metas)

  unfoldable pub save_executor_metadata : ExecutorMeta → Exec S (Unit {0})
  unfolding encode_protobuf
  save_executor_metadata meta = do
    let key = get_executor_key namespace meta.id
    value ← lift (encode_protobuf executor_codec (ExecutorMeta_into meta))
    config_client.put key value (some lease_time)

  unfoldable pub save_job_metadata : Text → Proto.JobStatus → Exec S (Unit {0})
  unfolding encode_protobuf
  save_job_metadata job_id status = do
    let key = get_job_key namespace job_id
    value ← lift (encode_protobuf job_codec status)
    config_client.put key value none

  unfoldable pub get_job_metadata : Text → Exec S Proto.JobStatus
  unfolding decode_protobuf
  get_job_metadata job_id = do
    let key = get_job_key namespace job_id
    value ← config_client.get key
    bytes ← lift (non_empty value (codes "No job metadata found for " ++ key))
    lift (decode_protobuf job_codec bytes)

  unfoldable pub save_task_status : Proto.TaskStatus → Exec S (Unit {0})
  unfolding encode_protobuf
  save_task_status status = do
    partition_id ← lift (unwrap status.partition_id)
    let key =
        get_task_status_key namespace partition_id.job_id partition_id.stage_id
          partition_id.partition_id
    value ← lift (encode_protobuf task_codec status)
    config_client.put key value none

  unfoldable pub get_task_status : Text → ℕ → ℕ → Exec S Proto.TaskStatus
  unfolding decode_protobuf
  get_task_status job_id stage_id partition_id = do
    let key = get_task_status_key namespace job_id stage_id partition_id
    value ← config_client.get key
    bytes ← lift (non_empty value (codes "No task status found for " ++ key))
    lift (decode_protobuf task_codec bytes)

  unfoldable pub save_stage_plan : Text → ℕ → ExecutionPlan Op Schema → Exec S (Unit {0})
  unfolding encode_protobuf
  save_stage_plan job_id stage_id plan = do
    let key = get_stage_plan_key namespace job_id stage_id
    proto ← lift (plan_serde.to_proto plan)
    value ← lift (encode_protobuf plan_codec proto)
    config_client.put key value none

  unfoldable pub get_stage_plan : Text → ℕ → Exec S (ExecutionPlan Op Schema)
  unfolding decode_protobuf
  get_stage_plan job_id stage_id = do
    let key = get_stage_plan_key namespace job_id stage_id
    value ← config_client.get key
    bytes ← lift (non_empty value (codes "No stage plan found for " ++ key))
    proto ← lift (decode_protobuf plan_codec bytes)
    lift (plan_serde.from_proto proto)
