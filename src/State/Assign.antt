-- ===== src/State/Assign.antt =====
-- `assign_next_schedulable_task` of rust/scheduler/src/state/mod.rs.
use ballista.Prelude.{ℕ, List, [], ◌∷◌, ◌++◌, Option, none, some, ◌==◌, if◌then◌else◌, range_from}
use ballista.Text.{Text, Bytes, text_eq}
use ballista.Error.{Result, ok, bind}
use ballista.Error.Actions.{Exec, pure, lift, ◌>>=◌, ◌>>◌}
use ballista.Proto.{TaskState, TaskStatus}
use ballista.Serde.{PartitionLocation, ExecutorMeta}
use ballista.Plan.{ExecutionPlan, UnresolvedShuffle, find_unresolved_shuffles}
use ballista.Planner.Shuffles.{Locations, remove_unresolved_shuffles}
use ballista.Backend.Entries.{Map, lookup}
use ballista.State.Keys.{get_task_prefix, get_task_status_key}
use ballista.State.Codec.{Prost, decode_protobuf}
use ballista.State.JobState.{completed_by}
use ballista.State.{
  SchedulerState, unwrap, get_executors_metadata, save_task_status, get_stage_plan,
}

-- `executors.iter().find(|exec| exec.id == executor_id)`
unfoldable pub find_executor : Text → List ExecutorMeta → Option ExecutorMeta
find_executor id [] = none
find_executor id (e ∷ es) = if text_eq e.id id then some e else find_executor id es

-- `partition_locations.entry(stage_id).or_insert(empty).push(location)`
unfoldable pub push_location : ℕ → PartitionLocation → Locations → Locations
push_location stage_id location [] = (stage_id, location ∷ []) ∷ []
push_location stage_id location ((j, ls) ∷ rest) =
    let others = push_location stage_id location rest in
    if j == stage_id then (j, ls ++ location ∷ []) ∷ rest else (j, ls) ∷ others

-- `continue 'tasks` is `none`.
abbrev pub and_go_on :
    Result (Option Locations) → (Locations → Result (Option Locations)) → Result (Option Locations)
and_go_on r f = bind r λ o. elim o [ none ↦ ok none | some locations ↦ f locations ]

abbrev pub push_some : ℕ → Option PartitionLocation → Locations → Result (Option Locations)
push_some stage_id none acc = ok none
push_some stage_id (some location) acc = ok (some (push_location stage_id location acc))

module _ (codec : Prost TaskStatus) (namespace job_id : Text) (kvs : Map)
    (executors : List ExecutorMeta) where
  -- The location of a partition, if its task is completed.
  unfoldable pub locate_completed : Option Text → ℕ → ℕ → Result (Option PartitionLocation)
  unfolding find_executor
  locate_completed none stage_id partition_id = ok none
  locate_completed (some executor_id) stage_id partition_id =
      bind (unwrap (find_executor executor_id executors)) λ meta. ok (
        some (record {
          partition_id = record {
            job_id = job_id;
            stage_id = stage_id;
            partition_id = partition_id;
          };
          executor_meta = meta;
        }))

  unfoldable pub locate : ℕ → ℕ → Result (Option PartitionLocation)
  unfolding locate_completed decode_protobuf
  locate stage_id partition_id =
      bind (unwrap (lookup (get_task_status_key namespace job_id stage_id partition_id) kvs))
        λ bytes. bind (decode_protobuf codec bytes) λ referenced_task.
          locate_completed (completed_by referenced_task.status) stage_id partition_id

  -- `for partition_id in 0..unresolved_shuffle.partition_count`
  unfoldable pub locate_partitions : ℕ → List ℕ → Locations → Result (Option Locations)
  unfolding locate push_location
  locate_partitions stage_id [] acc = ok (some acc)
  locate_partitions stage_id (p ∷ ps) acc =
      and_go_on (bind (locate stage_id p) λ location. push_some stage_id location acc)
        λ acc'. locate_partitions stage_id ps acc'

  -- `for stage_id in unresolved_shuffle.query_stage_ids`
  unfoldable pub locate_stages : List ℕ → ℕ → Locations → Result (Option Locations)
  unfolding locate_partitions
  locate_stages [] count acc = ok (some acc)
  locate_stages (stage_id ∷ ids) count acc =
      and_go_on (locate_partitions stage_id (range_from 0 count) acc)
        λ acc'. locate_stages ids count acc'

  -- `for unresolved_shuffle in unresolved_shuffles`
  unfoldable pub locate_shuffles :
      {Schema : Type 0} → List (UnresolvedShuffle Schema) → Locations → Result (Option Locations)
  unfolding locate_stages
  locate_shuffles [] acc = ok (some acc)
  locate_shuffles (u ∷ us) acc =
      and_go_on (locate_stages u.query_stage_ids u.partition_count acc)
        λ acc'. locate_shuffles us acc'

-- A task that is running now, and the plan that it executes.
abbrev pub Assignment : Type 0 → Type 0 → Type 0
Assignment Op Schema = Option (TaskStatus × ExecutionPlan Op Schema)

module _ {S Op Schema PlanNode : Type 0} (state : SchedulerState S Op Schema PlanNode)
    (namespace : Text) where
  open state use {config_client, task_codec, data_fusion}

  -- The end of the loop's body: the locations are known, or the task has to wait.
  unfoldable pub run_task :
      Text
      → TaskStatus
      → ExecutionPlan Op Schema
      → Option Locations
      → Exec S (Assignment Op Schema)
      → Exec S (Assignment Op Schema)
  unfolding save_task_status
  run_task executor_id status plan none next = next
  run_task executor_id status plan (some locations) next = do
    resolved ← lift (remove_unresolved_shuffles data_fusion plan locations)
    let running = record status { status = some (TaskState.running executor_id) }
    save_task_status state namespace running
    pure (some (running, resolved))

  -- The loop's body, given what the rest of the loop does.
  unfoldable pub try_task :
      Text
      → Map
      → List ExecutorMeta
      → TaskStatus
      → Option TaskState
      → Exec S (Assignment Op Schema)
      → Exec S (Assignment Op Schema)
  unfolding run_task get_stage_plan locate_shuffles find_unresolved_shuffles
  try_task executor_id kvs executors status (some task_state) next = next
  try_task executor_id kvs executors status none next = do
    partition ← lift (unwrap status.partition_id)
    plan ← get_stage_plan state namespace partition.job_id partition.stage_id
    locations ← lift (
        locate_shuffles task_codec namespace partition.job_id kvs executors
          (find_unresolved_shuffles plan) [])
    run_task executor_id status plan locations next

  unfoldable pub try_tasks :
      Text → Map → List ExecutorMeta → List (Text × Bytes) → Exec S (Assignment Op Schema)
  unfolding try_task decode_protobuf
  try_tasks executor_id kvs executors [] = pure none
  try_tasks executor_id kvs executors ((key, value) ∷ rest) = do
    status ← lift (decode_protobuf task_codec value)
    try_task executor_id kvs executors status status.status
        (try_tasks executor_id kvs executors rest)

  -- `order` is the order in which the `HashMap` of the entries is iterated.
  unfoldable pub assign_next_schedulable_task :
      (List (Text × Bytes) → List (Text × Bytes)) → Text → Exec S (Assignment Op Schema)
  assign_next_schedulable_task order executor_id = do
    kvs ← config_client.get_from_prefix (get_task_prefix namespace)
    executors ← get_executors_metadata state namespace
    try_tasks executor_id kvs executors (order kvs)
