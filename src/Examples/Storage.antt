-- ===== src/Examples/Storage.antt =====
-- The standalone backend over a map, the state of the scheduler on it, and its records.
use ballista.Prelude.{ℕ, [], ◌∷◌, map, Option, none, some, ◌≡◌, ◌≢◌, refl, arith, false}
use ballista.Text.{Text, codes}
use ballista.Error.{ok}
use ballista.Proto
use ballista.Serde.Actions.{PlanSerde}
use ballista.Backend.{ConfigBackendClient, IsMap}
use ballista.Backend.Entries.{Map, lookup, insert, with_prefix}
use ballista.Backend.Standalone.{
  found, Sled, IsOrderedMap, StandaloneClient, standalone_client, standalone_client-IsMap,
}
use ballista.State.{
  SchedulerState, save_job_metadata, get_job_metadata, save_task_status, get_task_status,
}
use ballista.State.Codec.{Prost, decoded}
use ballista.State.Backed.{IsBacked, no_job_status, no_task_status, no_executor}
use ballista.State.Records.{
  get_job_metadata-save_job_metadata, get_job_metadata-save_job_metadata_other,
  get_task_status-save_task_status, get_job_metadata-save_task_status,
}
use ballista.Examples.Codecs.{prost, prost-IsProst, executor_metadata, task_status, job_status}
use ballista.Examples.Engine.{Op, Plan, engine, shuffled_total}

-- sled as a map in memory.
abbrev pub in_memory : Sled Map
in_memory = record {
  get = λ k d. found (lookup k d);
  insert = λ k v d. (found tt, insert k v d);
  scan_prefix = λ p d. map found (with_prefix p d);
}

abbrev pub Holds : Map → Map → Type 0
Holds d m = d ≡ m

in_memory-IsOrderedMap : IsOrderedMap in_memory Holds
in_memory-IsOrderedMap = record {
  get_reads = λ k d m h. rw h;
  insert_ok = λ k v d m h. refl;
  insert_writes = λ k v d m h. rw h;
  scan_reads = λ p d m h. rw h;
}

abbrev pub client : ConfigBackendClient (StandaloneClient Map)
client = standalone_client in_memory

abbrev pub Rep : StandaloneClient Map → Map → Type 0
Rep s m = Holds s.db m

standalone_client-IsMap_example : IsMap client Rep
standalone_client-IsMap_example = standalone_client-IsMap in_memory Holds in_memory-IsOrderedMap

-- Every stage plan is the total over shuffled partial totals: its codec writes a byte.
abbrev scan_codec : Prost Plan
scan_codec = record {
  encode = λ p. 1 ∷ [];
  decode = λ bytes. decoded shuffled_total;
  type_name = codes "Plan";
}

abbrev plans : PlanSerde Plan Plan
plans = record { to_proto = ok; from_proto = ok }

abbrev pub state : SchedulerState (StandaloneClient Map) Op Text Plan
state = record {
  config_client = client;
  executor_codec = prost executor_metadata (codes "ExecutorMetadata");
  job_codec = prost job_status (codes "JobStatus");
  task_codec = prost task_status (codes "TaskStatus");
  plan_codec = scan_codec;
  plan_serde = plans;
  data_fusion = engine;
}

pub state-IsBacked : IsBacked state Rep
state-IsBacked = record {
  map_client = standalone_client-IsMap in_memory Holds in_memory-IsOrderedMap;
  jobs = prost-IsProst job_status (codes "JobStatus") no_job_status;
  tasks = prost-IsProst task_status (codes "TaskStatus") no_task_status;
  executors = prost-IsProst executor_metadata (codes "ExecutorMetadata") no_executor;
}

abbrev pub holding : Map → StandaloneClient Map
holding m = record { db = m; locked = false }

abbrev pub ns : Text
ns = codes "n"

abbrev pub task_id : ℕ → Proto.PartitionId
task_id n = record { job_id = codes "j"; stage_id = 1; partition_id = n }

abbrev pub task : ℕ → Option Proto.TaskState → Proto.TaskStatus
task n status = record { partition_id = some (task_id n); status = status }

abbrev pub job_is : Proto.JobState → Proto.JobStatus
job_is status = record { status = some status }

pub job_is-has_status : (x : Proto.JobState) → job_is x ≢ no_job_status
job_is-has_status x e = absurd (ground (arith, e))

get_job_metadata-save_job_metadata_example :
    let t =
      (save_job_metadata state ns (codes "j") (job_is Proto.JobState.queued) (holding [])).1 in
    get_job_metadata state ns (codes "j") t ≡ (ok (job_is Proto.JobState.queued), t)
get_job_metadata-save_job_metadata_example =
    get_job_metadata-save_job_metadata state Rep state-IsBacked ns (codes "j")
      (job_is Proto.JobState.queued) (holding []) [] refl (job_is-has_status Proto.JobState.queued)

get_job_metadata-save_job_metadata_other_example :
    (get_job_metadata state ns
      (codes "k")
      (save_job_metadata state ns (codes "j") (job_is Proto.JobState.queued) (holding [])).1).0
    ≡ (get_job_metadata state ns (codes "k") (holding [])).0
get_job_metadata-save_job_metadata_other_example =
    get_job_metadata-save_job_metadata_other state Rep state-IsBacked ns (codes "j") (codes "k")
      (job_is Proto.JobState.queued) (holding []) [] refl (λ e. absurd (ground (arith, e)))

get_task_status-save_task_status_example :
    let t = (save_task_status state ns (task 0 none) (holding [])).1 in
    get_task_status state ns (codes "j") 1 0 t ≡ (ok (task 0 none), t)
get_task_status-save_task_status_example =
    get_task_status-save_task_status state Rep state-IsBacked ns (task_id 0) (task 0 none)
      (holding []) [] refl refl

get_job_metadata-save_task_status_example :
    (get_job_metadata state ns
      (codes "j")
      (save_task_status state ns (task 0 none) (holding [])).1).0
    ≡ (get_job_metadata state ns (codes "j") (holding [])).0
get_job_metadata-save_task_status_example =
    get_job_metadata-save_task_status state Rep state-IsBacked ns (task_id 0) (codes "j")
      (task 0 none) (holding []) [] refl refl
