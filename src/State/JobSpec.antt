-- ===== src/State/JobSpec.antt =====
-- What the state of a job is, described without the loops of `get_job_status_from_tasks` of
-- rust/scheduler/src/state/mod.rs, and that the loops find it.
use ballista.Prelude.{
  List, [], ◌∷◌, map, Option, none, some, Bool, true, false, ◌&&◌, ◌||◌, if◌then◌else◌, ◌≡◌, refl,
  arith, ◌∙◌,
}
use mathlib.Core.Option
use ballista.Text.{Text}
use ballista.Proto.{TaskState, TaskStatus, JobState, PartitionLocation}
use ballista.Serde.{ExecutorMeta, ExecutorMeta_into}
use ballista.State.JobState.{
  executor_of, completed_by, all_completed, partition_location, scan_states, or_scan,
  job_state_of_tasks,
}

-- The specification: what one looks for among the tasks.
abbrev pub is_completed : Option TaskState → Bool
is_completed (some (TaskState.completed executor_id)) = true
is_completed _ = false

abbrev pub is_running : Option TaskState → Bool
is_running (some (TaskState.running executor_id)) = true
is_running _ = false

abbrev pub failure : Option TaskState → Option Text
failure (some (TaskState.failed error)) = some error
failure _ = none

abbrev pub every_completed : List TaskStatus → Bool
every_completed [] = true
every_completed (t ∷ ts) = is_completed t.status && every_completed ts

abbrev pub some_running : List TaskStatus → Bool
some_running [] = false
some_running (t ∷ ts) = is_running t.status || some_running ts

abbrev pub or_else : {A : Type 0} → Option A → Option A → Option A
or_else (some a) b = some a
or_else none b = b

abbrev pub first_failure : List TaskStatus → Option Text
first_failure [] = none
first_failure (t ∷ ts) = or_else (failure t.status) (first_failure ts)

-- The location of a completed task's output.
abbrev pub location_of : List ExecutorMeta → TaskStatus → PartitionLocation
location_of executors t = record {
  partition_id = t.partition_id;
  executor_meta = elim (completed_by t.status) [
    | some id ↦ Option.map ExecutorMeta_into (executor_of id executors)
    | none ↦ none
  ];
}

abbrev pub unfinished_state : Option Text → Bool → Option JobState
unfinished_state (some error) running = some (JobState.failed error)
unfinished_state none true = some JobState.running
unfinished_state none false = none

all_completed_lem :
    (executors : List ExecutorMeta) (ts : List TaskStatus)
    → Option.map (λ info. map (partition_location executors) info) (all_completed ts)
      ≡ (if every_completed ts then some (map (location_of executors) ts) else none)
unfolding all_completed partition_location
all_completed_lem executors [] = refl
all_completed_lem executors (t ∷ ts) = ground (arith, all_completed_lem executors ts)

scan_states_lem :
    (ts : List TaskStatus)
    → (scan_states none ts ≡ unfinished_state (first_failure ts) (some_running ts))
      × (scan_states (some JobState.running) ts ≡ unfinished_state (first_failure ts) true)
unfolding scan_states
scan_states_lem [] = (refl, refl)
scan_states_lem (t ∷ ts) = ground (arith, scan_states_lem ts)

-- A job without tasks has no state; otherwise it is completed if all its tasks are, failed with the
-- first failure if there is one, and running if a task is.
abbrev pub described_state : List ExecutorMeta → List TaskStatus → Option JobState
described_state executors [] = none
described_state executors (t ∷ ts) =
    if every_completed (t ∷ ts)
    then some (JobState.completed (map (location_of executors) (t ∷ ts)))
    else unfinished_state (first_failure (t ∷ ts)) (some_running (t ∷ ts))

map-or_scan :
    (executors : List ExecutorMeta) (info : Option (List (TaskStatus × Text)))
    (ts : List TaskStatus) (locations : Option (List PartitionLocation))
    → Option.map (λ i. map (partition_location executors) i) info ≡ locations
    → or_scan (Option.map (λ i. JobState.completed (map (partition_location executors) i)) info) ts
      ≡ or_scan (Option.map JobState.completed locations) ts
map-or_scan executors none ts locations h = ground arith
map-or_scan executors (some i) ts locations h = ground arith

-- The state that the loops over a job's tasks find is the described one: none for a job without
-- tasks, completed with every task's location exactly when all tasks are completed, otherwise
-- failed with the error of the first failed task, otherwise running if some task is, and otherwise
-- none.
pub job_state_of_tasks_lem :
    (executors : List ExecutorMeta) (ts : List TaskStatus)
    → job_state_of_tasks executors ts ≡ described_state executors ts
unfolding job_state_of_tasks
job_state_of_tasks_lem executors [] = refl
job_state_of_tasks_lem executors (t ∷ ts) =
    map-or_scan executors (all_completed (t ∷ ts)) (t ∷ ts) _ (all_completed_lem executors (t ∷ ts))
    ∙ ground (arith, (scan_states_lem (t ∷ ts)).0)
