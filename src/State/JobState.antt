-- ===== src/State/JobState.antt =====
-- The state of a job, computed from the states of its tasks: the part of
-- `get_job_status_from_tasks` of rust/scheduler/src/state/mod.rs after the tasks are read.
use ballista.Prelude.{List, [], ◌∷◌, map, Option, none, some, if◌then◌else◌}
use mathlib.Core.Option
use ballista.Text.{Text, text_eq}
use ballista.Proto.{TaskState, TaskStatus, JobState, PartitionLocation}
use ballista.Serde.{ExecutorMeta, ExecutorMeta_into}

-- A `HashMap` from executor ids, collected from a list: the last entry of an id counts.
unfoldable pub executor_of : Text → List ExecutorMeta → Option ExecutorMeta
executor_of id [] = none
executor_of id (e ∷ es) = elim (executor_of id es) [
  | some later ↦ some later
  | none ↦ if text_eq e.id id then some e else none
]

-- The executor of a task, if the task is completed.
abbrev pub completed_by : Option TaskState → Option Text
completed_by (some (TaskState.completed executor_id)) = some executor_id
completed_by (some (TaskState.running executor_id)) = none
completed_by (some (TaskState.failed error)) = none
completed_by none = none

-- Each task with its executor, if all are completed.
unfoldable pub all_completed : List TaskStatus → Option (List (TaskStatus × Text))
all_completed [] = some []
all_completed (t ∷ ts) = elim (completed_by t.status) [
  | some executor_id ↦ Option.map (λ info. (t, executor_id) ∷ info) (all_completed ts)
  | none ↦ none
]

unfoldable pub partition_location : List ExecutorMeta → TaskStatus × Text → PartitionLocation
partition_location executors (status, executor_id) = record {
  partition_id = status.partition_id;
  executor_meta = Option.map ExecutorMeta_into (executor_of executor_id executors);
}

-- One round of the second loop: a failed task breaks out of it, and a running one counts unless a
-- state is already known.
abbrev pub scan_status :
    Option TaskState → Option JobState → (Option JobState → Option JobState) → Option JobState
scan_status (some (TaskState.failed error)) job_status rest = some (JobState.failed error)
scan_status (some (TaskState.running executor_id)) none rest = rest (some JobState.running)
scan_status _ job_status rest = rest job_status

unfoldable pub scan_states : Option JobState → List TaskStatus → Option JobState
scan_states job_status [] = job_status
scan_states job_status (t ∷ ts) = scan_status t.status job_status (λ s. scan_states s ts)

abbrev pub or_scan : Option JobState → List TaskStatus → Option JobState
or_scan (some job_status) statuses = some job_status
or_scan none statuses = scan_states none statuses

-- `None` for a job without tasks, and otherwise what its tasks make of it.
unfoldable pub job_state_of_tasks : List ExecutorMeta → List TaskStatus → Option JobState
unfolding all_completed partition_location scan_states
job_state_of_tasks executors [] = none
job_state_of_tasks executors (t ∷ ts) =
    or_scan
      (Option.map (λ info. JobState.completed (map (partition_location executors) info))
        (all_completed (t ∷ ts)))
      (t ∷ ts)
