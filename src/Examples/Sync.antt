-- ===== src/Examples/Sync.antt =====
-- Runs of the job states, and of the keys.
use ballista.Prelude.{ℕ, List, [], ◌∷◌, ◌++◌, some, true, ◌≡◌, ◌≢◌, ◌↔◌, refl, arith}
use ballista.Text.{codes, starts_with, text_eq}
use ballista.Text.Split.{NoSlash}
use ballista.Error.{ok}
use ballista.Proto.{TaskState, TaskStatus, JobState}
use ballista.Backend.Entries.{Map, lookup, with_prefix}
use ballista.State.{get_job_metadata}
use ballista.State.Keys.{get_job_key, get_task_status_key, get_task_prefix_for_job}
use ballista.State.Codec.{decode_all}
use ballista.State.KeyLaws.{get_task_status_key-injective, task_scan_exact, task_scan_conflates}
use ballista.State.JobState.{job_state_of_tasks}
use ballista.State.JobSpec.{described_state, job_state_of_tasks_lem}
use ballista.State.Synchronize.{synchronize_job}
use ballista.State.Synchronized.{status_after, synchronize_job_lem}
use ballista.Examples.Engine.{worker}
use ballista.Examples.Storage.{
  Rep, state, state-IsBacked, holding, ns, task, job_is, job_is-has_status,
}

-- One task is done, the other one runs.
abbrev tasks : List TaskStatus
tasks =
    task 0 (some (TaskState.completed (codes "w")))
    ∷ task 1 (some (TaskState.running (codes "w")))
    ∷ []

abbrev store : Map
store =
    (get_job_key ns (codes "j"), state.job_codec.encode (job_is JobState.queued))
    ∷ (
      get_task_status_key ns (codes "j") 1 0,
      state.task_codec.encode (task 0 (some (TaskState.completed (codes "w")))),
    )
    ∷ (
      get_task_status_key ns (codes "j") 1 1,
      state.task_codec.encode (task 1 (some (TaskState.running (codes "w")))),
    )
    ∷ []

name-NoSlash : (c : ℕ) → c ≢ 47 → NoSlash (c ∷ [])
name-NoSlash c h = (h, tt)

job_state_of_tasks_lem_example :
    job_state_of_tasks (worker ∷ []) tasks ≡ described_state (worker ∷ []) tasks
job_state_of_tasks_lem_example = job_state_of_tasks_lem (worker ∷ []) tasks

synchronize_job_lem_example :
    let out =
      synchronize_job state ns
        (worker ∷ [])
        (get_job_key ns (codes "j"))
        (state.job_codec.encode (job_is JobState.queued))
        (holding store) in
    (out.0 ≡ ok tt)
    × (get_job_metadata state ns (codes "j") out.1
        ≡ (ok (status_after (job_is JobState.queued) (described_state (worker ∷ []) tasks)), out.1))
unfolding lookup text_eq get_job_key decode_all with_prefix starts_with get_task_prefix_for_job
    get_task_status_key
synchronize_job_lem_example =
    synchronize_job_lem state Rep state-IsBacked ns (worker ∷ []) (codes "j")
      (job_is JobState.queued) tasks (holding store) store refl (name-NoSlash 110 (omega arith))
      (name-NoSlash 106 (omega arith)) (job_is-has_status JobState.queued) refl refl

abbrev stage : ℕ
stage = 1

abbrev part : ℕ
part = 12

get_task_status_key-injective_example : (codes "j" ≡ codes "j") × (stage ≡ stage) × (part ≡ part)
get_task_status_key-injective_example =
    get_task_status_key-injective ns (codes "j") (codes "j") stage part stage part
      (name-NoSlash 106 (omega arith)) (name-NoSlash 106 (omega arith)) refl

task_scan_exact_example :
    (starts_with (get_task_status_key ns (codes "j") 1 0) (get_task_prefix_for_job ns (codes "k"))
      ≡ true)
    ↔ (codes "j" ≡ codes "k")
task_scan_exact_example = task_scan_exact ns (codes "j") (codes "k") 1 0 refl

task_scan_conflates_example :
    starts_with
      (get_task_status_key ns (codes "j" ++ codes "2") 1 0)
      (get_task_prefix_for_job ns (codes "j"))
    ≡ true
task_scan_conflates_example = task_scan_conflates ns (codes "j") (codes "2") 1 0
