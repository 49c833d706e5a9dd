-- ===== src/State/Keys.antt =====
-- The keys of rust/scheduler/src/state/mod.rs.
use ballista.Prelude.{ℕ, List, ◌++◌, none, some, get_elem?}
use ballista.Text.{Text, codes}
use ballista.Text.Decimal.{decimal}
use ballista.Text.Split.{split}
use ballista.Error.{internal, Result, ok, err}

unfoldable pub get_executors_prefix : Text → Text
get_executors_prefix namespace = codes "/ballista/" ++ (namespace ++ codes "/executors")

unfoldable pub get_executor_key : Text → Text → Text
unfolding get_executors_prefix
get_executor_key namespace id = get_executors_prefix namespace ++ (codes "/" ++ id)

unfoldable pub get_job_prefix : Text → Text
get_job_prefix namespace = codes "/ballista/" ++ (namespace ++ codes "/jobs")

unfoldable pub get_job_key : Text → Text → Text
unfolding get_job_prefix
get_job_key namespace id = get_job_prefix namespace ++ (codes "/" ++ id)

unfoldable pub get_task_prefix : Text → Text
get_task_prefix namespace = codes "/ballista/" ++ (namespace ++ codes "/tasks")

unfoldable pub get_task_prefix_for_job : Text → Text → Text
unfolding get_task_prefix
get_task_prefix_for_job namespace job_id = get_task_prefix namespace ++ (codes "/" ++ job_id)

unfoldable pub get_task_status_key : Text → Text → ℕ → ℕ → Text
unfolding get_task_prefix_for_job
get_task_status_key namespace job_id stage_id partition_id =
    get_task_prefix_for_job namespace job_id
    ++ (codes "/" ++ (decimal stage_id ++ (codes "/" ++ decimal partition_id)))

unfoldable pub get_stage_plan_key : Text → Text → ℕ → Text
get_stage_plan_key namespace job_id stage_id =
    codes "/ballista/"
    ++ (namespace ++ (codes "/stages/" ++ (job_id ++ (codes "/" ++ decimal stage_id))))

unfoldable pub extract_job_id : List Text → Text → Result Text
extract_job_id pieces job_key = elim (get_elem? pieces 4) [
  | some piece ↦ ok piece
  | none ↦ err (internal (codes "Unexpected job key: " ++ job_key))
]

unfoldable pub extract_job_id_from_key : Text → Result Text
unfolding extract_job_id
extract_job_id_from_key job_key = extract_job_id (split job_key) job_key
