-- ===== src/State/KeyLaws.antt =====
-- The keys of rust/scheduler/src/state/mod.rs tell the kinds of records, the jobs and the tasks
-- apart, as far as they do.
use ballista.Prelude.{
  ℕ, [], ◌∷◌, ◌++◌, append_assoc, true, false, ◌≡◌, ◌↔◌, refl, sym, ap, ◌∙◌, arith, length,
}
use ballista.Text.{
  Text, codes, text_eq, text_eq_iff, text_eq-append_both, starts_with, starts_with-append_both,
  starts_with-append, starts_with-same_length,
}
use ballista.Text.Decimal.{decimal, decimal-injective, decimal-NoSlash}
use ballista.Text.Split.{NoSlash, split, split-slash, split-piece, split-last}
use ballista.Error.{ok}
use ballista.State.Keys.{
  get_executors_prefix, get_executor_key, get_job_prefix, get_job_key, get_task_prefix,
  get_task_prefix_for_job, get_task_status_key, get_stage_plan_key, extract_job_id_from_key,
}

-- What comes before the kind of a key.
pub root : Text → Text
root namespace = codes "/ballista/" ++ namespace

module _ (ns : Text) where
  pub executor_key_shape :
      (id : Text) → get_executor_key ns id ≡ root ns ++ (codes "/executors/" ++ id)
  unfolding get_executor_key root
  executor_key_shape id = simp append_assoc

  pub job_key_shape : (id : Text) → get_job_key ns id ≡ root ns ++ (codes "/jobs/" ++ id)
  unfolding get_job_key root
  job_key_shape id = simp append_assoc

  pub task_key_shape :
      (job : Text) (stage part : ℕ)
      → get_task_status_key ns job stage part
        ≡ root ns ++ (codes "/tasks/" ++ (job ++ (b'/' ∷ (decimal stage ++ (b'/' ∷ decimal part)))))
  unfolding get_task_status_key root
  task_key_shape job stage part = simp append_assoc

  pub stage_key_shape :
      (job : Text) (stage : ℕ)
      → get_stage_plan_key ns job stage
        ≡ root ns ++ (codes "/stages/" ++ (job ++ (b'/' ∷ decimal stage)))
  unfolding get_stage_plan_key root
  stage_key_shape job stage = simp append_assoc

  executors_prefix_shape : get_executors_prefix ns ≡ root ns ++ codes "/executors"
  unfolding get_executors_prefix root
  executors_prefix_shape = simp append_assoc

  job_prefix_shape : get_job_prefix ns ≡ root ns ++ codes "/jobs"
  unfolding get_job_prefix root
  job_prefix_shape = simp append_assoc

  task_prefix_shape : get_task_prefix ns ≡ root ns ++ codes "/tasks"
  unfolding get_task_prefix root
  task_prefix_shape = simp append_assoc

  job_task_prefix_shape :
      (job : Text) → get_task_prefix_for_job ns job ≡ root ns ++ (codes "/tasks/" ++ job)
  unfolding get_task_prefix_for_job root
  job_task_prefix_shape job = simp append_assoc

  pub job_key-task_prefix :
      (id : Text) → starts_with (get_job_key ns id) (get_task_prefix ns) ≡ false
  job_key-task_prefix id =
      rw (job_key_shape, task_prefix_shape, starts_with-append_both) (unfold starts_with in refl)

  pub job_key-job_task_prefix :
      (id job : Text) → starts_with (get_job_key ns id) (get_task_prefix_for_job ns job) ≡ false
  job_key-job_task_prefix id job =
      rw (job_key_shape, job_task_prefix_shape, starts_with-append_both)
        (unfold starts_with in refl)

  pub job_key-executors_prefix :
      (id : Text) → starts_with (get_job_key ns id) (get_executors_prefix ns) ≡ false
  job_key-executors_prefix id =
      rw (job_key_shape, executors_prefix_shape, starts_with-append_both)
        (unfold starts_with in refl)

  pub task_key-job_prefix :
      (job : Text) (stage part : ℕ)
      → starts_with (get_task_status_key ns job stage part) (get_job_prefix ns) ≡ false
  task_key-job_prefix job stage part =
      rw (task_key_shape, job_prefix_shape, starts_with-append_both) (unfold starts_with in refl)

  pub task_key-executors_prefix :
      (job : Text) (stage part : ℕ)
      → starts_with (get_task_status_key ns job stage part) (get_executors_prefix ns) ≡ false
  task_key-executors_prefix job stage part =
      rw (task_key_shape, executors_prefix_shape, starts_with-append_both)
        (unfold starts_with in refl)

  pub executor_key-job_prefix :
      (id : Text) → starts_with (get_executor_key ns id) (get_job_prefix ns) ≡ false
  executor_key-job_prefix id =
      rw (executor_key_shape, job_prefix_shape, starts_with-append_both)
        (unfold starts_with in refl)

  pub executor_key-task_prefix :
      (id : Text) → starts_with (get_executor_key ns id) (get_task_prefix ns) ≡ false
  executor_key-task_prefix id =
      rw (executor_key_shape, task_prefix_shape, starts_with-append_both)
        (unfold starts_with in refl)

  pub task_key-task_prefix :
      (job : Text) (stage part : ℕ)
      → starts_with (get_task_status_key ns job stage part) (get_task_prefix ns) ≡ true
  task_key-task_prefix job stage part =
      rw (task_key_shape, task_prefix_shape, starts_with-append_both) (unfold starts_with in refl)

  pub task_key-stage_key :
      (job job' : Text) (stage part stage' : ℕ)
      → text_eq (get_task_status_key ns job stage part) (get_stage_plan_key ns job' stage') ≡ false
  task_key-stage_key job job' stage part stage' =
      rw (task_key_shape, stage_key_shape, text_eq-append_both) (unfold text_eq in refl)

  pub task_key-job_key :
      (job job' : Text) (stage part : ℕ)
      → text_eq (get_task_status_key ns job stage part) (get_job_key ns job') ≡ false
  task_key-job_key job job' stage part =
      rw (task_key_shape, job_key_shape, text_eq-append_both) (unfold text_eq in refl)

  pub job_key-job_key :
      (id id' : Text) → text_eq (get_job_key ns id) (get_job_key ns id') ≡ text_eq id id'
  job_key-job_key id id' =
      rw (job_key_shape id, job_key_shape id', text_eq-append_both)
        (text_eq-append_both (codes "/jobs/") id id')

  -- The scan for one job's tasks meets the tasks of every job whose id begins with that job's id.
  pub task_key-job_task_prefix :
      (job job' : Text) (stage part : ℕ)
      → starts_with (get_task_status_key ns job stage part) (get_task_prefix_for_job ns job')
        ≡ starts_with (job ++ (b'/' ∷ (decimal stage ++ (b'/' ∷ decimal part)))) job'
  task_key-job_task_prefix job job' stage part =
      rw (task_key_shape, job_task_prefix_shape, starts_with-append_both)
        (starts_with-append_both (codes "/tasks/") _ job')

append-injective : (p s t : Text) → p ++ s ≡ p ++ t → s ≡ t
append-injective p s t e =
    (text_eq_iff s t).0 (sym (text_eq-append_both p s t) ∙ (text_eq_iff (p ++ s) (p ++ t)).1 e)

task_pieces :
    (job : Text) (stage part : ℕ)
    → NoSlash job
    → split (job ++ (b'/' ∷ (decimal stage ++ (b'/' ∷ decimal part))))
      ≡ job ∷ decimal stage ∷ decimal part ∷ []
task_pieces job stage part h = rw (
  split-piece job (decimal stage ++ (b'/' ∷ decimal part)) h,
  split-piece (decimal stage) (decimal part) (decimal-NoSlash stage),
  split-last (decimal part) (decimal-NoSlash part),
)

-- A task's key determines its job, its stage and its partition, for job ids without a slash.
pub get_task_status_key-injective :
    (ns job job' : Text) (stage part stage' part' : ℕ)
    → NoSlash job
    → NoSlash job'
    → get_task_status_key ns job stage part ≡ get_task_status_key ns job' stage' part'
    → (job ≡ job') × (stage ≡ stage') × (part ≡ part')
get_task_status_key-injective ns job job' stage part stage' part' h h' e =
    let inner = append-injective (codes "/tasks/") _ _ (
      append-injective (root ns) _ _
        (sym (task_key_shape ns job stage part) ∙ e ∙ task_key_shape ns job' stage' part')) in
    let pieces : job ∷ decimal stage ∷ decimal part ∷ []
        ≡ job' ∷ decimal stage' ∷ decimal part' ∷ [] =
      sym (task_pieces job stage part h) ∙ ap split inner ∙ task_pieces job' stage' part' h' in
    (cc, decimal-injective stage stage' (cc), decimal-injective part part' (cc))

root_pieces :
    (ns s : Text)
    → NoSlash ns
    → split (root ns ++ (b'/' ∷ s)) ≡ [] ∷ codes "ballista" ∷ ns ∷ split s
unfolding root
root_pieces ns s h =
    split-slash (codes "ballista/" ++ (ns ++ (b'/' ∷ s)))
    ∙ ap (◌∷◌ []) (
        split-piece (codes "ballista") (ns ++ (b'/' ∷ s)) (omega arith)
        ∙ ap (◌∷◌ (codes "ballista")) (split-piece ns s h))

-- The job id is read back from a job's key, for a namespace and an id without a slash.
pub extract_job_id-get_job_key :
    (ns id : Text) → NoSlash ns → NoSlash id → extract_job_id_from_key (get_job_key ns id) ≡ ok id
unfolding extract_job_id_from_key
extract_job_id-get_job_key ns id h h' = rw (
  job_key_shape ns id,
  root_pieces ns (codes "jobs/" ++ id) h,
  split-piece (codes "jobs") id (omega arith),
  split-last id h',
)

-- For two job ids of one length, as `execute_query` makes them, the scan for a job's tasks meets
-- exactly the tasks of that job.
pub task_scan_exact :
    (ns job job' : Text) (stage part : ℕ)
    → length job ≡ length job'
    → (starts_with (get_task_status_key ns job stage part) (get_task_prefix_for_job ns job') ≡ true)
      ↔ (job ≡ job')
task_scan_exact ns job job' stage part h =
    rw (task_key-job_task_prefix, starts_with-same_length job job' _ h) (text_eq_iff job job')

-- Where one job's id begins with another's, the scan for the shorter id meets every task of the
-- other job as well.
pub task_scan_conflates :
    (ns short rest : Text) (stage part : ℕ)
    → starts_with
        (get_task_status_key ns (short ++ rest) stage part)
        (get_task_prefix_for_job ns short)
      ≡ true
task_scan_conflates ns short rest stage part =
    rw (task_key-job_task_prefix, append_assoc) (starts_with-append short _)
