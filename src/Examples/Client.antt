-- ===== src/Examples/Client.antt =====
-- A run of the client.
use ballista.Prelude.{ℕ, zero, suc, [], ◌∷◌, some, ◌≡◌, refl, inl, inr, ◌+◌}
use ballista.Text.{Text, codes}
use ballista.Error.{ok}
use ballista.Error.Actions.{pure}
use ballista.Proto.{PartitionId, PartitionLocation, JobState}
use ballista.Serde.{ExecutorMeta_into}
use ballista.Client.{Service, collect}
use ballista.Client.Waiting.{Waits, at_once, later, Fetches, none_left, fetched, collect_lem}
use ballista.Examples.Engine.{worker}

abbrev partition : ℕ → PartitionId
partition n = record { job_id = codes "j"; stage_id = 1; partition_id = n }

abbrev output : ℕ → PartitionLocation
output n = record {
  partition_id = some (partition n);
  executor_meta = some (ExecutorMeta_into worker);
}

-- The job is queued, then running, then completed.
abbrev status_at : ℕ → JobState
status_at zero = JobState.queued
status_at (suc zero) = JobState.running
status_at (suc (suc n)) = JobState.completed (output 0 ∷ output 1 ∷ [])

-- A scheduler whose state is the number of polls, and whose batches are partitions' numbers.
abbrev scheduler : Service ℕ Text Text ℕ
scheduler = record {
  connect = pure tt;
  to_node = ok;
  execute_query = λ node. pure (codes "j");
  get_job_status = λ job_id s. (ok (some (record { status = some (status_at s) })), s);
  fetch_partition = λ host port job_id stage_id partition_id. pure (partition_id ∷ []);
  sleep = suc;
}

two_rounds : Waits scheduler (codes "j") 2 2 0
two_rounds = later JobState.queued refl (inl refl) (later JobState.running refl (inr refl) at_once)

both_fetched : Fetches scheduler (codes "j") 2 (output 0 ∷ output 1 ∷ []) 2 (0 ∷ 1 ∷ [])
both_fetched =
    fetched (ExecutorMeta_into worker) (partition 0) (0 ∷ []) refl
      (fetched (ExecutorMeta_into worker) (partition 1) (1 ∷ []) refl none_left)

collect_lem_example : collect scheduler (2 + suc 0) (codes "q") 0 ≡ (ok (some (0 ∷ 1 ∷ [])), 2)
collect_lem_example =
    collect_lem scheduler (codes "q") (codes "q") (codes "j") 2 0 0 0 0 2 2 2
      (output 0 ∷ output 1 ∷ []) (0 ∷ 1 ∷ []) refl refl refl two_rounds refl both_fetched
