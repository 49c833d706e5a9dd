-- ===== src/Serde.antt =====
-- rust/core/src/serde/scheduler: the scheduler's data types, and their conversions to and from
-- the messages.
pub mod Actions
pub mod RoundTrip
use ballista.Prelude.{ℕ, ◌%◌, ◌^◌, List, [], map, Option, none, some}
use ballista.Text.{Text, codes}
use ballista.Error.{Result, ok, required, ◌>>=◌}
use ballista.Proto

-- `as u32` and `as u16`.
abbrev pub u32 : ℕ → ℕ
u32 n = n % 2 ^ 32

abbrev pub u16 : ℕ → ℕ
u16 n = n % 2 ^ 16

pub record PartitionId : Type 0 where
  pub job_id : Text
  pub stage_id : ℕ
  pub partition_id : ℕ

pub record ExecutorMeta : Type 0 where
  pub id : Text
  pub host : Text
  pub port : ℕ

pub record PartitionLocation : Type 0 where
  pub partition_id : PartitionId
  pub executor_meta : ExecutorMeta

unfoldable pub ExecutorMeta_into : ExecutorMeta → Proto.ExecutorMetadata
ExecutorMeta_into m = record { id = m.id; host = m.host; port = m.port }

unfoldable pub ExecutorMeta_from : Proto.ExecutorMetadata → ExecutorMeta
ExecutorMeta_from m = record { id = m.id; host = m.host; port = u16 m.port }

unfoldable pub PartitionId_into : PartitionId → Proto.PartitionId
PartitionId_into p = record {
  job_id = p.job_id;
  stage_id = u32 p.stage_id;
  partition_id = u32 p.partition_id;
}

unfoldable pub PartitionId_try_from : Proto.PartitionId → Result PartitionId
PartitionId_try_from p =
    ok (record { job_id = p.job_id; stage_id = p.stage_id; partition_id = p.partition_id })

unfoldable pub PartitionLocation_try_into : PartitionLocation → Result Proto.PartitionLocation
PartitionLocation_try_into l = ok (record {
  partition_id = some (PartitionId_into l.partition_id);
  executor_meta = some (ExecutorMeta_into l.executor_meta);
})

unfoldable pub PartitionLocation_try_from : Proto.PartitionLocation → Result PartitionLocation
unfolding PartitionId_try_from ExecutorMeta_from
PartitionLocation_try_from l = do
  id ← required l.partition_id (codes "partition_id in PartitionLocation is missing.")
  partition_id ← PartitionId_try_from id
  meta ← required l.executor_meta (codes "executor_meta in PartitionLocation is missing")
  ok (record { partition_id = partition_id; executor_meta = ExecutorMeta_from meta })
