-- ===== src/Proto.antt =====
-- Messages of rust/core/proto/ballista.proto that the scheduler keeps and the executors send.
-- A `oneof` is an `Option` of a data type; a `uint32` is a number below 2^32.
use ballista.Prelude.{ℕ, List, Option, ℕ_discrete}
use ballista.Text.{Text}

pub record PartitionId : Type 0 where
  pub job_id : Text
  pub stage_id : ℕ
  pub partition_id : ℕ

pub record ExecutorMetadata : Type 0 where
  pub id : Text
  pub host : Text
  pub port : ℕ

pub record PartitionLocation : Type 0 where
  pub partition_id : Option PartitionId
  pub executor_meta : Option ExecutorMetadata

pub data TaskState : Type 0 where
  running failed completed : Text → TaskState

pub record TaskStatus : Type 0 where
  pub partition_id : Option PartitionId
  pub status : Option TaskState

pub data JobState : Type 0 where
  queued running : JobState
  failed : Text → JobState
  completed : List PartitionLocation → JobState

pub record JobStatus : Type 0 where
  pub status : Option JobState

-- The derived `PartialEq` of `JobStatus`.
unfoldable pub JobStatus-discrete : Discrete JobStatus
unfolding ℕ_discrete
JobStatus-discrete = hlevel ℕ_discrete
