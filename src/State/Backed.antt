-- ===== src/State/Backed.antt =====
-- What the scheduler's state relies on outside the repository: a backend that serves a map, and
-- codecs that read back what they wrote.
use ballista.Prelude.{[], ◌∷◌, none, false, ◌≡◌, ◌≢◌, refl}
use ballista.Text.{Text, Bytes, text_eq, text_eq_refl}
use ballista.Error.{ok}
use ballista.Proto
use ballista.Backend.{IsMap}
use ballista.Backend.Entries.{Map, lookup, insert, value_or_empty, lookup-insert}
use ballista.State.Codec.{Prost, IsProst, decode_protobuf}
use ballista.State.{SchedulerState, non_empty}

abbrev pub no_job_status : Proto.JobStatus
no_job_status = record { status = none }

abbrev pub no_task_status : Proto.TaskStatus
no_task_status = record { partition_id = none; status = none }

abbrev pub no_executor : Proto.ExecutorMetadata
no_executor = record { id = []; host = []; port = 0 }

pub record IsBacked {S Op Schema PlanNode : Type 0} (state : SchedulerState S Op Schema PlanNode)
    (Rep : S → Map → Type 0) : Type 0 where
  pub map_client : IsMap state.config_client Rep
  pub jobs : IsProst state.job_codec no_job_status
  pub tasks : IsProst state.task_codec no_task_status
  pub executors : IsProst state.executor_codec no_executor

pub decode_protobuf-encode :
    {A : Type 0} (p : Prost A) {empty : A} (a : A)
    → IsProst p empty
    → decode_protobuf p (p.encode a) ≡ ok a
unfolding decode_protobuf
decode_protobuf-encode p a h = rw (h.decode-encode a)

pub non_empty_ok : (bytes message : Bytes) → bytes ≢ [] → non_empty bytes message ≡ ok bytes
non_empty_ok [] message h = absurd (h refl)
non_empty_ok (b ∷ bytes) message h = refl

-- What is read at a key just written.
pub read-insert : (k : Text) (v : Bytes) (m : Map) → value_or_empty (lookup k (insert k v m)) ≡ v
read-insert k v m = rw (lookup-insert k k v m, text_eq_refl k)

pub read-insert_other :
    (k j : Text) (v : Bytes) (m : Map) → text_eq k j ≡ false → lookup j (insert k v m) ≡ lookup j m
read-insert_other k j v m h = rw (lookup-insert k j v m, h)
