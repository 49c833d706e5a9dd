-- ===== src/Examples/Codecs.antt =====
-- Codecs of the stored messages that stand in for prost: self-delimiting, and read back.
use ballista.Prelude.{arith, ℕ, zero, suc, List, [], ◌∷◌, Option, none, some, ◌≡◌, refl, length}
use ballista.Text.{Text, Bytes, codes}
use ballista.Proto.{
  PartitionId, ExecutorMetadata, PartitionLocation, TaskState, TaskStatus, JobState, JobStatus,
}
use ballista.State.Codec.{Decoded, decoded, undecodable, Prost, IsProst}

-- A codec writes in front of what is there, and reads from the front.
pub record Codec (A : Type 0) : Type 0 where
  pub write : A → Bytes → Bytes
  pub read : Bytes → Option (A × Bytes)
  pub reads : (a : A) (rest : Bytes) → read (write a rest) ≡ some (a, rest)

abbrev on_read :
    {A B : Type 0} → Option (A × Bytes) → (A → Bytes → Option (B × Bytes)) → Option (B × Bytes)
on_read none k = none
on_read (some (a, rest)) k = k a rest

abbrev read_number : Bytes → Option (ℕ × Bytes)
read_number [] = none
read_number (n ∷ rest) = some (n, rest)

abbrev number : Codec ℕ
number = record { write = λ n rest. n ∷ rest; read = read_number; reads = λ n rest. refl }

module _ {A B : Type 0} (c : Codec A) where
  abbrev pair : Codec B → Codec (A × B)
  pair d = record {
    write = λ x rest. c.write x.0 (d.write x.1 rest);
    read = λ bytes.
        on_read (c.read bytes) λ a more. on_read (d.read more) λ b rest. some ((a, b), rest);
    reads = λ x rest. rw (c.reads x.0 (d.write x.1 rest), d.reads x.1 rest);
  }

  abbrev converted : (to : A → B) (from : B → A) → ((b : B) → to (from b) ≡ b) → Codec B
  converted to from back = record {
    write = λ b rest. c.write (from b) rest;
    read = λ bytes. on_read (c.read bytes) λ a rest. some (to a, rest);
    reads = λ b rest. rw (c.reads (from b) rest, back b);
  }

module _ {A : Type 0} (c : Codec A) where
  abbrev write_all : List A → Bytes → Bytes
  write_all [] rest = rest
  write_all (a ∷ others) rest = c.write a (write_all others rest)

  abbrev read_all : ℕ → Bytes → Option (List A × Bytes)
  read_all zero bytes = some ([], bytes)
  read_all (suc n) bytes =
      on_read (c.read bytes)
        λ a more. on_read (read_all n more) λ others rest. some (a ∷ others, rest)

  pub read_all-write_all :
      (xs : List A) (rest : Bytes) → read_all (length xs) (write_all xs rest) ≡ some (xs, rest)
  read_all-write_all [] rest = refl
  read_all-write_all (x ∷ xs) rest = rw (c.reads x (write_all xs rest), read_all-write_all xs rest)

  abbrev list : Codec (List A)
  list = record {
    write = λ xs rest. length xs ∷ write_all xs rest;
    read = λ bytes. on_read (read_number bytes) λ n more. read_all n more;
    reads = read_all-write_all;
  }

  abbrev write_option : Option A → Bytes → Bytes
  write_option none rest = 0 ∷ rest
  write_option (some a) rest = 1 ∷ c.write a rest

  abbrev read_option : Bytes → Option (Option A × Bytes)
  read_option [] = none
  read_option (zero ∷ rest) = some (none, rest)
  read_option (suc n ∷ bytes) = on_read (c.read bytes) λ a rest. some (some a, rest)

  pub read_option-write_option :
      (x : Option A) (rest : Bytes) → read_option (write_option x rest) ≡ some (x, rest)
  read_option-write_option none rest = refl
  read_option-write_option (some a) rest = rw (c.reads a rest)

  abbrev option : Codec (Option A)
  option = record { write = write_option; read = read_option; reads = read_option-write_option }

  -- A message type: a byte, and the fields.
  abbrev decode_message : Bytes → Decoded A
  decode_message [] = undecodable (codes "empty")
  decode_message (tag ∷ bytes) = elim (c.read bytes) [
    | none ↦ undecodable (codes "truncated")
    | some (a, rest) ↦ decoded a
  ]

  abbrev pub prost : Text → Prost A
  prost name = record { encode = λ a. 1 ∷ c.write a []; decode = decode_message; type_name = name }

  pub prost-IsProst : (name : Text) (empty : A) → IsProst (prost name) empty
  prost-IsProst name empty = record {
    decode-encode = λ a. rw (c.reads a []);
    encode-ne-nil = λ a h e. absurd (ground (arith, e));
  }

abbrev text : Codec Text
text = list number

abbrev partition_id : Codec PartitionId
partition_id =
    converted (pair text (pair number number))
      (λ x. record { job_id = x.0; stage_id = x.1.0; partition_id = x.1.1 })
      (λ p. (p.job_id, (p.stage_id, p.partition_id))) (λ p. refl)

abbrev pub executor_metadata : Codec ExecutorMetadata
executor_metadata =
    converted (pair text (pair text number)) (λ x. record { id = x.0; host = x.1.0; port = x.1.1 })
      (λ m. (m.id, (m.host, m.port))) (λ m. refl)

abbrev partition_location : Codec PartitionLocation
partition_location =
    converted (pair (option partition_id) (option executor_metadata))
      (λ x. record { partition_id = x.0; executor_meta = x.1 })
      (λ l. (l.partition_id, l.executor_meta)) (λ l. refl)

abbrev to_task_state : ℕ × Text → TaskState
to_task_state (zero, t) = TaskState.running t
to_task_state (suc zero, t) = TaskState.failed t
to_task_state (suc (suc n), t) = TaskState.completed t

abbrev from_task_state : TaskState → ℕ × Text
from_task_state (TaskState.running t) = (0, t)
from_task_state (TaskState.failed t) = (1, t)
from_task_state (TaskState.completed t) = (2, t)

pub task_state_back : (x : TaskState) → to_task_state (from_task_state x) ≡ x
task_state_back (TaskState.running t) = refl
task_state_back (TaskState.failed t) = refl
task_state_back (TaskState.completed t) = refl

abbrev pub task_status : Codec TaskStatus
task_status =
    converted
      (pair (option partition_id)
        (option (converted (pair number text) to_task_state from_task_state task_state_back)))
      (λ x. record { partition_id = x.0; status = x.1 }) (λ t. (t.partition_id, t.status))
      (λ t. refl)

abbrev to_job_state : ℕ × (Text × List PartitionLocation) → JobState
to_job_state (zero, (e, ls)) = JobState.queued
to_job_state (suc zero, (e, ls)) = JobState.running
to_job_state (suc (suc zero), (e, ls)) = JobState.failed e
to_job_state (suc (suc (suc n)), (e, ls)) = JobState.completed ls

abbrev from_job_state : JobState → ℕ × (Text × List PartitionLocation)
from_job_state JobState.queued = (0, ([], []))
from_job_state JobState.running = (1, ([], []))
from_job_state (JobState.failed e) = (2, (e, []))
from_job_state (JobState.completed ls) = (3, ([], ls))

pub job_state_back : (x : JobState) → to_job_state (from_job_state x) ≡ x
job_state_back JobState.queued = refl
job_state_back JobState.running = refl
job_state_back (JobState.failed e) = refl
job_state_back (JobState.completed ls) = refl

abbrev pub job_status : Codec JobStatus
job_status =
    converted
      (option (
        converted (pair number (pair text (list partition_location))) to_job_state from_job_state
          job_state_back))
      (λ x. record { status = x }) (λ s. s.status) (λ s. refl)
