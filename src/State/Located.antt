-- ===== src/State/Located.antt =====
-- What the search for completed tasks in `assign_next_schedulable_task` of
-- rust/scheduler/src/state/mod.rs has seen when it ends with locations.
use ballista.Prelude.{ℕ, List, [], ◌∷◌, Option, none, some, ◌≡◌, refl, arith, All, range_from}
use ballista.Text.{Text, Bytes}
use ballista.Error.{Result, ok, err, panicked, bind, bind-eq-ok}
use ballista.Proto.{TaskStatus}
use ballista.Serde.{PartitionLocation, ExecutorMeta}
use ballista.Plan.{UnresolvedShuffle}
use ballista.Planner.Shuffles.{Locations}
use ballista.Backend.Entries.{Map, lookup}
use ballista.State.Keys.{get_task_status_key}
use ballista.State.Codec.{Prost, decode_protobuf}
use ballista.State.JobState.{completed_by}
use ballista.State.{unwrap}
use ballista.State.Assign.{
  and_go_on, locate_completed, locate, push_some, locate_partitions, locate_stages, locate_shuffles,
}

-- The task of a partition is among the entries, and some executor completed it.
pub record IsCompleted (codec : Prost TaskStatus) (ns job_id : Text) (kvs : Map)
    (stage_id partition_id : ℕ) : Type 0 where
  pub bytes : Bytes
  pub task : TaskStatus
  pub executor_id : Text
  pub present : lookup (get_task_status_key ns job_id stage_id partition_id) kvs ≡ some bytes
  pub decodes : decode_protobuf codec bytes ≡ ok task
  pub completed : completed_by task.status ≡ some executor_id

pub unwrap-eq-ok : {A : Type 0} (o : Option A) {a : A} → unwrap o ≡ ok a → o ≡ some a
unwrap-eq-ok none h = absurd (ground arith)
unwrap-eq-ok (some a) h = ground arith

pub and_go_on-eq-some :
    (r : Result (Option Locations)) (f : Locations → Result (Option Locations)) {found : Locations}
    → and_go_on r f ≡ ok (some found)
    → (acc : Locations) × (r ≡ ok (some acc)) × (f acc ≡ ok (some found))
and_go_on-eq-some (ok none) f h = absurd (ground arith)
and_go_on-eq-some (ok (some acc)) f h = (acc, refl, h)
and_go_on-eq-some (err e) f h = absurd (ground arith)
and_go_on-eq-some panicked f h = absurd (ground arith)

module _ (codec : Prost TaskStatus) (ns job_id : Text) (kvs : Map) where
  -- Every partition of every stage that the shuffles name.
  abbrev pub AllCompleted : {Schema : Type 0} → List (UnresolvedShuffle Schema) → Type 0
  AllCompleted = All (λ u.
      All (λ id. All (IsCompleted codec ns job_id kvs id) (range_from 0 u.partition_count))
        u.query_stage_ids)

module _ (codec : Prost TaskStatus) (ns job_id : Text) (kvs : Map)
    (executors : List ExecutorMeta) where
  locate_completed-eq-some :
      (o : Option Text) (stage_id p : ℕ) (location : PartitionLocation)
      → locate_completed codec ns job_id kvs executors o stage_id p ≡ ok (some location)
      → (executor_id : Text) × (o ≡ some executor_id)
  unfolding locate_completed
  locate_completed-eq-some none stage_id p location h = absurd (ground arith)
  locate_completed-eq-some (some executor_id) stage_id p location h = (executor_id, refl)

  locate-IsCompleted :
      (stage_id p : ℕ) (location : PartitionLocation)
      → locate codec ns job_id kvs executors stage_id p ≡ ok (some location)
      → IsCompleted codec ns job_id kvs stage_id p
  unfolding locate
  locate-IsCompleted stage_id p location h =
      let (bytes, found, then) =
        bind-eq-ok (unwrap (lookup (get_task_status_key ns job_id stage_id p) kvs)) _ h in
      let (task, decodes, then') = bind-eq-ok (decode_protobuf codec bytes) _ then in
      let (executor_id, completed) =
        locate_completed-eq-some (completed_by task.status) stage_id p location then' in
      record {
        bytes = bytes;
        task = task;
        executor_id = executor_id;
        present = unwrap-eq-ok _ found;
        decodes = decodes;
        completed = completed;
      }

  locate_partitions-IsCompleted :
      (stage_id : ℕ) (ps : List ℕ) (acc found : Locations)
      → locate_partitions codec ns job_id kvs executors stage_id ps acc ≡ ok (some found)
      → All (IsCompleted codec ns job_id kvs stage_id) ps
  unfolding locate_partitions
  locate_partitions-IsCompleted stage_id [] acc found h = tt
  locate_partitions-IsCompleted stage_id (p ∷ ps) acc found h =
      let (acc', first, rest) =
        and_go_on-eq-some (bind (locate codec ns job_id kvs executors stage_id p) _) _ h in
      let (o, located, pushed) =
        bind-eq-ok (locate codec ns job_id kvs executors stage_id p) _ first in
      (located_one o acc' located pushed, locate_partitions-IsCompleted stage_id ps acc' found rest)
    where
      located_one :
          (o : Option PartitionLocation) (acc' : Locations)
          → locate codec ns job_id kvs executors stage_id p ≡ ok o
          → push_some stage_id o acc ≡ ok (some acc')
          → IsCompleted codec ns job_id kvs stage_id p
      located_one none acc' located pushed = absurd (ground arith)
      located_one (some location) acc' located pushed =
          locate-IsCompleted stage_id p location located

  locate_stages-IsCompleted :
      (ids : List ℕ) (count : ℕ) (acc found : Locations)
      → locate_stages codec ns job_id kvs executors ids count acc ≡ ok (some found)
      → All (λ id. All (IsCompleted codec ns job_id kvs id) (range_from 0 count)) ids
  unfolding locate_stages
  locate_stages-IsCompleted [] count acc found h = tt
  locate_stages-IsCompleted (id ∷ ids) count acc found h =
      let (acc', first, rest) =
        and_go_on-eq-some
          (locate_partitions codec ns job_id kvs executors id (range_from 0 count) acc) _ h in
      (
        locate_partitions-IsCompleted id (range_from 0 count) acc acc' first,
        locate_stages-IsCompleted ids count acc' found rest,
      )

  pub locate_shuffles-AllCompleted :
      {Schema : Type 0} (us : List (UnresolvedShuffle Schema)) (acc found : Locations)
      → locate_shuffles codec ns job_id kvs executors us acc ≡ ok (some found)
      → AllCompleted codec ns job_id kvs us
  unfolding locate_shuffles
  locate_shuffles-AllCompleted [] acc found h = tt
  locate_shuffles-AllCompleted (u ∷ us) acc found h =
      let (acc', first, rest) =
        and_go_on-eq-some
          (locate_stages codec ns job_id kvs executors u.query_stage_ids u.partition_count acc) _
          h in
      (
        locate_stages-IsCompleted u.query_stage_ids u.partition_count acc acc' first,
        locate_shuffles-AllCompleted us acc' found rest,
      )
