-- ===== src/State/Records.antt =====
-- Job, task and executor records of rust/scheduler/src/state/mod.rs are read back as they were
-- saved, and a save of one record leaves the others as they were.
use ballista.Prelude.{some, false, ◌≡◌, ◌≢◌, arith, Bool-cases, inl, inr}
use ballista.Text.{Text, text_eq, text_eq_iff}
use ballista.Error.{ok}
use ballista.Error.Actions.{continue-lift}
use ballista.Proto
use ballista.Backend.Entries.{Map, lookup, insert, value_or_empty}
use ballista.State.Codec.{decode_protobuf}
use ballista.State.Keys.{get_job_key, get_task_status_key}
use ballista.State.KeyLaws.{job_key-job_key, task_key-job_key}
use ballista.State.{
  SchedulerState, non_empty, save_job_metadata, get_job_metadata, save_task_status, get_task_status,
}
use ballista.State.Backed.{
  IsBacked, no_job_status, no_task_status, decode_protobuf-encode, non_empty_ok, read-insert,
  read-insert_other,
}

text_ne : (s t : Text) → s ≢ t → text_eq s t ≡ false
text_ne s t h = elim (Bool-cases (text_eq s t)) [
  | inl same ↦ absurd (h ((text_eq_iff s t).0 same))
  | inr differs ↦ differs
]

module _ {S Op Schema PlanNode : Type 0} (state : SchedulerState S Op Schema PlanNode)
    (Rep : S → Map → Type 0) (backed : IsBacked state Rep) (ns : Text) where
  -- A save of a job is a write of its encoding at its key.
  pub save_job_metadata_lem :
      (job_id : Text) (status : Proto.JobStatus) (s : S) (m : Map)
      → Rep s m
      → ((save_job_metadata state ns job_id status s).0 ≡ ok tt)
        × Rep
            (save_job_metadata state ns job_id status s).1
            (insert (get_job_key ns job_id) (state.job_codec.encode status) m)
  unfolding save_job_metadata
  save_job_metadata_lem job_id status s m r =
      (backed.map_client.put_ok _ _ _ s m r, backed.map_client.put_writes _ _ _ s m r)

  pub get_job_metadata_lem :
      (job_id : Text) (status : Proto.JobStatus) (s : S) (m : Map)
      → Rep s m
      → status ≢ no_job_status
      → value_or_empty (lookup (get_job_key ns job_id) m) ≡ state.job_codec.encode status
      → get_job_metadata state ns job_id s ≡ (ok status, s)
  unfolding get_job_metadata
  get_job_metadata_lem job_id status s m r h e =
      rw
        (
          backed.map_client.get_reads _ s m r,
          e,
          non_empty_ok _ _ (backed.jobs.encode-ne-nil status h),
        )
        (rw (decode_protobuf-encode state.job_codec status backed.jobs))

  -- On a backend that serves a map, a job record that was saved, with a state, is what a read of
  -- that job returns.
  pub get_job_metadata-save_job_metadata :
      (job_id : Text) (status : Proto.JobStatus) (s : S) (m : Map)
      → Rep s m
      → status ≢ no_job_status
      → let t = (save_job_metadata state ns job_id status s).1 in
        get_job_metadata state ns job_id t ≡ (ok status, t)
  get_job_metadata-save_job_metadata job_id status s m r h =
      get_job_metadata_lem job_id status _ _ (save_job_metadata_lem job_id status s m r).1 h
        (read-insert (get_job_key ns job_id) (state.job_codec.encode status) m)

  same_read :
      (job_id : Text) (s t : S) (m n : Map)
      → Rep s m
      → Rep t n
      → lookup (get_job_key ns job_id) n ≡ lookup (get_job_key ns job_id) m
      → (get_job_metadata state ns job_id t).0 ≡ (get_job_metadata state ns job_id s).0
  unfolding get_job_metadata
  same_read job_id s t m n r q e =
      rw (backed.map_client.get_reads _ s m r, backed.map_client.get_reads _ t n q, e)
        (continue-lift (non_empty (value_or_empty (lookup (get_job_key ns job_id) m)) _)
          (decode_protobuf state.job_codec) t s)

  -- On a backend that serves a map, saving one job's record does not change what a read of another
  -- job returns.
  pub get_job_metadata-save_job_metadata_other :
      (job_id other : Text) (status : Proto.JobStatus) (s : S) (m : Map)
      → Rep s m
      → job_id ≢ other
      → (get_job_metadata state ns other (save_job_metadata state ns job_id status s).1).0
        ≡ (get_job_metadata state ns other s).0
  get_job_metadata-save_job_metadata_other job_id other status s m r h =
      same_read other s _ m _ r (save_job_metadata_lem job_id status s m r).1
        (read-insert_other _ _ _ m (rw job_key-job_key (text_ne job_id other h)))

  pub save_task_status_lem :
      (id : Proto.PartitionId) (status : Proto.TaskStatus) (s : S) (m : Map)
      → Rep s m
      → status.partition_id ≡ some id
      → ((save_task_status state ns status s).0 ≡ ok tt)
        × Rep (save_task_status state ns status s).1 (
            insert
              (get_task_status_key ns id.job_id id.stage_id id.partition_id)
              (state.task_codec.encode status)
              m)
  unfolding save_task_status
  save_task_status_lem id status s m r e =
      rw e (backed.map_client.put_ok _ _ _ s m r, backed.map_client.put_writes _ _ _ s m r)

  -- On a backend that serves a map, a task record with an id that was saved is what a read of that
  -- task returns.
  pub get_task_status-save_task_status :
      (id : Proto.PartitionId) (status : Proto.TaskStatus) (s : S) (m : Map)
      → Rep s m
      → status.partition_id ≡ some id
      → let t = (save_task_status state ns status s).1 in
        get_task_status state ns id.job_id id.stage_id id.partition_id t ≡ (ok status, t)
  unfolding get_task_status
  get_task_status-save_task_status id status s m r e =
      let h : status ≢ no_task_status = λ p. ground (arith, p, e) in
      rw
        (
          backed.map_client.get_reads _ _ _ (save_task_status_lem id status s m r e).1,
          read-insert,
          non_empty_ok _ _ (backed.tasks.encode-ne-nil status h),
        )
        (rw (decode_protobuf-encode state.task_codec status backed.tasks))

  -- On a backend that serves a map, saving a task with an id does not change what a read of a job
  -- returns.
  pub get_job_metadata-save_task_status :
      (id : Proto.PartitionId) (job_id : Text) (status : Proto.TaskStatus) (s : S) (m : Map)
      → Rep s m
      → status.partition_id ≡ some id
      → (get_job_metadata state ns job_id (save_task_status state ns status s).1).0
        ≡ (get_job_metadata state ns job_id s).0
  get_job_metadata-save_task_status id job_id status s m r e =
      same_read job_id s _ m _ r (save_task_status_lem id status s m r e).1 (
        read-insert_other _ _ _ m
          (task_key-job_key ns id.job_id job_id id.stage_id id.partition_id))
