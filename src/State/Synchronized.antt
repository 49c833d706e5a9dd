-- ===== src/State/Synchronized.antt =====
-- What `synchronize_job_status` of rust/scheduler/src/state/mod.rs makes of a job's record.
use ballista.Prelude.{List, Option, none, some, ◌≡◌, ◌≢◌, refl, arith}
use ballista.Text.{Text}
use ballista.Text.Split.{NoSlash}
use ballista.Error.{ok}
use ballista.Proto.{TaskStatus, JobStatus, JobState, JobStatus-discrete}
use ballista.Serde.{ExecutorMeta}
use ballista.Backend.Entries.{Map, lookup, with_prefix}
use ballista.State.Keys.{get_job_key, get_task_prefix_for_job}
use ballista.State.KeyLaws.{extract_job_id-get_job_key}
use ballista.State.Codec.{decode_all}
use ballista.State.JobSpec.{described_state, job_state_of_tasks_lem}
use ballista.State.{SchedulerState, save_job_metadata, get_job_metadata}
use ballista.State.Synchronize.{
  with_status, unless_same, get_job_status_from_tasks, save_if_changed, synchronize_job,
}
use ballista.State.Backed.{IsBacked, no_job_status, decode_protobuf-encode, read-insert}
use ballista.State.Records.{save_job_metadata_lem, get_job_metadata_lem}

-- A job's record after its tasks were looked at: their state, if they have one.
abbrev pub status_after : JobStatus → Option JobState → JobStatus
status_after status none = status
status_after status (some job_state) = record { status = some job_state }

module _ {S Op Schema PlanNode : Type 0} (state : SchedulerState S Op Schema PlanNode)
    (Rep : S → Map → Type 0) (backed : IsBacked state Rep) (ns : Text)
    (executors : List ExecutorMeta) where
  get_job_status_from_tasks_lem :
      (id : Text) (ts : List TaskStatus) (s : S) (m : Map)
      → Rep s m
      → decode_all state.task_codec (with_prefix (get_task_prefix_for_job ns id) m) ≡ ok ts
      → get_job_status_from_tasks state ns id executors s
        ≡ (ok (with_status (described_state executors ts)), s)
  unfolding get_job_status_from_tasks
  get_job_status_from_tasks_lem id ts s m r e = rw (
    backed.map_client.scan_reads (get_task_prefix_for_job ns id) s m r,
    e,
    job_state_of_tasks_lem executors ts,
  )

  decided :
      (id : Text) (status : JobStatus) (job_state : JobState) (s : S) (m : Map)
      → Rep s m
      → status ≢ no_job_status
      → lookup (get_job_key ns id) m ≡ some (state.job_codec.encode status)
      → let new : JobStatus = record { status = some job_state } in
        (same : Dec (status ≡ new))
        → let out = unless_same same (save_job_metadata state ns id new) s in
          (out.0 ≡ ok tt) × (get_job_metadata state ns id out.1 ≡ (ok new, out.1))
  decided id status job_state s m r h e (yes same) =
      (refl, rw (← same) (get_job_metadata_lem state Rep backed ns id status s m r h (rw e)))
  decided id status job_state s m r h e (no differs) =
      let new : JobStatus = record { status = some job_state } in
      let saved = save_job_metadata_lem state Rep backed ns id new s m r in
      (
        saved.0,
        get_job_metadata_lem state Rep backed ns id new _ _ saved.1 (λ p. ground (arith, p))
            (read-insert (get_job_key ns id) (state.job_codec.encode new) m),
      )

  -- The record is right after the comparison, whichever way it went.
  save_if_changed_lem :
      (id : Text) (status : JobStatus) (job_state : Option JobState) (s : S) (m : Map)
      → Rep s m
      → status ≢ no_job_status
      → lookup (get_job_key ns id) m ≡ some (state.job_codec.encode status)
      → let out = save_if_changed state ns id status (with_status job_state) s in
        (out.0 ≡ ok tt)
        × (get_job_metadata state ns id out.1 ≡ (ok (status_after status job_state), out.1))
  unfolding save_if_changed
  save_if_changed_lem id status none s m r h e =
      (refl, get_job_metadata_lem state Rep backed ns id status s m r h (rw e))
  save_if_changed_lem id status (some job_state) s m r h e =
      decided id status job_state s m r h e (JobStatus-discrete status _)

  -- On a backend that serves a map, for a job with a non-empty record, ids without a slash and
  -- tasks that decode: synchronising the job succeeds, and its record is then the state that its
  -- tasks describe, or what it was if they describe none.
  pub synchronize_job_lem :
      (id : Text) (status : JobStatus) (ts : List TaskStatus) (s : S) (m : Map)
      → Rep s m
      → NoSlash ns
      → NoSlash id
      → status ≢ no_job_status
      → lookup (get_job_key ns id) m ≡ some (state.job_codec.encode status)
      → decode_all state.task_codec (with_prefix (get_task_prefix_for_job ns id) m) ≡ ok ts
      → let out =
          synchronize_job state ns executors
            (get_job_key ns id)
            (state.job_codec.encode status)
            s in
        (out.0 ≡ ok tt)
        × (get_job_metadata state ns id out.1
            ≡ (ok (status_after status (described_state executors ts)), out.1))
  unfolding synchronize_job
  synchronize_job_lem id status ts s m r hn hi h e d =
      rw
        (
          extract_job_id-get_job_key ns id hn hi,
          decode_protobuf-encode state.job_codec status backed.jobs,
          get_job_status_from_tasks_lem id ts s m r d,
        )
        (save_if_changed_lem id status (described_state executors ts) s m r h e)
