-- ===== src/Server/Failures.antt =====
-- What becomes of a job whose planning fails, in `execute_query` of rust/scheduler/src/lib.rs.
use ballista.Prelude.{List, some, ◌≡◌, refl, arith}
use ballista.Text.{Text, codes}
use ballista.Error.{Result, ok}
use ballista.Error.Actions.{Exec}
use ballista.Proto.{JobState, JobStatus}
use ballista.Serde.{ExecutorMeta}
use ballista.Plan
use ballista.Planner
use ballista.Planner.{QueryStage, plan_query_stages}
use ballista.Backend.Entries.{Map}
use ballista.State.{SchedulerState, save_job_metadata, get_job_metadata}
use ballista.State.Keys.{get_job_key}
use ballista.State.Backed.{IsBacked, read-insert}
use ballista.State.Records.{save_job_metadata_lem, get_job_metadata_lem}
use ballista.Server.Submit.{
  QueryEngine, Attempt, value, failure, crash, of_result, of_planned, save_failed, fail_job,
  mark_running, run_job, save_stages,
}

abbrev and_then : {A B : Type 0} → Attempt A → (A → Attempt B) → Attempt B
and_then (value a) f = f a
and_then (failure message) f = failure message
and_then crash f = crash

module _ {S Op Schema PlanNode LogicalPlan LogicalPlanNode : Type 0}
    (state : SchedulerState S Op Schema PlanNode)
    (engine : QueryEngine LogicalPlan LogicalPlanNode Op Schema) (ns job_id : Text) where
  -- The stages of a physical plan, or the message of the step that fails.
  abbrev pub staged :
      Plan.ExecutionPlan Op Schema → List ExecutorMeta → Attempt (List (QueryStage Op Schema))
  staged physical executors =
      and_then
        (of_result (codes "Could not create distributed planner: ") (Planner.try_new executors))
        λ planner.
          of_result (codes "Could not plan query stages: ")
            (plan_query_stages state.data_fusion job_id physical planner).0

  abbrev optimizing : LogicalPlan → Attempt LogicalPlan
  optimizing plan =
      of_planned (codes "Could not create optimized logical plan: ") (engine.optimize plan)

  abbrev planning : LogicalPlan → Attempt (Plan.ExecutionPlan Op Schema)
  planning optimized =
      of_planned (codes "Could not create physical plan: ") (engine.create_physical_plan optimized)

  -- The stages of a job, or the message of the first step that fails.
  abbrev pub prepared : LogicalPlan → List ExecutorMeta → Attempt (List (QueryStage Op Schema))
  prepared plan executors =
      and_then (optimizing plan)
        λ optimized. and_then (planning optimized) λ physical. staged physical executors

  -- The steps after the job is marked as running.
  abbrev last_steps : Plan.ExecutionPlan Op Schema → List ExecutorMeta → Exec S (Unit {0})
  last_steps physical executors =
      fail_job state engine ns job_id
        (of_result (codes "Could not create distributed planner: ") (Planner.try_new executors))
        λ planner.
          fail_job state engine ns job_id
            (of_result (codes "Could not plan query stages: ")
              (plan_query_stages state.data_fusion job_id physical planner).0)
            (save_stages state engine ns job_id)

  module _ (Rep : S → Map → Type 0) (backed : IsBacked state Rep) where
    -- The spawned task ended, and the job's record says with which message it failed.
    abbrev pub HasFailed : Text → Result (Unit {0}) × S → Type 0
    HasFailed message out =
        (out.0 ≡ ok tt)
        × (get_job_metadata state ns job_id out.1
            ≡ (ok (record { status = some (JobState.failed (engine.status_text message)) }), out.1))

    save_failed-HasFailed :
        (message : Text) (s : S) (m : Map)
        → Rep s m
        → HasFailed message (save_failed state engine ns job_id (engine.status_text message) s)
    unfolding save_failed
    save_failed-HasFailed message s m r =
        let status : JobStatus = record {
          status = some (JobState.failed (engine.status_text message));
        } in
        let saved = save_job_metadata_lem state Rep backed ns job_id status s m r in
        (
          rw saved.0 refl,
          get_job_metadata_lem state Rep backed ns job_id status _ _ saved.1
              (λ p. absurd (ground (arith, p)))
              (read-insert (get_job_key ns job_id) (state.job_codec.encode status) m),
        )

    failed-HasFailed :
        {A : Type 0} (a : Attempt A) (k : A → Exec S (Unit {0})) (message : Text) (s : S) (m : Map)
        → Rep s m
        → a ≡ failure message
        → HasFailed message (fail_job state engine ns job_id a k s)
    unfolding fail_job
    failed-HasFailed a k message s m r h = rw h (save_failed-HasFailed message s m r)

    fail_job-HasFailed :
        {A B : Type 0} (a : Attempt A) (f : A → Attempt B) (k : A → Exec S (Unit {0}))
        (message : Text) (s : S) (m : Map)
        → Rep s m
        → and_then a f ≡ failure message
        → ((x : A) → f x ≡ failure message → HasFailed message (k x s))
        → HasFailed message (fail_job state engine ns job_id a k s)
    unfolding fail_job
    fail_job-HasFailed (value x) f k message s m r h next = next x h
    fail_job-HasFailed (failure other) f k message s m r h next =
        let same : other ≡ message = ground (arith, h) in
        rw same (save_failed-HasFailed message s m r)
    fail_job-HasFailed crash f k message s m r h next = absurd (ground (arith, h))

    mark_running-HasFailed :
        (k : Exec S (Unit {0})) (message : Text) (s : S) (m : Map)
        → Rep s m
        → ((t : S) (m' : Map) → Rep t m' → HasFailed message (k t))
        → HasFailed message (mark_running state engine ns job_id k s)
    unfolding mark_running save_job_metadata get_job_metadata
    mark_running-HasFailed k message s m r next =
        let saved =
          save_job_metadata_lem state Rep backed ns job_id
            (record { status = some JobState.running }) s m r in
        rw saved.0 (next _ _ saved.1)

    staged-HasFailed :
        (physical : Plan.ExecutionPlan Op Schema) (executors : List ExecutorMeta) (message : Text)
        (s : S) (m : Map)
        → Rep s m
        → staged physical executors ≡ failure message
        → HasFailed message (last_steps physical executors s)
    staged-HasFailed physical executors message s m r h =
        fail_job-HasFailed _ _ _ message s m r h λ planner h'. failed-HasFailed _ _ message s m r h'

    -- When a step of the planning fails, whether before or after the job was marked as running, the
    -- spawned task ends and the job's record says that it failed, with that step's message. The
    -- backend serves a map.
    pub run_job-HasFailed :
        (plan : LogicalPlan) (executors : List ExecutorMeta) (message : Text) (s : S) (m : Map)
        → Rep s m
        → prepared plan executors ≡ failure message
        → HasFailed message (run_job state engine ns job_id plan executors s)
    unfolding run_job
    run_job-HasFailed plan executors message s m r h =
        fail_job-HasFailed (optimizing plan)
          (λ optimized. and_then (planning optimized) λ physical. staged physical executors)
          (λ optimized.
            fail_job state engine ns job_id (planning optimized)
              λ physical. mark_running state engine ns job_id (last_steps physical executors))
          message s m r h
          λ optimized h'.
            fail_job-HasFailed (planning optimized) (λ physical. staged physical executors)
              (λ physical. mark_running state engine ns job_id (last_steps physical executors))
              message s m r h'
              λ physical h''.
                mark_running-HasFailed (last_steps physical executors) message s m r
                  λ t m' r'. staged-HasFailed physical executors message t m' r' h''
