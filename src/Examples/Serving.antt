-- ===== src/Examples/Serving.antt =====
-- Messages there and back, and polls of the scheduler.
use ballista.Prelude.{◌++◌}
use ballista.Prelude.{ℕ, [], ◌∷◌, none, some, Bool, true, false, ◌≡◌, refl, arith}
use ballista.Text.{Text, codes}
use ballista.Error.{ok, bind}
use ballista.Proto.{ExecutorMetadata, TaskState}
use ballista.Serde.{ExecutorMeta_into}
use ballista.Serde.Actions.{Action, execute_partition, PlanSerde, Action_try_into, Action_try_from}
use ballista.Serde.RoundTrip.{Action_round_trip, without_locations}
use ballista.Backend.Standalone.{standalone_client}
use ballista.Backend.Etcd.{answer, failed, Etcd, EtcdClient, etcd_client}
use ballista.State.{SchedulerState, save_executor_metadata}
use ballista.Server.{status, Code, PollWorkParams, PollWorkResult, poll_work}
use ballista.Server.Submit.{QueryEngine, planned, refused, run_job}
use ballista.Server.Failures.{HasFailed, run_job-HasFailed}
use ballista.Server.Polls.{poll_work_no_task, etcd_lock_kept}
use ballista.Examples.Engine.{Op, Plan, worker, total}
use ballista.Examples.Storage.{Rep, state, state-IsBacked, holding, ns, task}

abbrev plans : PlanSerde Plan Plan
plans = record { to_proto = ok; from_proto = ok }

abbrev execute_total : Action Plan
execute_total = execute_partition (record {
  job_id = codes "j";
  stage_id = 2;
  partition_id = 0 ∷ 1 ∷ [];
  plan = total;
  shuffle_locations = (record { job_id = codes "j"; stage_id = 1; partition_id = 0 }, worker) ∷ [];
})

Action_round_trip_example :
    bind (Action_try_into plans execute_total) (Action_try_from plans)
    ≡ ok (without_locations execute_total)
Action_round_trip_example =
    Action_round_trip plans execute_total (omega arith, (omega arith, (omega arith, tt))) refl

abbrev metadata : ExecutorMetadata
metadata = ExecutorMeta_into worker

abbrev polling : Bool → PollWorkParams
polling can_accept_task = record {
  metadata = some metadata;
  can_accept_task = can_accept_task;
  task_status = task 0 (some (TaskState.running (codes "w"))) ∷ [];
}

abbrev idle : PollWorkParams
idle = record { metadata = some metadata; can_accept_task = false; task_status = [] }

abbrev no_task : PollWorkResult Plan
no_task = record { task = none }

poll_work_no_task_example : no_task.task ≡ none
unfolding poll_work standalone_client save_executor_metadata
poll_work_no_task_example =
    poll_work_no_task state ns (λ entries. entries) idle (holding []) no_task refl refl

-- A cluster that is its lock: it gives the lock out, and has no leases left.
abbrev no_leases : Etcd Bool ℕ ℕ
no_leases = record {
  get = λ k c. answer [];
  get_prefix = λ p c. answer [];
  lease_grant = λ seconds c. (failed (codes "no lease"), c);
  put = λ k v lease c. (answer tt, c);
  lock = λ name c. (answer 7, true);
  unlock = λ key c. (answer tt, false);
}

abbrev etcd_state : SchedulerState (EtcdClient Bool ℕ) Op Text Plan
etcd_state = record {
  config_client = etcd_client no_leases;
  executor_codec = state.executor_codec;
  job_codec = state.job_codec;
  task_codec = state.task_codec;
  plan_codec = state.plan_codec;
  plan_serde = plans;
  data_fusion = state.data_fusion;
}

etcd_lock_kept_example :
    let out =
      poll_work etcd_state ns (λ entries. entries) idle (record { etcd = false; guard = none }) in
    ((message : Text) × (out.0 ≡ status Code.internal message)) × (out.1.etcd ≡ true)
etcd_lock_kept_example =
    etcd_lock_kept no_leases etcd_state ns (λ entries. entries) idle metadata
      (record { etcd = false; guard = none }) 7 true true (codes "no lease") refl refl refl refl

-- A query engine that cannot make a physical plan.
abbrev stuck : QueryEngine Text Text Op Text
stuck = record {
  from_node = ok;
  sql = planned;
  optimize = planned;
  create_physical_plan = λ plan. refused (codes "no plan");
  status_text = λ message. message;
}

run_job-HasFailed_example :
    HasFailed state stuck ns
      (codes "j")
      Rep
      state-IsBacked
      (codes "Could not create physical plan: " ++ codes "no plan")
      (run_job state stuck ns (codes "j") (codes "q") [] (holding []))
run_job-HasFailed_example =
    run_job-HasFailed state stuck ns (codes "j") Rep state-IsBacked (codes "q") []
      (codes "Could not create physical plan: " ++ codes "no plan") (holding []) [] refl refl
