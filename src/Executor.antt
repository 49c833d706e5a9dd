-- ===== src/Executor.antt =====
-- rust/executor/src/execution_loop.rs: an executor polls the scheduler, runs the tasks that it is
-- given and reports what became of them.
pub mod Slots
use ballista.Prelude.{
  ℕ, ◌+◌, ◌-◌, ◌%◌, ◌^◌, List, [], ◌∷◌, ◌++◌, Option, none, some, Bool, ltb, ◌≡◌,
}
use ballista.Text.{Text, codes}
use ballista.Error.{BallistaError, display}
use ballista.Proto.{PartitionId, TaskState, TaskStatus}

-- What `execute_partition` of the executor's own client comes to.
pub data Execution : Type 0 where
  executed : Execution
  failed : BallistaError → Execution

unfoldable pub as_task_status : Execution → Text → PartitionId → TaskStatus
as_task_status executed executor_id task_id = record {
  partition_id = some task_id;
  status = some (TaskState.completed executor_id);
}
as_task_status (failed e) executor_id task_id = record {
  partition_id = some task_id;
  status = some (TaskState.failed (codes "Task failed due to Tokio error: " ++ display e));
}

-- The loop's `try_recv` until the channel is empty. The sender lives as long as the loop, so the
-- channel is never disconnected.
unfoldable pub sample_tasks_status : List TaskStatus → List TaskStatus → List TaskStatus
sample_tasks_status task_status [] = task_status
sample_tasks_status task_status (status ∷ rest) =
    sample_tasks_status (task_status ++ status ∷ []) rest

-- A poll that is under way.
pub record PollRequest : Type 0 where
  pub can_accept_task : Bool
  pub task_status : List TaskStatus

-- `slots` is the atomic counter. `running` are the spawned tasks that execute, `finished` those
-- that gave their slot back and have not sent their status, and `channel` the sent statuses that
-- no poll took. `delivered` and `dropped` are the statuses of the polls that the scheduler answered
-- and of those that failed.
pub record ExecutorState : Type 0 where
  pub slots : ℕ
  pub running : List PartitionId
  pub finished : List TaskStatus
  pub channel : List TaskStatus
  pub request : Option PollRequest
  pub delivered : List TaskStatus
  pub dropped : List TaskStatus

unfoldable pub start : ℕ → ExecutorState
start concurrent_tasks = record {
  slots = concurrent_tasks;
  running = [];
  finished = [];
  channel = [];
  request = none;
  delivered = [];
  dropped = [];
}

-- `fetch_sub` and `fetch_add` of an `AtomicUsize` wrap.
abbrev pub fetch_sub : ℕ → ℕ
fetch_sub n = (n + 2 ^ 64 - 1) % 2 ^ 64

abbrev pub fetch_add : ℕ → ℕ
fetch_add n = (n + 1) % 2 ^ 64

-- The beginning of a round of `poll_loop`, up to the call of the scheduler.
unfoldable pub poll : ExecutorState → ExecutorState
unfolding sample_tasks_status
poll s = record s {
  channel = [];
  request =
      some (record {
        can_accept_task = ltb 0 s.slots;
        task_status = sample_tasks_status [] s.channel;
      });
}

-- `run_received_tasks`, up to the spawned task.
unfoldable pub run_received_task : Option PartitionId → ExecutorState → ExecutorState
run_received_task none s = s
run_received_task (some task_id) s = record s {
  slots = fetch_sub s.slots;
  running = task_id ∷ s.running;
}

-- The scheduler's answer, and the end of the round.
unfoldable pub answered : PollRequest → Option PartitionId → ExecutorState → ExecutorState
unfolding run_received_task
answered rq task s =
    run_received_task task (record s { request = none; delivered = s.delivered ++ rq.task_status })

-- The poll failed: its statuses went with the request.
unfoldable pub refused : PollRequest → ExecutorState → ExecutorState
refused rq s = record s { request = none; dropped = s.dropped ++ rq.task_status }

-- A spawned task is done: it gives its slot back before it sends its status.
unfoldable pub finish :
    Text → Execution → PartitionId → List PartitionId → ExecutorState → ExecutorState
unfolding as_task_status
finish executor_id result task_id others s = record s {
  slots = fetch_add s.slots;
  running = others;
  finished = as_task_status result executor_id task_id ∷ s.finished;
}

unfoldable pub send : TaskStatus → List TaskStatus → ExecutorState → ExecutorState
send status others s = record s { finished = others; channel = s.channel ++ status ∷ [] }

-- The loop and the spawned tasks, in any order that the executor's threads allow. The scheduler
-- gives a task only to an executor that can accept one.
pub data Step (executor_id : Text) (s : ExecutorState) : ExecutorState → Type 0 where
  polls : s.request ≡ none → Step executor_id s (poll s)
  answers_nothing :
      (rq : PollRequest) → s.request ≡ some rq → Step executor_id s (answered rq none s)
  answers_task :
      (rq : PollRequest) (task_id : PartitionId)
      → s.request ≡ some rq
      → rq.can_accept_task ≡ Bool.true
      → Step executor_id s (answered rq (some task_id) s)
  refuses : (rq : PollRequest) → s.request ≡ some rq → Step executor_id s (refused rq s)
  finishes :
      (result : Execution) (before after : List PartitionId) (task_id : PartitionId)
      → s.running ≡ before ++ task_id ∷ after
      → Step executor_id s (finish executor_id result task_id (before ++ after) s)
  sends :
      (before after : List TaskStatus) (status : TaskStatus)
      → s.finished ≡ before ++ status ∷ after
      → Step executor_id s (send status (before ++ after) s)

pub data Reach (executor_id : Text) (s : ExecutorState) : ExecutorState → Type 0 where
  here : Reach executor_id s s
  next :
      {t u : ExecutorState} → Reach executor_id s t → Step executor_id t u → Reach executor_id s u
