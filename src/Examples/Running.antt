-- ===== src/Examples/Running.antt =====
-- A task handed out, and runs of an executor.
use ballista.Prelude.{List, [], ◌∷◌, Option, none, some, true, ◌≡◌, refl, arith, length, ◌+◌}
use mathlib.Core.List.Permᴰ
use ballista.Text.{Text, codes, starts_with, text_eq}
use ballista.Text.Decimal.{decimal}
use ballista.Proto
use ballista.Proto.{TaskState, TaskStatus}
use ballista.Plan.{
  ExecutionPlan, operator, shuffle_reader, hash_aggregate, final, find_unresolved_shuffles,
}
use ballista.Plan
use ballista.Serde.{PartitionLocation, ExecutorMeta_into, ExecutorMeta_from}
use ballista.Planner.Chunks.{location}
use ballista.Backend.Entries.{Map, lookup, insert, with_prefix}
use ballista.Backend.Standalone.{standalone_client}
use ballista.Planner.Shuffles.{remove_unresolved_shuffles, locations_of}
use ballista.State.{get_executors_metadata}
use ballista.State.Keys.{get_executor_key, get_task_prefix, get_task_status_key, get_stage_plan_key}
use ballista.State.Assign.{Assignment, try_tasks, assign_next_schedulable_task}
use ballista.State.Assigned.{Assigns, assign_next_schedulable_task_lem}
use ballista.Executor.{
  executed, ExecutorState, PollRequest, start, polls, answers_task, finishes, Reach, here, next,
  poll, answered, finish, run_received_task, sample_tasks_status,
}
use ballista.Executor.Slots.{HasSlots, Reach-HasSlots, given, statuses, Reach-accounts}
use ballista.Examples.Engine.{Op, one, worker, shuffled_total}
use ballista.Examples.Storage.{Rep, state, state-IsBacked, holding, ns, task}

abbrev waiting_id : Proto.PartitionId
waiting_id = record { job_id = codes "j"; stage_id = 2; partition_id = 0 }

abbrev waiting : Option TaskState → TaskStatus
waiting status = record { partition_id = some waiting_id; status = status }

abbrev done : Option TaskState
done = some (TaskState.completed (codes "w"))

-- Stage 1 is completed, and the task of stage 2 waits.
abbrev store : Map
store =
    (get_executor_key ns (codes "w"), state.executor_codec.encode (ExecutorMeta_into worker))
    ∷ (get_stage_plan_key ns (codes "j") 2, state.plan_codec.encode shuffled_total)
    ∷ (get_task_status_key ns (codes "j") 1 0, state.task_codec.encode (task 0 done))
    ∷ (get_task_status_key ns (codes "j") 1 1, state.task_codec.encode (task 1 done))
    ∷ (get_task_status_key ns (codes "j") 2 0, state.task_codec.encode (waiting none))
    ∷ []

abbrev outputs : List PartitionLocation
outputs = location (codes "j") 1 worker 0 ∷ location (codes "j") 1 worker 1 ∷ []

abbrev running_task : TaskStatus
running_task = waiting (some (TaskState.running (codes "w")))

abbrev assigned : Assignment Op Text
assigned =
    some (
      running_task,
      operator (hash_aggregate final, 1) (one (shuffle_reader outputs (codes "rows"))),
    )

abbrev after : Map
after = insert (get_task_status_key ns (codes "j") 2 0) (state.task_codec.encode running_task) store

assign_next_schedulable_task_lem_example :
    let kvs = with_prefix (get_task_prefix ns) store in
    Assigns state Rep state-IsBacked ns
      (codes "w")
      kvs
      kvs
      (holding store)
      store
      assigned
      (holding after)
unfolding assign_next_schedulable_task standalone_client with_prefix starts_with get_task_prefix
    get_executor_key get_stage_plan_key get_task_status_key get_executors_metadata ExecutorMeta_into
    try_tasks lookup text_eq decimal ExecutorMeta_from remove_unresolved_shuffles locations_of
    insert Plan.with_new_children
assign_next_schedulable_task_lem_example =
    assign_next_schedulable_task_lem state Rep state-IsBacked ns (codes "w") (λ entries. entries)
      Permᴰ.refl (holding store) (holding after) store assigned refl refl

abbrev accepting : PollRequest
accepting = record { can_accept_task = true; task_status = [] }

abbrev asked : ExecutorState
asked = poll (start 4)

abbrev given_task : Proto.PartitionId
given_task = record { job_id = codes "j"; stage_id = 1; partition_id = 0 }

abbrev busy : ExecutorState
busy = answered accepting (some given_task) asked

abbrev freed : ExecutorState
freed = finish (codes "w") executed given_task [] busy

-- An executor of four slots asks for a task, is given one, and finishes it.
run : Reach (codes "w") (start 4) freed
unfolding poll start answered run_received_task sample_tasks_status
run =
    next (next (next here (polls refl)) (answers_task accepting given_task refl refl))
      (finishes executed [] [] given_task refl)

Reach-HasSlots_example : HasSlots 4 freed
Reach-HasSlots_example = Reach-HasSlots (codes "w") 4 (omega arith) run

Reach-accounts_example : given (codes "w") run ≡ length freed.running + statuses freed
Reach-accounts_example = Reach-accounts (codes "w") 4 run
