-- ===== src/State/Blocked.antt =====
-- What the search for completed tasks in `assign_next_schedulable_task` of
-- rust/scheduler/src/state/mod.rs has seen when it ends with `continue`, and tasks passed over.
use ballista.Prelude.{
  ℕ, List, [], ◌∷◌, Option, none, some, ◌≡◌, refl, ◌⊎◌, inl, inr, arith, All, range_from,
}
use ballista.Text.{Text, Bytes}
use ballista.Error.{Result, ok, err, panicked, bind, bind-eq-ok}
use ballista.Proto
use ballista.Proto.{TaskState, TaskStatus}
use ballista.Serde.{PartitionLocation, ExecutorMeta}
use ballista.Plan.{ExecutionPlan, UnresolvedShuffle, find_unresolved_shuffles}
use ballista.Planner.Shuffles.{Locations}
use ballista.Backend.Entries.{Map}
use ballista.State.Codec.{Prost, decode_protobuf}
use ballista.State.{SchedulerState, unwrap, get_stage_plan}
use ballista.State.Assign.{
  find_executor, and_go_on, locate_completed, locate, push_some, locate_partitions, locate_stages,
  locate_shuffles,
}
use ballista.State.Located.{IsCompleted, AllCompleted}

and_go_on-eq-none :
    (r : Result (Option Locations)) (f : Locations → Result (Option Locations))
    → and_go_on r f ≡ ok none
    → (r ≡ ok none) ⊎ ((acc : Locations) × (f acc ≡ ok none))
and_go_on-eq-none (ok none) f h = inl refl
and_go_on-eq-none (ok (some acc)) f h = inr (acc, h)
and_go_on-eq-none (err e) f h = absurd (ground arith)
and_go_on-eq-none panicked f h = absurd (ground arith)

module _ (codec : Prost TaskStatus) (ns job_id : Text) (kvs : Map)
    (executors : List ExecutorMeta) where
  completed-found :
      (stage_id p : ℕ) (executor_id : Text)
      → locate_completed codec ns job_id kvs executors (some executor_id) stage_id p ≡ ok none
      → ⊥
  unfolding locate_completed
  completed-found stage_id p executor_id h =
      let (meta, found, made) = bind-eq-ok (unwrap (find_executor executor_id executors)) _ h in
      ground (arith, made)

  not_completed :
      (stage_id p : ℕ)
      → locate codec ns job_id kvs executors stage_id p ≡ ok none
      → IsCompleted codec ns job_id kvs stage_id p
      → ⊥
  unfolding locate
  not_completed stage_id p h c =
      completed-found stage_id p c.executor_id (rw (c.present, c.decodes, c.completed) at h)

  partitions_stuck :
      (stage_id : ℕ) (ps : List ℕ) (acc : Locations)
      → locate_partitions codec ns job_id kvs executors stage_id ps acc ≡ ok none
      → All (IsCompleted codec ns job_id kvs stage_id) ps
      → ⊥
  unfolding locate_partitions
  partitions_stuck stage_id [] acc h c = ground (arith, h)
  partitions_stuck stage_id (p ∷ ps) acc h c =
      elim (and_go_on-eq-none (bind (locate codec ns job_id kvs executors stage_id p) _) _ h) [
        | inl here ↦
            let (o, located, pushed) =
              bind-eq-ok (locate codec ns job_id kvs executors stage_id p) _ here in
            stuck o located pushed
        | inr (acc', later) ↦ partitions_stuck stage_id ps acc' later c.1
      ]
    where
      stuck :
          (o : Option PartitionLocation)
          → locate codec ns job_id kvs executors stage_id p ≡ ok o
          → push_some stage_id o acc ≡ ok none
          → ⊥
      stuck none located pushed = not_completed stage_id p located c.0
      stuck (some location) located pushed = ground (arith, pushed)

  stages_stuck :
      (ids : List ℕ) (count : ℕ) (acc : Locations)
      → locate_stages codec ns job_id kvs executors ids count acc ≡ ok none
      → All (λ id. All (IsCompleted codec ns job_id kvs id) (range_from 0 count)) ids
      → ⊥
  unfolding locate_stages
  stages_stuck [] count acc h c = ground (arith, h)
  stages_stuck (id ∷ ids) count acc h c =
      elim (and_go_on-eq-none
        (locate_partitions codec ns job_id kvs executors id (range_from 0 count) acc) _ h) [
          | inl here ↦ partitions_stuck id (range_from 0 count) acc here c.0
          | inr (acc', later) ↦ stages_stuck ids count acc' later c.1
        ]

  pub not_AllCompleted :
      {Schema : Type 0} (us : List (UnresolvedShuffle Schema)) (acc : Locations)
      → locate_shuffles codec ns job_id kvs executors us acc ≡ ok none
      → ¬ AllCompleted codec ns job_id kvs us
  unfolding locate_shuffles
  not_AllCompleted [] acc h c = ground (arith, h)
  not_AllCompleted (u ∷ us) acc h c =
      elim (and_go_on-eq-none
        (locate_stages codec ns job_id kvs executors u.query_stage_ids u.partition_count acc) _ h) [
          | inl here ↦ stages_stuck u.query_stage_ids u.partition_count acc here c.0
          | inr (acc', later) ↦ not_AllCompleted us acc' later c.1
        ]

module _ {S Op Schema PlanNode : Type 0} (state : SchedulerState S Op Schema PlanNode) (ns : Text)
    (kvs : Map) (s : S) where
  -- The stored plan of the task's stage needs the output of a task that is not completed.
  pub record IsBlocked (task : TaskStatus) : Type 0 where
    pub id : Proto.PartitionId
    pub stored : ExecutionPlan Op Schema
    pub has_id : task.partition_id ≡ some id
    pub stage_plan : (get_stage_plan state ns id.job_id id.stage_id s).0 ≡ ok stored
    pub not_ready :
        ¬ AllCompleted state.task_codec ns id.job_id kvs (find_unresolved_shuffles stored)

  -- An entry is passed over: its task does not wait, or is blocked.
  pub record IsPassed (entry : Text × Bytes) : Type 0 where
    pub task : TaskStatus
    pub decodes : decode_protobuf state.task_codec entry.1 ≡ ok task
    pub reason : ((x : TaskState) × (task.status ≡ some x)) ⊎ IsBlocked task
