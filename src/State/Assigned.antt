-- ===== src/State/Assigned.antt =====
-- What `assign_next_schedulable_task` of rust/scheduler/src/state/mod.rs hands out.
use ballista.Prelude.{
  ℕ, List, [], ◌∷◌, map, Option, none, some, ◌≡◌, refl, sym, ap, ◌∙◌, inl, inr, All,
}
use ballista.Text.{Text, Bytes}
use ballista.Error.{Result, ok}
use ballista.Error.Actions.{Exec, continue_keeps}
use ballista.Error.Ensures.{
  Ensures, Ensures-ok, Ensures-bind, Ensures-lift, Ensures-outcome, Ensures-use,
}
use ballista.Proto
use ballista.Proto.{TaskState, TaskStatus}
use ballista.Serde.{PartitionLocation, ExecutorMeta}
use ballista.Plan.{ExecutionPlan, find_unresolved_shuffles}
use ballista.Planner.Shuffles.{Locations, reader_locations, remove_unresolved_shuffles}
use ballista.Planner.Resolved.{remove_unresolved_shuffles_lem}
use ballista.Backend.Entries.{Map, lookup, insert, with_prefix, value_or_empty}
use ballista.State.Keys.{
  get_task_status_key, get_task_prefix, get_executors_prefix, get_stage_plan_key,
}
use ballista.State.Codec.{decode_protobuf, decode_all}
use ballista.State.{
  SchedulerState, non_empty, unwrap, get_executors_metadata, get_stage_plan, save_task_status,
}
use ballista.State.Assign.{
  Assignment, locate_shuffles, run_task, try_task, try_tasks, assign_next_schedulable_task,
}
use mathlib.Core.List.{Permᴰ}
use ballista.State.Listed.{IsListed, perm-IsListed, perm-All}
use ballista.State.Blocked.{IsPassed, not_AllCompleted}
use ballista.State.Located.{AllCompleted, locate_shuffles-AllCompleted, unwrap-eq-ok}
use ballista.State.Pushes.{needed, of_stages}
use ballista.State.Readers.{AreLocations, locate_shuffles-readers}
use ballista.State.Backed.{IsBacked}
use ballista.State.Records.{save_task_status_lem}

-- A task that waited in the entries is now running on the executor, its stage's plan is the stored
-- one with its shuffles resolved: all tasks that these need were completed in the entries, `found`
-- has the location of each of those partitions on the executor that completed it, and the plan's
-- readers have, shuffle by shuffle, those of the shuffle's stages. The task's record is the only
-- thing written.
pub record IsAssigned {S Op Schema PlanNode : Type 0} (state : SchedulerState S Op Schema PlanNode)
    (Rep : S → Map → Type 0) (ns executor_id : Text) (entries : List (Text × Bytes)) (kvs : Map)
    (s : S) (m : Map) (status : TaskStatus) (plan : ExecutionPlan Op Schema) (t : S) : Type 0 where
  pub task : TaskStatus
  pub id : Proto.PartitionId
  pub stored : ExecutionPlan Op Schema
  pub listed : IsListed state.task_codec task entries
  pub pending : task.status ≡ none
  pub has_id : task.partition_id ≡ some id
  pub runs : status ≡ record task { status = some (TaskState.running executor_id) }
  pub stage_plan : (get_stage_plan state ns id.job_id id.stage_id s).0 ≡ ok stored
  pub ready : AllCompleted state.task_codec ns id.job_id kvs (find_unresolved_shuffles stored)
  pub executors : List ExecutorMeta
  pub registered : (get_executors_metadata state ns s).0 ≡ ok executors
  pub locations : Locations
  pub resolved : remove_unresolved_shuffles state.data_fusion stored locations ≡ ok plan
  pub none_left : find_unresolved_shuffles plan ≡ []
  pub found : List PartitionLocation
  pub are_locations :
      AreLocations state.task_codec ns id.job_id kvs executors
        (needed (find_unresolved_shuffles stored))
        found
  pub readers :
      reader_locations plan
      ≡ map (λ u. of_stages u.query_stage_ids found) (find_unresolved_shuffles stored)
  pub written : Rep t (
      insert
        (get_task_status_key ns id.job_id id.stage_id id.partition_id)
        (state.task_codec.encode status)
        m)

module _ {S Op Schema PlanNode : Type 0} (state : SchedulerState S Op Schema PlanNode)
    (Rep : S → Map → Type 0) (backed : IsBacked state Rep) (ns executor_id : Text) where
  pub get_stage_plan_keeps :
      (job : Text) (stage : ℕ) (s : S) (m : Map)
      → Rep s m
      → (get_stage_plan state ns job stage s).1 ≡ s
  unfolding get_stage_plan
  get_stage_plan_keeps job stage s m r =
      rw (backed.map_client.get_reads (get_stage_plan_key ns job stage) s m r) (
        continue_keeps (non_empty (value_or_empty (lookup (get_stage_plan_key ns job stage) m)) _) _
          s λ bytes. continue_keeps (decode_protobuf state.plan_codec bytes) _ s λ proto. refl)

  -- What the loop ensures over the entries `rest`, which are among `entries`.
  abbrev pub Assigns : List (Text × Bytes) → Map → S → Map → Assignment Op Schema → S → Type 0
  Assigns entries kvs s m none t = Rep t m × All (IsPassed state ns kvs s) entries
  Assigns entries kvs s m (some (status, plan)) t =
      IsAssigned state Rep ns executor_id entries kvs s m status plan t

  module _ (entries : List (Text × Bytes)) (kvs : Map) (executors : List ExecutorMeta) (s : S)
      (m : Map) (r : Rep s m)
      (registered : (get_executors_metadata state ns s).0 ≡ ok executors) where
    run_task-Assigns :
        (task : TaskStatus) (id : Proto.PartitionId) (plan : ExecutionPlan Op Schema)
        (locations : Option Locations) (next : Exec S (Assignment Op Schema))
        → IsListed state.task_codec task entries
        → task.status ≡ none
        → task.partition_id ≡ some id
        → (get_stage_plan state ns id.job_id id.stage_id s).0 ≡ ok plan
        → locate_shuffles state.task_codec ns id.job_id kvs executors
            (find_unresolved_shuffles plan)
            []
          ≡ ok locations
        → (¬ AllCompleted state.task_codec ns id.job_id kvs (find_unresolved_shuffles plan)
            → Ensures (Assigns entries kvs s m) (next s))
        → Ensures
            (Assigns entries kvs s m)
            (run_task state ns executor_id task plan locations next s)
    unfolding run_task
    run_task-Assigns task id plan none next listed pending has stored found h = h (
        not_AllCompleted state.task_codec ns id.job_id kvs executors (find_unresolved_shuffles plan)
          [] found)
    run_task-Assigns task id plan (some locations) next listed pending has stored found h =
        let running : TaskStatus = record task { status = some (TaskState.running executor_id) } in
        Ensures-lift (remove_unresolved_shuffles state.data_fusion plan locations) _ s λ p resolved.
          Ensures-bind (save_task_status state ns running) _ s
            (Ensures-outcome
              {P = λ _ t. Rep t (
                insert (get_task_status_key ns id.job_id id.stage_id id.partition_id)
                  (state.task_codec.encode running) m)}
              (save_task_status state ns running s)
              λ a t e.
                rw (ap (λ (x : Result (Unit {0}) × S). x.1) e) at
                  (save_task_status_lem state Rep backed ns id running s m r has).1)
            λ a t written.
              let (none_left, all_read) =
                remove_unresolved_shuffles_lem state.data_fusion plan locations p resolved in
              let (ls, are, readers) =
                locate_shuffles-readers state.task_codec ns id.job_id kvs executors
                  (find_unresolved_shuffles plan) locations (reader_locations p) found all_read in
              Ensures-ok _ _ (record {
                task = task;
                id = id;
                stored = plan;
                listed = listed;
                pending = pending;
                has_id = has;
                runs = refl;
                stage_plan = stored;
                ready =
                    locate_shuffles-AllCompleted state.task_codec ns id.job_id kvs executors
                      (find_unresolved_shuffles plan) [] locations found;
                executors = executors;
                registered = registered;
                locations = locations;
                resolved = resolved;
                none_left = none_left;
                found = ls;
                are_locations = are;
                readers = readers;
                written = written;
              })

    try_task-Assigns :
        (entry : Text × Bytes) (task : TaskStatus) (task_state : Option TaskState)
        (next : Exec S (Assignment Op Schema))
        → decode_protobuf state.task_codec entry.1 ≡ ok task
        → IsListed state.task_codec task entries
        → task.status ≡ task_state
        → (IsPassed state ns kvs s entry → Ensures (Assigns entries kvs s m) (next s))
        → Ensures
            (Assigns entries kvs s m)
            (try_task state ns executor_id kvs executors task task_state next s)
    unfolding try_task
    try_task-Assigns entry task (some task_state) next decodes listed e h =
        h (record { task = task; decodes = decodes; reason = inl (task_state, e) })
    try_task-Assigns entry task none next decodes listed e h =
        Ensures-lift (unwrap task.partition_id) _ s λ id has.
          Ensures-bind
            {Q = λ plan t. get_stage_plan state ns id.job_id id.stage_id s ≡ (ok plan, t)}
            (get_stage_plan state ns id.job_id id.stage_id) _ s
            (Ensures-outcome _ λ plan t read. read)
            λ plan t read.
              let same : t ≡ s =
                sym (ap (λ (x : Result (ExecutionPlan Op Schema) × S). x.1) read)
                ∙ get_stage_plan_keeps id.job_id id.stage_id s m r in
              rw same (
                Ensures-lift
                  (locate_shuffles state.task_codec ns id.job_id kvs executors
                    (find_unresolved_shuffles plan) [])
                  _ s
                  λ locations found.
                    let stored = ap (λ (x : Result (ExecutionPlan Op Schema) × S). x.0) read in
                    run_task-Assigns task id plan locations next listed e (unwrap-eq-ok _ has)
                      stored found
                      λ not_ready. h (record {
                        task = task;
                        decodes = decodes;
                        reason = inr (record {
                          id = id;
                          stored = plan;
                          has_id = unwrap-eq-ok _ has;
                          stage_plan = stored;
                          not_ready = not_ready;
                        });
                      }))

    try_tasks-Assigns :
        (rest : List (Text × Bytes))
        → ((task : TaskStatus)
            → IsListed state.task_codec task rest
            → IsListed state.task_codec task entries)
        → (All (IsPassed state ns kvs s) rest → All (IsPassed state ns kvs s) entries)
        → Ensures (Assigns entries kvs s m) (try_tasks state ns executor_id kvs executors rest s)
    unfolding try_tasks
    try_tasks-Assigns [] within passed = Ensures-ok _ _ (r, passed tt)
    try_tasks-Assigns ((key, value) ∷ rest) within passed =
        Ensures-lift (decode_protobuf state.task_codec value) _ s λ task decodes.
          try_task-Assigns (key, value) task task.status _ decodes (within task (inl decodes)) refl
            λ first.
              try_tasks-Assigns rest (λ t listed. within t (inr listed))
                (λ others. passed (first, others))

  get_executors_metadata_keeps :
      (s : S) (m : Map) → Rep s m → (get_executors_metadata state ns s).1 ≡ s
  unfolding get_executors_metadata
  get_executors_metadata_keeps s m r =
      rw (backed.map_client.scan_reads (get_executors_prefix ns) s m r) (
        continue_keeps (decode_all state.executor_codec (with_prefix (get_executors_prefix ns) m)) _
          s λ metas. refl)

  module _ (order : List (Text × Bytes) → List (Text × Bytes))
      (order_permutes : (entries : List (Text × Bytes)) → Permᴰ (order entries) entries) where
    assign-Ensures :
        (s : S) (m : Map)
        → Rep s m
        → let kvs = with_prefix (get_task_prefix ns) m in
          Ensures (Assigns kvs kvs s m) (assign_next_schedulable_task state ns order executor_id s)
    unfolding assign_next_schedulable_task
    assign-Ensures s m r =
        let kvs = with_prefix (get_task_prefix ns) m in
        rw (backed.map_client.scan_reads (get_task_prefix ns) s m r) (
          Ensures-bind
            {Q = λ executors t. (t ≡ s) × ((get_executors_metadata state ns s).0 ≡ ok executors)}
            (get_executors_metadata state ns) _ s
            (Ensures-outcome _ λ executors t read. (
              sym (ap (λ (x : Result (List ExecutorMeta) × S). x.1) read)
                  ∙ get_executors_metadata_keeps s m r,
              ap (λ (x : Result (List ExecutorMeta) × S). x.0) read,
            ))
            λ executors t (same, registered). rw same (
              try_tasks-Assigns kvs kvs executors s m r registered (order kvs)
                (λ task. perm-IsListed state.task_codec task (order_permutes kvs))
                (perm-All (IsPassed state ns kvs s) (order_permutes kvs))))

    -- On a backend that serves a map, in whatever order the tasks are tried: when a task is handed
    -- out, it waited among the scanned tasks and now runs on the asking executor, and the task's
    -- record is all that was written. Its plan is the stored plan of its stage with the shuffles
    -- resolved and none left: every partition that a shuffle needs was completed, its location
    -- names it and a registered executor of the id that completed it, and the plan's readers have,
    -- shuffle by shuffle, the locations of the shuffle's stages in the order of the partitions,
    -- those of a stage that several shuffles name once for each. When none is handed out, nothing
    -- is written, and each scanned task has a state already or needs the output of a task that is
    -- not completed.
    pub assign_next_schedulable_task_lem :
        (s t : S) (m : Map) (assignment : Assignment Op Schema)
        → Rep s m
        → assign_next_schedulable_task state ns order executor_id s ≡ (ok assignment, t)
        → let kvs = with_prefix (get_task_prefix ns) m in Assigns kvs kvs s m assignment t
    assign_next_schedulable_task_lem s t m assignment r e =
        Ensures-use _ assignment t (assign-Ensures s m r) e
