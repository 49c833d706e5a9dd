-- ===== src/Serde/Actions.antt =====
-- `Action` and `ExecutePartition` of rust/core/src/serde/scheduler. The conversions of a physical
-- plan are an interface, since the plans are another component.
use ballista.Prelude.{ℕ, List, [], map, Option, none, some}
use ballista.Text.{Text, codes}
use ballista.Error.{general, Result, ok, err, required, ◌>>=◌}
use ballista.Proto
use ballista.Serde.{PartitionId, ExecutorMeta, PartitionId_into, PartitionId_try_from, u32}

-- `TryInto` in both directions between a plan and its message.
pub record PlanSerde (Plan PlanNode : Type 0) : Type 0 where
  pub to_proto : Plan → Result PlanNode
  pub from_proto : PlanNode → Result Plan

-- `shuffle_locations` is a `HashMap`, here the list of its entries.
pub record ExecutePartition (Plan : Type 0) : Type 0 where
  pub job_id : Text
  pub stage_id : ℕ
  pub partition_id : List ℕ
  pub plan : Plan
  pub shuffle_locations : List (PartitionId × ExecutorMeta)

pub data Action (Plan : Type 0) : Type 0 where
  execute_partition : ExecutePartition Plan → Action Plan
  fetch_partition : PartitionId → Action Plan

pub record ExecutePartitionMessage (PlanNode : Type 0) : Type 0 where
  pub job_id : Text
  pub stage_id : ℕ
  pub partition_id : List ℕ
  pub plan : Option PlanNode
  pub partition_location : List Proto.PartitionLocation

pub data ActionType (PlanNode : Type 0) : Type 0 where
  execute_partition : ExecutePartitionMessage PlanNode → ActionType PlanNode
  fetch_partition : Proto.PartitionId → ActionType PlanNode

pub record ActionMessage (PlanNode : Type 0) : Type 0 where
  pub action_type : Option (ActionType PlanNode)
  pub settings : List (Text × Text)

module _ {Plan PlanNode : Type 0} (serde : PlanSerde Plan PlanNode) where
  unfoldable pub ExecutePartition_try_into :
      ExecutePartition Plan → Result (ExecutePartitionMessage PlanNode)
  ExecutePartition_try_into p = do
    plan ← serde.to_proto p.plan
    ok (record {
      job_id = p.job_id;
      stage_id = u32 p.stage_id;
      partition_id = map u32 p.partition_id;
      plan = some plan;
      partition_location = [];
    })

  unfoldable pub Action_try_into : Action Plan → Result (ActionMessage PlanNode)
  unfolding ExecutePartition_try_into
  Action_try_into (Action.execute_partition p) = do
    message ← ExecutePartition_try_into p
    ok (record { action_type = some (ActionType.execute_partition message); settings = [] })
  Action_try_into (Action.fetch_partition id) = ok (record {
    action_type = some (ActionType.fetch_partition (PartitionId_into id));
    settings = [];
  })

  unfoldable pub action_of : Option (ActionType PlanNode) → Result (Action Plan)
  action_of (some (ActionType.execute_partition p)) = do
    node ← required p.plan (codes "PhysicalPlanNode in ExecutePartition is missing")
    plan ← serde.from_proto node
    ok (
        Action.execute_partition (record {
          job_id = p.job_id;
          stage_id = p.stage_id;
          partition_id = p.partition_id;
          plan = plan;
          shuffle_locations = [];
        }))
  action_of (some (ActionType.fetch_partition id)) = do
    partition ← PartitionId_try_from id
    ok (Action.fetch_partition partition)
  action_of none = err (general (codes "scheduler::from_proto(Action) invalid or missing action"))

  unfoldable pub Action_try_from : ActionMessage PlanNode → Result (Action Plan)
  unfolding action_of
  Action_try_from m = action_of m.action_type
