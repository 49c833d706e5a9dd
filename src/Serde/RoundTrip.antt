-- ===== src/Serde/RoundTrip.antt =====
-- What survives the conversions of rust/core/src/serde/scheduler.
use ballista.Prelude.{ℕ, ◌^◌, ◌<◌, List, [], ◌∷◌, map, ◌≡◌, refl, arith, All}
use ballista.Error.{ok, bind, bind-eq-ok}
use ballista.Serde.{
  PartitionId, PartitionLocation, ExecutorMeta_into, PartitionId_into, PartitionId_try_from,
  PartitionLocation_try_into, PartitionLocation_try_from, u32,
}
use ballista.Serde.Actions.{
  PlanSerde, Action, execute_partition, fetch_partition, Action_try_into, Action_try_from,
}

-- Both ids fit the `uint32` fields of the message.
abbrev pub FitsProto : PartitionId → Type 0
FitsProto p = (p.stage_id < 2 ^ 32) × (p.partition_id < 2 ^ 32)

-- A partition location, through its message, is the same location when its ids and its port fit,
-- and never an error.
pub PartitionLocation_round_trip :
    (l : PartitionLocation)
    → FitsProto l.partition_id
    → l.executor_meta.port < 2 ^ 16
    → bind (PartitionLocation_try_into l) PartitionLocation_try_from ≡ ok l
unfolding PartitionLocation_try_into PartitionLocation_try_from PartitionId_into ExecutorMeta_into
PartitionLocation_round_trip l f p = ground arith

map-u32 : (xs : List ℕ) → All (λ n. n < 2 ^ 32) xs → map u32 xs ≡ xs
map-u32 [] h = refl
map-u32 (x ∷ xs) h = ground (arith, map-u32 xs h.1)

module _ {Plan : Type 0} where
  abbrev pub without_locations : Action Plan → Action Plan
  without_locations (execute_partition p) = execute_partition (record p { shuffle_locations = [] })
  without_locations (fetch_partition id) = fetch_partition id

  abbrev pub ActionFits : Action Plan → Type 0
  ActionFits (execute_partition p) = (p.stage_id < 2 ^ 32) × All (λ n. n < 2 ^ 32) p.partition_id
  ActionFits (fetch_partition id) = FitsProto id

  abbrev pub PlanSurvives : {PlanNode : Type 0} → PlanSerde Plan PlanNode → Action Plan → Type 0
  PlanSurvives serde (execute_partition p) =
      bind (serde.to_proto p.plan) serde.from_proto ≡ ok p.plan
  PlanSurvives serde (fetch_partition id) = Unit

-- An action comes back with an empty table of shuffle locations, and otherwise unchanged, when its
-- numbers fit and its plan survives the plan conversions.
pub Action_round_trip :
    {Plan PlanNode : Type 0} (serde : PlanSerde Plan PlanNode) (a : Action Plan)
    → ActionFits a
    → PlanSurvives serde a
    → bind (Action_try_into serde a) (Action_try_from serde) ≡ ok (without_locations a)
unfolding Action_try_into Action_try_from PartitionId_into PartitionId_try_from
Action_round_trip serde (execute_partition p) f h =
    let (node, made, read) = bind-eq-ok (serde.to_proto p.plan) serde.from_proto h in
    ground (arith, made, read, map-u32 p.partition_id f.1)
Action_round_trip serde (fetch_partition id) f h = ground arith
