-- ===== src/Planner/Executed.antt =====
-- What `execute` of rust/scheduler/src/planner.rs returns.
use ballista.Prelude.{ℕ, List, [], map, ◌≡◌, All, length, range_from}
use ballista.Text.{Text}
use ballista.Error.{ok}
use ballista.Error.Returns.{Returns}
use ballista.Serde.{ExecutorMeta, PartitionLocation}
use ballista.Plan.{ExecutionPlan, shuffle_reader, DataFusion, schema}
use ballista.Format.{PlanTexts}
use ballista.Format.Prints.{Prints}
use ballista.Planner.{QueryStage}
use ballista.Planner.Order.{Produces}
use ballista.Planner.Total.{TakesNewChildren}
use ballista.Planner.Shuffles.{Locations, reader_locations}
use ballista.Planner.Resolves.{IsKnown}
use ballista.Planner.Chunks.{partition_of}
use ballista.Planner.Execute.{Call, finished, JoinAll, last_stage}

-- Waiting for calls comes to an end, and every call finishes.
abbrev pub Finishes : {S Op Schema : Type 0} → JoinAll S Op Schema → Type 0
Finishes {S} {Op} {Schema} join_all =
    (calls : List (Call Op Schema)) (s : S)
    → Returns (λ results t. All (λ r. r ≡ finished) results) (join_all calls s)

-- The partitions of the locations are numbered from 0 on.
abbrev pub AllPartitions : List PartitionLocation → Type 0
AllPartitions ls = map partition_of ls ≡ range_from 0 (length ls)

module _ {Op Schema : Type 0} (df : DataFusion Op Schema) where
  -- A stage that can be executed once its shuffles are located: its operators take new children,
  -- and it reads no shuffle yet.
  pub record IsExecutable (stage : QueryStage Op Schema) : Type 0 where
    pub takes : TakesNewChildren df stage.child
    pub unread : reader_locations stage.child ≡ []

  -- What comes of executing stages: a reader of all partitions of a result, with the schema of the
  -- last stage.
  pub record IsExecuted (stages : List (QueryStage Op Schema)) (plan : ExecutionPlan Op Schema)
      : Type 0 where
    pub last : QueryStage Op Schema
    pub is_last : last_stage stages ≡ ok last
    pub locations : List PartitionLocation
    pub reads : plan ≡ shuffle_reader locations (schema df last.child)
    pub partitions : AllPartitions locations

module _ {S Op Schema : Type 0} (df : DataFusion Op Schema) (texts : PlanTexts Op Schema)
    (prints : Prints df texts) (join_all : JoinAll S Op Schema) (finishes : Finishes join_all)
    (e : ExecutorMeta) (es : List ExecutorMeta) where
  -- What the stages produced is known.
  abbrev Covers : List (QueryStage Op Schema) → Locations → Type 0
  Covers before m = (id count : ℕ) → Produces df before id count → IsKnown m id
