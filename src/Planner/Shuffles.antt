-- ===== src/Planner/Shuffles.antt =====
-- `remove_unresolved_shuffles` of rust/scheduler/src/planner.rs: the shuffles of a stage become
-- readers of the partitions that earlier stages left.
use ballista.Prelude.{ℕ, List, [], ◌∷◌, ◌++◌, map, Option, none, some, ◌==◌, if◌then◌else◌, ◌≡◌}
use ballista.Text.{codes}
use ballista.Error.{general, Result, ok, err, bind}
use ballista.Serde.{PartitionLocation}
use ballista.Plan.{
  ExecutionPlan, query_stage, shuffle_reader, unresolved_shuffle, operator, Plans, nil, cons,
  DataFusion, with_new_children, UnresolvedShuffle,
}

-- A `HashMap` from stage ids to the locations of their partitions: its entries.
abbrev pub Locations : Type 0
Locations = List (ℕ × List PartitionLocation)

unfoldable pub locations_of : ℕ → Locations → Option (List PartitionLocation)
locations_of id [] = none
locations_of id ((j, ls) ∷ rest) = if j == id then some ls else locations_of id rest

abbrev pub missing : Option (List PartitionLocation) → Result (List PartitionLocation)
missing none =
    err (general (codes "Missing partition location. Could not remove unresolved shuffles"))
missing (some ls) = ok ls

-- `relevant_locations`, over the stage ids of one shuffle.
unfoldable pub relevant_locations : List ℕ → Locations → Result (List PartitionLocation)
relevant_locations [] m = ok []
relevant_locations (id ∷ ids) m =
    bind (missing (locations_of id m)) λ ls. bind (relevant_locations ids m) λ rest. ok (ls ++ rest)

module _ {Op Schema : Type 0} where
  -- The location lists of a plan's shuffle readers, from left to right.
  unfoldable mutual
    pub reader_locations : ExecutionPlan Op Schema → List (List PartitionLocation)
    reader_locations (query_stage job_id stage_id child) = reader_locations child
    reader_locations (shuffle_reader locations s) = locations ∷ []
    reader_locations (unresolved_shuffle ids s count) = []
    reader_locations (operator op inputs) = reader_locations_in inputs

    pub reader_locations_in : Plans Op Schema → List (List PartitionLocation)
    reader_locations_in nil = []
    reader_locations_in (cons p ps) = reader_locations p ++ reader_locations_in ps

-- Every shuffle of the plan has become a reader of the locations of its stages, in order.
pub record IsResolved {Schema : Type 0} (m : Locations)
    (found left : List (UnresolvedShuffle Schema)) (readers : List (List PartitionLocation))
    : Type 0 where
  pub none_left : left ≡ []
  pub all_read : map (λ u. relevant_locations u.query_stage_ids m) found ≡ map ok readers

module _ {Op Schema : Type 0} (df : DataFusion Op Schema) where
  -- The body of the loop over `stage.children()`, at one child, and the loop.
  unfoldable mutual
    unfolding relevant_locations

    pub resolve_child : ExecutionPlan Op Schema → Locations → Result (ExecutionPlan Op Schema)
    resolve_child (query_stage job_id stage_id child) m =
        bind (resolve_child child m)
          λ c. with_new_children df (query_stage job_id stage_id child) (cons c nil)
    resolve_child (shuffle_reader locations s) m =
        with_new_children df (shuffle_reader locations s) nil
    resolve_child (unresolved_shuffle ids s count) m =
        bind (relevant_locations ids m) λ ls. ok (shuffle_reader ls s)
    resolve_child (operator op inputs) m =
        bind (resolve_children inputs m) λ cs. with_new_children df (operator op inputs) cs

    pub resolve_children : Plans Op Schema → Locations → Result (Plans Op Schema)
    resolve_children nil m = ok nil
    resolve_children (cons child rest) m =
        bind (resolve_child child m) λ c. bind (resolve_children rest m) λ cs. ok (cons c cs)

  -- A stage that is itself an unresolved shuffle is no child, and has no children to replace.
  unfoldable pub remove_unresolved_shuffles :
      ExecutionPlan Op Schema → Locations → Result (ExecutionPlan Op Schema)
  unfolding resolve_child
  remove_unresolved_shuffles (unresolved_shuffle ids s count) m =
      with_new_children df (unresolved_shuffle ids s count) nil
  remove_unresolved_shuffles stage m = resolve_child stage m
