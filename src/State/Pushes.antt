-- ===== src/State/Pushes.antt =====
-- Locations that are pushed into a map from stages to locations, in
-- `assign_next_schedulable_task` of rust/scheduler/src/state/mod.rs.
use ballista.Prelude.{
  ℕ, List, [], ◌∷◌, ◌++◌, map, append-nil, true, false, Option, none, some, ◌==◌, if◌then◌else◌,
  range_from, ◌≡◌, refl, sym, arith, ◌⊎◌, inl, inr, Bool-cases,
}
use ballista.Text.{Text, text_eq, text_eq_sound}
use ballista.Serde.{PartitionLocation, ExecutorMeta}
use ballista.Plan.{UnresolvedShuffle}
use ballista.Planner.Shuffles.{Locations, locations_of}
use ballista.State.Assign.{find_executor, push_location}

-- The partitions that shuffles need, as stages and numbers, in the order of the loops.
abbrev pub stage_partitions : ℕ → ℕ → List (ℕ × ℕ)
stage_partitions stage_id count = map (λ p. (stage_id, p)) (range_from 0 count)

abbrev pub stages_partitions : List ℕ → ℕ → List (ℕ × ℕ)
stages_partitions [] count = []
stages_partitions (id ∷ ids) count = stage_partitions id count ++ stages_partitions ids count

abbrev pub needed : {Schema : Type 0} → List (UnresolvedShuffle Schema) → List (ℕ × ℕ)
needed [] = []
needed (u ∷ us) = stages_partitions u.query_stage_ids u.partition_count ++ needed us

-- An executor of this id is known.
abbrev pub IsKnownAs : Text → ExecutorMeta → List ExecutorMeta → Type 0
IsKnownAs id e [] = ⊥
IsKnownAs id e (x ∷ xs) = ((x ≡ e) × (x.id ≡ id)) ⊎ IsKnownAs id e xs

-- The locations of one stage among locations, in order.
abbrev pub of_stage : ℕ → List PartitionLocation → List PartitionLocation
of_stage id [] = []
of_stage id (l ∷ ls) =
    let rest = of_stage id ls in if l.partition_id.stage_id == id then l ∷ rest else rest

abbrev pub of_stages : List ℕ → List PartitionLocation → List PartitionLocation
of_stages [] ls = []
of_stages (id ∷ ids) ls = of_stage id ls ++ of_stages ids ls

abbrev pub or_empty : Option (List PartitionLocation) → List PartitionLocation
or_empty none = []
or_empty (some ls) = ls

abbrev pub listed : ℕ → Locations → List PartitionLocation
listed id m = or_empty (locations_of id m)

pub find_executor_known :
    (id : Text) (executors : List ExecutorMeta) (e : ExecutorMeta)
    → find_executor id executors ≡ some e
    → IsKnownAs id e executors
unfolding find_executor
find_executor_known id [] e h = absurd (ground arith)
find_executor_known id (x ∷ xs) e h = elim (Bool-cases (text_eq x.id id)) [
  | inl same ↦ inl (ground (arith, h, same), text_eq_sound x.id id same)
  | inr differs ↦ inr (find_executor_known id xs e (rw differs at h))
]

pub some-injective : {A : Type 0} {a b : A} → some a ≡ some b → a ≡ b
some-injective h = cc

pub of_stage-append :
    (id : ℕ) (xs ys : List PartitionLocation)
    → of_stage id (xs ++ ys) ≡ of_stage id xs ++ of_stage id ys
of_stage-append id [] ys = refl
of_stage-append id (l ∷ xs) ys = elim (Bool-cases (l.partition_id.stage_id == id)) [
  | inl same ↦ rw (same, of_stage-append id xs ys)
  | inr differs ↦ rw (differs, of_stage-append id xs ys)
]

-- Pushing a location of a stage adds it to that stage's, at the end.
pub listed-push_location :
    (id : ℕ) (l : PartitionLocation) (m : Locations)
    → listed id (push_location l.partition_id.stage_id l m) ≡ listed id m ++ of_stage id (l ∷ [])
unfolding push_location locations_of
listed-push_location id l [] = elim (Bool-cases (l.partition_id.stage_id == id)) [
  | inl same ↦ rw same refl
  | inr differs ↦ rw differs refl
]
listed-push_location id l ((j, ls) ∷ rest) =
    let st = l.partition_id.stage_id in
    let more = listed-push_location id l rest in
    elim (Bool-cases (j == st)) [
      | inl pushed ↦ elim (Bool-cases (j == id)) [
        | inl same ↦
            let meets : (st == id) ≡ true = ground (arith, pushed, same) in
            rw (pushed, same, meets) refl
        | inr differs ↦
            let misses : (st == id) ≡ false = ground (arith, pushed, differs) in
            rw (pushed, differs, misses) (sym (append-nil (listed id rest)))
      ]
      | inr kept ↦ elim (Bool-cases (j == id)) [
        | inl same ↦
            let misses : (st == id) ≡ false = ground (arith, kept, same) in
            rw (kept, same, misses) (sym (append-nil ls))
        | inr differs ↦ rw (kept, differs) more
      ]
    ]
