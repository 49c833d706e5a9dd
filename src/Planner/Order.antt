-- ===== src/Planner/Order.antt =====
-- What it means that query stages are numbered in order and need only stages made before them.
use ballista.Prelude.{
  ℕ, suc, ◌+◌, List, [], ◌∷◌, ◌++◌, map, append-nil, append_assoc, ◌≡◌, refl, ◌⊎◌, inl, inr, All,
  All-map, length, range_from,
}
use ballista.Plan.{DataFusion, partition_count, UnresolvedShuffle, find_unresolved_shuffles}
use ballista.Planner.{QueryStage, DistributedPlanner}

module _ {Op Schema : Type 0} (df : DataFusion Op Schema) where
  -- A stage of the list has this id and this many output partitions.
  abbrev pub Produces : List (QueryStage Op Schema) → ℕ → ℕ → Type 0
  Produces [] id count = ⊥
  Produces (s ∷ ss) id count =
      ((s.stage_id ≡ id) × (partition_count df s.child ≡ count)) ⊎ Produces ss id count

  -- Every stage that a shuffle names is in the list, with the shuffle's partition count.
  abbrev pub IsProduced : List (QueryStage Op Schema) → UnresolvedShuffle Schema → Type 0
  IsProduced before u = All (λ id. Produces before id u.partition_count) u.query_stage_ids

  abbrev pub DependsOn : List (QueryStage Op Schema) → List (UnresolvedShuffle Schema) → Type 0
  DependsOn before = All (IsProduced before)

  -- Each stage needs the outputs of earlier stages only.
  abbrev pub IsOrdered : List (QueryStage Op Schema) → List (QueryStage Op Schema) → Type 0
  IsOrdered before [] = Unit
  IsOrdered before (s ∷ ss) =
      DependsOn before (find_unresolved_shuffles s.child) × IsOrdered (before ++ s ∷ []) ss

  pub Produces-append :
      (xs ys : List (QueryStage Op Schema)) (id count : ℕ)
      → Produces xs id count
      → Produces (xs ++ ys) id count
  Produces-append [] ys id count h = absurd h
  Produces-append (x ∷ xs) ys id count (inl h) = inl h
  Produces-append (x ∷ xs) ys id count (inr h) = inr (Produces-append xs ys id count h)

  pub Produces-last :
      (xs : List (QueryStage Op Schema)) (s : QueryStage Op Schema)
      → Produces (xs ++ s ∷ []) s.stage_id (partition_count df s.child)
  Produces-last [] s = inl (refl, refl)
  Produces-last (x ∷ xs) s = inr (Produces-last xs s)

  pub DependsOn-append :
      (xs ys : List (QueryStage Op Schema)) (us : List (UnresolvedShuffle Schema))
      → DependsOn xs us
      → DependsOn (xs ++ ys) us
  DependsOn-append xs ys us h =
      All-map (IsProduced xs) (IsProduced (xs ++ ys)) us
        (λ u h'.
          All-map (λ id. Produces xs id u.partition_count)
            (λ id. Produces (xs ++ ys) id u.partition_count) u.query_stage_ids
            (λ id. Produces-append xs ys id u.partition_count) h')
        h

  pub IsOrdered-append :
      (before xs ys : List (QueryStage Op Schema))
      → IsOrdered before xs
      → IsOrdered (before ++ xs) ys
      → IsOrdered before (xs ++ ys)
  IsOrdered-append before [] ys h k = rw append-nil at k
  IsOrdered-append before (x ∷ xs) ys h k =
      (h.0, IsOrdered-append (before ++ x ∷ []) xs ys h.1 (rw append_assoc k))

-- The stages made between two states of the planner bear the ids in between, in order.
pub record IsNumbered {Op Schema : Type 0} (s t : DistributedPlanner)
    (stages : List (QueryStage Op Schema)) : Type 0 where
  pub executors : t.executors ≡ s.executors
  pub next : t.next_stage_id ≡ s.next_stage_id + length stages
  pub ids : map (λ q. q.stage_id) stages ≡ range_from (suc s.next_stage_id) (length stages)
