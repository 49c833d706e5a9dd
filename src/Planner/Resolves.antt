-- ===== src/Planner/Resolves.antt =====
-- When `remove_unresolved_shuffles` of rust/scheduler/src/planner.rs returns a plan.
use ballista.Prelude.{ℕ, List, [], ◌∷◌, ◌++◌, some, ◌≡◌, refl, arith, All, All-split}
use ballista.Error.{ok}
use ballista.Serde.{PartitionLocation}
use ballista.Plan.{
  ExecutionPlan, query_stage, shuffle_reader, unresolved_shuffle, operator, Plans, nil, cons,
  DataFusion, schema, with_new_children, UnresolvedShuffle, find_unresolved_shuffles,
  find_in_children,
}
use ballista.Planner.Shuffles.{
  Locations, locations_of, relevant_locations, reader_locations, reader_locations_in, resolve_child,
  resolve_children,
}
use ballista.Planner.Total.{schemas, TakesNewChildren, TakesNewChildrenIn}

-- The locations of a stage are known, and those of all stages of a shuffle.
abbrev pub IsKnown : Locations → ℕ → Type 0
IsKnown m id = (ls : List PartitionLocation) × (locations_of id m ≡ some ls)

abbrev pub IsLocated : {Schema : Type 0} → Locations → UnresolvedShuffle Schema → Type 0
IsLocated m u = All (IsKnown m) u.query_stage_ids

relevant_locations_ok :
    (ids : List ℕ) (m : Locations)
    → All (IsKnown m) ids
    → (ls : List PartitionLocation) × (relevant_locations ids m ≡ ok ls)
unfolding relevant_locations
relevant_locations_ok [] m h = ([], refl)
relevant_locations_ok (id ∷ ids) m ((ls, known), h) =
    let (rest, found) = relevant_locations_ok ids m h in (ls ++ rest, rw (known, found))

append-eq-nil : {A : Type 0} (xs ys : List A) → xs ++ ys ≡ [] → (xs ≡ []) × (ys ≡ [])
append-eq-nil [] ys h = (refl, h)
append-eq-nil (x ∷ xs) ys h = absurd (ground (arith, h))

module _ {Op Schema : Type 0} (df : DataFusion Op Schema) (m : Locations) where
  mutual
    unfolding resolve_child find_unresolved_shuffles reader_locations TakesNewChildren
        with_new_children schema

    -- A plan that takes new children, has no shuffle readers and whose shuffles are all located is
    -- resolved, and keeps its schema.
    pub resolve_child_ok :
        (p : ExecutionPlan Op Schema)
        → TakesNewChildren df p
        → reader_locations p ≡ []
        → All (IsLocated m) (find_unresolved_shuffles p)
        → (p' : ExecutionPlan Op Schema) × (resolve_child df p m ≡ ok p')
          × (schema df p' ≡ schema df p)
    resolve_child_ok (query_stage j i child) t r h =
        let (c, resolved, same) =
          resolve_child_ok child t r
            (All-split (IsLocated m) (find_unresolved_shuffles child) [] h).0 in
        (query_stage j i c, rw resolved, same)
    resolve_child_ok (shuffle_reader l sc) t r h = absurd (ground (arith, r))
    resolve_child_ok (unresolved_shuffle ids sc n) t r h =
        let (ls, found) = relevant_locations_ok ids m h.0 in (shuffle_reader ls sc, rw found, refl)
    resolve_child_ok (operator op inputs) t r h =
        let (cs, resolved, same) = resolve_children_ok inputs t.2 r h in
        let (op', made, kept) = t.0 cs same in (operator op' cs, rw (resolved, made), kept)

    resolve_children_ok :
        (ps : Plans Op Schema)
        → TakesNewChildrenIn df ps
        → reader_locations_in ps ≡ []
        → All (IsLocated m) (find_in_children ps)
        → (cs : Plans Op Schema) × (resolve_children df ps m ≡ ok cs)
          × (schemas df cs ≡ schemas df ps)
    resolve_children_ok nil t r h = (nil, refl, refl)
    resolve_children_ok (cons p ps) t r h =
        let (r', r'') = append-eq-nil (reader_locations p) (reader_locations_in ps) r in
        let (h', h'') =
          All-split (IsLocated m) (find_unresolved_shuffles p) (find_in_children ps) h in
        let (c, first, kept) = resolve_child_ok p t.0 r' h' in
        let (cs, others, same) = resolve_children_ok ps t.1 r'' h'' in
        (cons c cs, rw (first, others), rw (kept, same) refl)
