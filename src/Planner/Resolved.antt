-- ===== src/Planner/Resolved.antt =====
-- What `remove_unresolved_shuffles` of rust/scheduler/src/planner.rs makes of a plan.
use ballista.Prelude.{
  ℕ, Option, none, some, ◌∷◌, List, [], ◌++◌, map, ◌≡◌, refl, ap, ◌∙◌, arith, append-nil, sym,
}
use mathlib.Core.List.{map-append}
use ballista.Error.{ok, bind-eq-ok, ok-injective}
use ballista.Serde.{PartitionLocation}
use ballista.Plan.{
  ExecutionPlan, query_stage, shuffle_reader, unresolved_shuffle, operator, Plans, nil, cons,
  DataFusion, with_new_children, UnresolvedShuffle, find_unresolved_shuffles, find_in_children,
}
use ballista.Plan.Children.{
  find-with_new_children, with_new_children-reader, with_new_children-unresolved,
}
use ballista.Planner.Chunks.{concat}
use ballista.Planner.Shuffles.{
  locations_of, missing, Locations, relevant_locations, reader_locations, reader_locations_in,
  IsResolved, resolve_child, resolve_children, remove_unresolved_shuffles,
}

-- The location lists of the named stages, one after the other.
pub record IsRead (m : Locations) (ids : List ℕ) (reader : List PartitionLocation) : Type 0 where
  pub parts : List (List PartitionLocation)
  pub known : map (λ id. locations_of id m) ids ≡ map some parts
  pub joined : reader ≡ concat parts

-- One reader for each shuffle, in order.
abbrev pub AllRead :
    {Schema : Type 0}
    → Locations
    → List (UnresolvedShuffle Schema)
    → List (List PartitionLocation)
    → Type 0
AllRead m [] [] = Unit
AllRead m (u ∷ us) (r ∷ rs) = IsRead m u.query_stage_ids r × AllRead m us rs
AllRead m _ _ = ⊥

relevant_locations-IsRead :
    (ids : List ℕ) (m : Locations) (ls : List PartitionLocation)
    → relevant_locations ids m ≡ ok ls
    → IsRead m ids ls
unfolding relevant_locations
relevant_locations-IsRead [] m ls h = record {
  parts = [];
  known = refl;
  joined = sym (ok-injective h);
}
relevant_locations-IsRead (id ∷ ids) m ls h =
    let (one, found, more) = bind-eq-ok (missing (locations_of id m)) _ h in
    let (rest, others, made) = bind-eq-ok (relevant_locations ids m) _ more in
    let k = relevant_locations-IsRead ids m rest others in
    record {
      parts = one ∷ k.parts;
      known = rw (known_one (locations_of id m) one found, k.known);
      joined = rw (← ok-injective made) (ap (◌++◌ one) k.joined);
    }
  where
    known_one :
        (o : Option (List PartitionLocation)) (one : List PartitionLocation)
        → missing o ≡ ok one
        → o ≡ some one
    known_one none one h = absurd (ground (arith, h))
    known_one (some l) one h = ap some (ok-injective h)

readers-AllRead :
    {Schema : Type 0} (m : Locations) (us : List (UnresolvedShuffle Schema))
    (rs : List (List PartitionLocation))
    → map (λ u. relevant_locations u.query_stage_ids m) us ≡ map ok rs
    → AllRead m us rs
readers-AllRead m [] [] h = tt
readers-AllRead m [] (r ∷ rs) h = absurd (ground (arith, h))
readers-AllRead m (u ∷ us) [] h = absurd (ground (arith, h))
readers-AllRead m (u ∷ us) (r ∷ rs) h =
    (relevant_locations-IsRead u.query_stage_ids m r (cc), readers-AllRead m us rs (cc))

IsResolved-append :
    {Schema : Type 0} (m : Locations) (f f' l l' : List (UnresolvedShuffle Schema))
    (r r' : List (List PartitionLocation))
    → IsResolved m f l r
    → IsResolved m f' l' r'
    → IsResolved m (f ++ f') (l ++ l') (r ++ r')
IsResolved-append {Schema} m f f' l l' r r' h k = record {
  none_left = rw (h.none_left, k.none_left);
  all_read =
      rw
        (map-append (λ (u : UnresolvedShuffle Schema). relevant_locations u.query_stage_ids m) f f')
        (rw (h.all_read, k.all_read) (sym (map-append ok r r')));
}

module _ {Op Schema : Type 0} (df : DataFusion Op Schema) where
  readers-with_new_children :
      (plan : ExecutionPlan Op Schema) (ps : Plans Op Schema) (p : ExecutionPlan Op Schema)
      → with_new_children df plan ps ≡ ok p
      → reader_locations p ≡ reader_locations_in ps
  unfolding with_new_children reader_locations
  readers-with_new_children (query_stage j i c) nil p h = absurd (ground arith)
  readers-with_new_children (query_stage j i c) (cons q nil) p h =
      ground (arith, append-nil (reader_locations q))
  readers-with_new_children (query_stage j i c) (cons q (cons q' qs)) p h = absurd (ground arith)
  readers-with_new_children (shuffle_reader l sc) ps p h = absurd (ground arith)
  readers-with_new_children (unresolved_shuffle ids sc n) ps p h = absurd (ground arith)
  readers-with_new_children (operator op inputs) ps p h =
      let (op', made, e) = bind-eq-ok (df.rebuild op ps) (λ o. ok (operator o ps)) h in ground arith

  IsResolved-with_new_children :
      (m : Locations) (found : List (UnresolvedShuffle Schema)) (plan : ExecutionPlan Op Schema)
      (ps : Plans Op Schema) (p : ExecutionPlan Op Schema)
      → IsResolved m found (find_in_children ps) (reader_locations_in ps)
      → with_new_children df plan ps ≡ ok p
      → IsResolved m found (find_unresolved_shuffles p) (reader_locations p)
  IsResolved-with_new_children m found plan ps p h e = record {
    none_left = find-with_new_children df plan ps p e ∙ h.none_left;
    all_read = h.all_read ∙ ap (map ok) (sym (readers-with_new_children plan ps p e));
  }

  mutual
    unfolding resolve_child find_unresolved_shuffles reader_locations

    resolve_child-IsResolved :
        (p : ExecutionPlan Op Schema) (m : Locations) (p' : ExecutionPlan Op Schema)
        → resolve_child df p m ≡ ok p'
        → IsResolved m
            (find_unresolved_shuffles p)
            (find_unresolved_shuffles p')
            (reader_locations p')
    resolve_child-IsResolved (query_stage j i child) m p' h =
        let (c, resolved, made) = bind-eq-ok (resolve_child df child m) _ h in
        IsResolved-with_new_children m _ (query_stage j i child) (cons c nil) p'
          (IsResolved-append m _ [] _ [] _ [] (resolve_child-IsResolved child m c resolved)
            (record { none_left = refl; all_read = refl }))
          made
    resolve_child-IsResolved (shuffle_reader l sc) m p' h =
        absurd (with_new_children-reader df l sc nil p' h)
    resolve_child-IsResolved (unresolved_shuffle ids sc n) m p' h =
        let (ls, located, made) = bind-eq-ok (relevant_locations ids m) _ h in
        rw (← ok-injective made) (record { none_left = refl; all_read = rw located })
    resolve_child-IsResolved (operator op inputs) m p' h =
        let (cs, resolved, made) = bind-eq-ok (resolve_children df inputs m) _ h in
        IsResolved-with_new_children m _ (operator op inputs) cs p'
          (resolve_children-IsResolved inputs m cs resolved) made

    resolve_children-IsResolved :
        (ps : Plans Op Schema) (m : Locations) (ps' : Plans Op Schema)
        → resolve_children df ps m ≡ ok ps'
        → IsResolved m (find_in_children ps) (find_in_children ps') (reader_locations_in ps')
    resolve_children-IsResolved nil m ps' h =
        rw (← ok-injective h) (record { none_left = refl; all_read = refl })
    resolve_children-IsResolved (cons child rest) m ps' h =
        let (c, first, more) = bind-eq-ok (resolve_child df child m) _ h in
        let (cs, others, made) = bind-eq-ok (resolve_children df rest m) _ more in
        rw (← ok-injective made) (
          IsResolved-append m _ (find_in_children rest) _ (find_in_children cs) _
            (reader_locations_in cs) (resolve_child-IsResolved child m c first)
            (resolve_children-IsResolved rest m cs others))

  remove_unresolved_shuffles-IsResolved :
      (stage : ExecutionPlan Op Schema) (m : Locations) (p : ExecutionPlan Op Schema)
      → remove_unresolved_shuffles df stage m ≡ ok p
      → IsResolved m
          (find_unresolved_shuffles stage)
          (find_unresolved_shuffles p)
          (reader_locations p)
  unfolding remove_unresolved_shuffles
  remove_unresolved_shuffles-IsResolved (unresolved_shuffle ids sc n) m p h =
      absurd (with_new_children-unresolved df ids sc n nil p h)
  remove_unresolved_shuffles-IsResolved stage m p h = resolve_child-IsResolved stage m p h

  -- A stage that is resolved has no unresolved shuffle left, and for each one that it had, from
  -- left to right, a reader: the known locations of its stages, joined in the order of their ids.
  pub remove_unresolved_shuffles_lem :
      (stage : ExecutionPlan Op Schema) (m : Locations) (p : ExecutionPlan Op Schema)
      → remove_unresolved_shuffles df stage m ≡ ok p
      → (find_unresolved_shuffles p ≡ [])
        × AllRead m (find_unresolved_shuffles stage) (reader_locations p)
  remove_unresolved_shuffles_lem stage m p h =
      let k = remove_unresolved_shuffles-IsResolved stage m p h in
      (k.none_left, readers-AllRead m _ (reader_locations p) k.all_read)
