-- ===== src/State/Readers.antt =====
-- The locations that `assign_next_schedulable_task` of rust/scheduler/src/state/mod.rs collects for
-- the shuffles of a plan.
use ballista.Prelude.{
  ℕ, List, [], ◌∷◌, ◌++◌, map, append-nil, append_assoc, Option, none, some, range_from, ◌≡◌, refl,
  sym, subst, ◌∙◌, ap, arith,
}
use ballista.Text.{Text}
use ballista.Error.{ok, bind, bind-eq-ok, ok-injective}
use ballista.Proto.{TaskStatus}
use ballista.Serde.{PartitionId, PartitionLocation, ExecutorMeta}
use ballista.Plan.{UnresolvedShuffle}
use ballista.Planner.Shuffles.{Locations, locations_of}
use ballista.Planner.Chunks.{concat}
use ballista.Planner.Resolved.{AllRead}
use ballista.Backend.Entries.{Map, lookup}
use ballista.State.Keys.{get_task_status_key}
use ballista.State.Codec.{Prost, decode_protobuf}
use ballista.State.JobState.{completed_by}
use ballista.State.{unwrap}
use ballista.State.Assign.{
  find_executor, push_some, locate_completed, locate, locate_partitions, locate_stages,
  locate_shuffles,
}
use ballista.State.Located.{IsCompleted, unwrap-eq-ok, and_go_on-eq-some}
use ballista.State.Pushes.{
  stage_partitions, stages_partitions, needed, IsKnownAs, of_stage, of_stages, or_empty, listed,
  find_executor_known, some-injective, of_stage-append, listed-push_location,
}

module _ (codec : Prost TaskStatus) (ns job_id : Text) (kvs : Map)
    (executors : List ExecutorMeta) where
  -- A location of a partition: its task is completed, by a known executor, which it names.
  pub record IsLocation (partition : ℕ × ℕ) (l : PartitionLocation) : Type 0 where
    pub completed : IsCompleted codec ns job_id kvs partition.0 partition.1
    pub partition_id :
        l.partition_id
        ≡ record { job_id = job_id; stage_id = partition.0; partition_id = partition.1 }
    pub executor : IsKnownAs completed.executor_id l.executor_meta executors

  abbrev pub AreLocations : List (ℕ × ℕ) → List PartitionLocation → Type 0
  AreLocations [] [] = Unit
  AreLocations (p ∷ ps) (l ∷ ls) = IsLocation p l × AreLocations ps ls
  AreLocations _ _ = ⊥

  -- Between two maps, the locations of these partitions were pushed.
  abbrev Pushed : List (ℕ × ℕ) → Locations → Locations → Type 0
  Pushed ps m m' =
      (ls : List PartitionLocation) × AreLocations ps ls
      × ((id : ℕ) → listed id m' ≡ listed id m ++ of_stage id ls)

  AreLocations-append :
      (ps qs : List (ℕ × ℕ)) (ls ks : List PartitionLocation)
      → AreLocations ps ls
      → AreLocations qs ks
      → AreLocations (ps ++ qs) (ls ++ ks)
  AreLocations-append [] qs [] ks h k = k
  AreLocations-append [] qs (l ∷ ls) ks h k = absurd h
  AreLocations-append (p ∷ ps) qs [] ks h k = absurd h
  AreLocations-append (p ∷ ps) qs (l ∷ ls) ks h k = (h.0, AreLocations-append ps qs ls ks h.1 k)

  Pushed-none : (m : Locations) → Pushed [] m m
  Pushed-none m = ([], tt, λ id. sym (append-nil (listed id m)))

  Pushed-append :
      (ps qs : List (ℕ × ℕ)) (m m' m'' : Locations)
      → Pushed ps m m'
      → Pushed qs m' m''
      → Pushed (ps ++ qs) m m''
  Pushed-append ps qs m m' m'' (ls, are, more) (ks, are', more') = (
    ls ++ ks,
    AreLocations-append ps qs ls ks are are',
    λ id.
        rw (more' id, more id, of_stage-append id ls ks)
          (append_assoc (listed id m) (of_stage id ls) (of_stage id ks)),
  )

  locate_completed-IsLocation :
      (o : Option Text) (stage_id p : ℕ) (l : PartitionLocation)
      → locate_completed codec ns job_id kvs executors o stage_id p ≡ ok (some l)
      → (executor_id : Text) × (o ≡ some executor_id)
        × (l.partition_id ≡ record { job_id = job_id; stage_id = stage_id; partition_id = p })
        × IsKnownAs executor_id l.executor_meta executors
  unfolding locate_completed
  locate_completed-IsLocation none stage_id p l h = absurd (ground arith)
  locate_completed-IsLocation (some executor_id) stage_id p l h =
      let (meta, found, made) = bind-eq-ok (unwrap (find_executor executor_id executors)) _ h in
      let same : location meta ≡ l = some-injective (ok-injective made) in
      let known = find_executor_known executor_id executors meta (unwrap-eq-ok _ found) in
      (
        executor_id,
        refl,
        sym (ap (λ (k : PartitionLocation). k.partition_id) same),
        subst (λ (k : PartitionLocation). IsKnownAs executor_id k.executor_meta executors) same
            known,
      )
    where
      location : ExecutorMeta → PartitionLocation
      location meta = record {
        partition_id = record { job_id = job_id; stage_id = stage_id; partition_id = p };
        executor_meta = meta;
      }

  locate-IsLocation :
      (stage_id p : ℕ) (l : PartitionLocation)
      → locate codec ns job_id kvs executors stage_id p ≡ ok (some l)
      → IsLocation (stage_id, p) l
  unfolding locate
  locate-IsLocation stage_id p l h =
      let (bytes, found, present) =
        bind-eq-ok (unwrap (lookup (get_task_status_key ns job_id stage_id p) kvs)) _ h in
      let (task, decodes, located) = bind-eq-ok (decode_protobuf codec bytes) _ present in
      let (executor_id, completed, partition_id, known) =
        locate_completed-IsLocation (completed_by task.status) stage_id p l located in
      record {
        completed = record {
          bytes = bytes;
          task = task;
          executor_id = executor_id;
          present = unwrap-eq-ok _ found;
          decodes = decodes;
          completed = completed;
        };
        partition_id = partition_id;
        executor = known;
      }

  push_some-Pushed :
      (stage_id p : ℕ) (o : Option PartitionLocation) (acc acc' : Locations)
      → locate codec ns job_id kvs executors stage_id p ≡ ok o
      → push_some stage_id o acc ≡ ok (some acc')
      → Pushed ((stage_id, p) ∷ []) acc acc'
  push_some-Pushed stage_id p none acc acc' located pushed = absurd (ground arith)
  push_some-Pushed stage_id p (some l) acc acc' located pushed =
      let is = locate-IsLocation stage_id p l located in
      let own : l.partition_id.stage_id ≡ stage_id =
        ap (λ (i : PartitionId). i.stage_id) is.partition_id in
      let same = some-injective (ok-injective pushed) in
      (l ∷ [], (is, tt), λ id. rw (← same, ← own) (listed-push_location id l acc))

  locate_partitions-Pushed :
      (stage_id : ℕ) (ps : List ℕ) (acc found : Locations)
      → locate_partitions codec ns job_id kvs executors stage_id ps acc ≡ ok (some found)
      → Pushed (map (λ p. (stage_id, p)) ps) acc found
  unfolding locate_partitions
  locate_partitions-Pushed stage_id [] acc found h =
      rw (some-injective (ok-injective h)) (Pushed-none found)
  locate_partitions-Pushed stage_id (p ∷ ps) acc found h =
      let (acc', first, rest) =
        and_go_on-eq-some (bind (locate codec ns job_id kvs executors stage_id p) _) _ h in
      let (o, located, pushed) =
        bind-eq-ok (locate codec ns job_id kvs executors stage_id p) _ first in
      Pushed-append ((stage_id, p) ∷ []) _ acc acc' found
        (push_some-Pushed stage_id p o acc acc' located pushed)
        (locate_partitions-Pushed stage_id ps acc' found rest)

  locate_stages-Pushed :
      (ids : List ℕ) (count : ℕ) (acc found : Locations)
      → locate_stages codec ns job_id kvs executors ids count acc ≡ ok (some found)
      → Pushed (stages_partitions ids count) acc found
  unfolding locate_stages
  locate_stages-Pushed [] count acc found h =
      rw (some-injective (ok-injective h)) (Pushed-none found)
  locate_stages-Pushed (id ∷ ids) count acc found h =
      let (acc', first, rest) =
        and_go_on-eq-some
          (locate_partitions codec ns job_id kvs executors id (range_from 0 count) acc) _ h in
      Pushed-append (stage_partitions id count) _ acc acc' found
        (locate_partitions-Pushed id (range_from 0 count) acc acc' first)
        (locate_stages-Pushed ids count acc' found rest)

  locate_shuffles-Pushed :
      {Schema : Type 0} (us : List (UnresolvedShuffle Schema)) (acc found : Locations)
      → locate_shuffles codec ns job_id kvs executors us acc ≡ ok (some found)
      → Pushed (needed us) acc found
  unfolding locate_shuffles
  locate_shuffles-Pushed [] acc found h = rw (some-injective (ok-injective h)) (Pushed-none found)
  locate_shuffles-Pushed (u ∷ us) acc found h =
      let (acc', first, rest) =
        and_go_on-eq-some
          (locate_stages codec ns job_id kvs executors u.query_stage_ids u.partition_count acc) _
          h in
      Pushed-append (stages_partitions u.query_stage_ids u.partition_count) _ acc acc' found
        (locate_stages-Pushed u.query_stage_ids u.partition_count acc acc' first)
        (locate_shuffles-Pushed us acc' found rest)

-- Readers of the known locations read those of their stages among all that were pushed.
IsRead-of_stages :
    (m : Locations) (ls : List PartitionLocation)
    → ((id : ℕ) → listed id m ≡ of_stage id ls)
    → (ids : List ℕ) (parts : List (List PartitionLocation))
    → map (λ id. locations_of id m) ids ≡ map some parts
    → concat parts ≡ of_stages ids ls
IsRead-of_stages m ls h [] [] e = refl
IsRead-of_stages m ls h [] (p ∷ ps) e = absurd (ground (arith, e))
IsRead-of_stages m ls h (id ∷ ids) [] e = absurd (ground (arith, e))
IsRead-of_stages m ls h (id ∷ ids) (part ∷ parts) e =
    let first : locations_of id m ≡ some part = cc in
    let same : part ≡ of_stage id ls = sym (ap or_empty first) ∙ h id in
    rw (same, IsRead-of_stages m ls h ids parts cc) refl

AllRead-of_stages :
    {Schema : Type 0} (m : Locations) (ls : List PartitionLocation)
    → ((id : ℕ) → listed id m ≡ of_stage id ls)
    → (us : List (UnresolvedShuffle Schema)) (readers : List (List PartitionLocation))
    → AllRead m us readers
    → readers ≡ map (λ u. of_stages u.query_stage_ids ls) us
AllRead-of_stages m ls h [] [] r = refl
AllRead-of_stages m ls h [] (x ∷ xs) r = absurd r
AllRead-of_stages m ls h (u ∷ us) [] r = absurd r
AllRead-of_stages m ls h (u ∷ us) (x ∷ xs) r =
    let first = r.0.joined ∙ IsRead-of_stages m ls h u.query_stage_ids r.0.parts r.0.known in
    rw (first, AllRead-of_stages m ls h us xs r.1) refl

-- The locations that are found for a plan's shuffles are those of their partitions, and a plan
-- resolved with them reads, for each shuffle, those of its stages.
pub locate_shuffles-readers :
    {Schema : Type 0} (codec : Prost TaskStatus) (ns job_id : Text) (kvs : Map)
    (executors : List ExecutorMeta) (us : List (UnresolvedShuffle Schema)) (found : Locations)
    (readers : List (List PartitionLocation))
    → locate_shuffles codec ns job_id kvs executors us [] ≡ ok (some found)
    → AllRead found us readers
    → (ls : List PartitionLocation) × AreLocations codec ns job_id kvs executors (needed us) ls
      × (readers ≡ map (λ u. of_stages u.query_stage_ids ls) us)
unfolding locations_of
locate_shuffles-readers codec ns job_id kvs executors us found readers h r =
    let (ls, are, more) = locate_shuffles-Pushed codec ns job_id kvs executors us [] found h in
    (ls, are, AllRead-of_stages found ls more us readers r)
