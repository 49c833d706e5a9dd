-- ===== src/Planner/Chunks.antt =====
-- `execute_query_stage` of rust/scheduler/src/planner.rs: the partitions of a stage are cut into
-- chunks, and the chunks are dealt out to the executors in turn.
use ballista.Prelude.{
  ℕ, zero, suc, ◌+◌, ◌-◌, ◌/◌, ◌%◌, ◌≤◌, ◌<◌, max, List, [], ◌∷◌, ◌++◌, map, Option, none, some,
  ◌≡◌, refl, ap, ◌∙◌, arith, length, get_elem?, range_from, All, All-append, length-range_from,
}
use mathlib.Core.List.{map-append}
use ballista.Text.{Text}
use ballista.Error.{Result, ok, panicked, bind}
use ballista.Serde.{PartitionLocation, ExecutorMeta}

module _ {A : Type 0} where
  unfoldable pub take : ℕ → List A → List A
  take zero xs = []
  take (suc n) [] = []
  take (suc n) (x ∷ xs) = x ∷ take n xs

  unfoldable pub drop : ℕ → List A → List A
  drop zero xs = xs
  drop (suc n) [] = []
  drop (suc n) (x ∷ xs) = drop n xs

  -- `slice::chunks`, for a size that is not 0, on fuel.
  unfoldable pub chunks : ℕ → ℕ → List A → List (List A)
  unfolding take drop
  chunks zero size xs = []
  chunks (suc fuel) size [] = []
  chunks (suc fuel) size (x ∷ xs) = take size (x ∷ xs) ∷ chunks fuel size (drop size (x ∷ xs))

-- `(partition_count / executors.len()).max(1)`, the length of a chunk.
unfoldable pub num_chunks : ℕ → ℕ → ℕ
num_chunks partition_count executors = max (partition_count / executors) 1

unfoldable pub partition_chunks : ℕ → ℕ → List (List ℕ)
unfolding chunks num_chunks
partition_chunks partition_count executors =
    chunks partition_count (num_chunks partition_count executors) (range_from 0 partition_count)

-- Indexing of a slice.
abbrev pub indexed : Option ExecutorMeta → Result ExecutorMeta
indexed none = panicked
indexed (some e) = ok e

module _ (job_id : Text) (stage_id : ℕ) where
  abbrev pub location : ExecutorMeta → ℕ → PartitionLocation
  location meta part = record {
    partition_id = record { job_id = job_id; stage_id = stage_id; partition_id = part };
    executor_meta = meta;
  }

  -- The metadata loop from chunk `i` on. `i % 0` panics.
  unfoldable pub locations_from :
      List ExecutorMeta → ℕ → List (List ℕ) → Result (List PartitionLocation)
  locations_from executors i [] = ok []
  locations_from [] i (chunk ∷ rest) = panicked
  locations_from (e ∷ es) i (chunk ∷ rest) =
      bind (indexed (get_elem? (e ∷ es) (i % length (e ∷ es)))) λ meta.
        bind (locations_from (e ∷ es) (i + 1) rest)
          λ others. ok (map (location meta) chunk ++ others)

  -- `partition_count / 0` panics.
  unfoldable pub stage_locations : ℕ → List ExecutorMeta → Result (List PartitionLocation)
  unfolding locations_from partition_chunks
  stage_locations partition_count [] = panicked
  stage_locations partition_count (e ∷ es) =
      locations_from (e ∷ es) 0 (partition_chunks partition_count (length (e ∷ es)))

take-append-drop : {A : Type 0} (n : ℕ) (xs : List A) → take n xs ++ drop n xs ≡ xs
unfolding take drop
take-append-drop zero xs = refl
take-append-drop (suc n) [] = refl
take-append-drop (suc n) (x ∷ xs) = ap (◌∷◌ x) (take-append-drop n xs)

length-drop : {A : Type 0} (n : ℕ) (xs : List A) → length (drop n xs) ≡ length xs - n
unfolding drop
length-drop zero xs = omega arith
length-drop (suc n) [] = omega arith
length-drop (suc n) (x ∷ xs) = omega (arith, length-drop n xs)

abbrev pub concat {ℓ} : {A : Type ℓ} → List (List A) → List A
concat [] = []
concat (xs ∷ rest) = xs ++ concat rest

-- With fuel for its length, the chunks of a list make up the list.
concat-chunks :
    {A : Type 0} (fuel size : ℕ) (xs : List A)
    → 0 < size
    → length xs ≤ fuel
    → concat (chunks fuel size xs) ≡ xs
unfolding chunks
concat-chunks zero size [] h l = refl
concat-chunks zero size (x ∷ xs) h l = absurd (omega arith)
concat-chunks (suc fuel) size [] h l = refl
concat-chunks (suc fuel) size (x ∷ xs) h l =
    ap (◌++◌ (take size (x ∷ xs)))
      (concat-chunks fuel size (drop size (x ∷ xs)) h (omega (arith, length-drop size (x ∷ xs))))
    ∙ take-append-drop size (x ∷ xs)

pub get_elem?-below :
    {A : Type 0} (xs : List A) (i : ℕ) → i < length xs → (x : A) × (get_elem? xs i ≡ some x)
get_elem?-below [] i h = absurd (omega arith)
get_elem?-below (x ∷ xs) zero h = (x, refl)
get_elem?-below (x ∷ xs) (suc i) h = get_elem?-below xs i (omega arith)

-- The partition of a location, and that its executor is one of those given.
abbrev pub partition_of : PartitionLocation → ℕ
partition_of l = l.partition_id.partition_id

abbrev pub IsAt : List ExecutorMeta → PartitionLocation → Type 0
IsAt executors l = (i : ℕ) × (get_elem? executors i ≡ some l.executor_meta)

module _ (job_id : Text) (stage_id : ℕ) (executors : List ExecutorMeta) where
  -- What the locations of the partitions `parts` are.
  abbrev Locates : List ℕ → List PartitionLocation → Type 0
  Locates parts ls = (map partition_of ls ≡ parts) × All (IsAt executors) ls

  Locates-map :
      (meta : ExecutorMeta) (i : ℕ) (chunk : List ℕ)
      → get_elem? executors i ≡ some meta
      → Locates chunk (map (location job_id stage_id meta) chunk)
  Locates-map meta i [] h = (refl, tt)
  Locates-map meta i (p ∷ chunk) h =
      let (parts, at) = Locates-map meta i chunk h in (ap (◌∷◌ p) parts, ((i, h), at))

  Locates-append :
      (parts parts' : List ℕ) (ls ls' : List PartitionLocation)
      → Locates parts ls
      → Locates parts' ls'
      → Locates (parts ++ parts') (ls ++ ls')
  Locates-append parts parts' ls ls' h k =
      (map-append partition_of ls ls' ∙ rw (h.0, k.0), All-append (IsAt executors) ls ls' h.1 k.1)

module _ (job_id : Text) (stage_id : ℕ) (e : ExecutorMeta) (es : List ExecutorMeta) where
  locations_from_lem :
      (i : ℕ) (parts : List (List ℕ))
      → (ls : List PartitionLocation) × (locations_from job_id stage_id (e ∷ es) i parts ≡ ok ls)
        × Locates job_id stage_id (e ∷ es) (concat parts) ls
  unfolding locations_from
  locations_from_lem i [] = ([], refl, (refl, tt))
  locations_from_lem i (chunk ∷ rest) =
      let k = i % suc (length es) in
      let (meta, found) = get_elem?-below (e ∷ es) k (grind arith) in
      let (others, done, located) = locations_from_lem (i + 1) rest in
      (
        map (location job_id stage_id meta) chunk ++ others,
        rw (found, done),
        Locates-append job_id stage_id (e ∷ es) chunk (concat rest) _ others
            (Locates-map job_id stage_id (e ∷ es) meta k chunk found) located,
      )

  -- With at least one executor, every partition of a stage, from the first to the last, is dealt
  -- out once, in order, to one of the executors, and nothing panics.
  pub stage_locations_lem :
      (partition_count : ℕ)
      → (ls : List PartitionLocation) × (stage_locations job_id stage_id partition_count (e ∷ es)
          ≡ ok ls)
        × (map partition_of ls ≡ range_from 0 partition_count)
        × All (IsAt (e ∷ es)) ls
  unfolding stage_locations
  stage_locations_lem n =
      let size = num_chunks n (length (e ∷ es)) in
      let (ls, done, located) = locations_from_lem 0 (partition_chunks n (length (e ∷ es))) in
      (
        ls,
        done,
        located.0
            ∙ concat-chunks n size (range_from 0 n) (unfold num_chunks in omega arith)
                (omega (arith, length-range_from 0 n)),
        located.1,
      )
