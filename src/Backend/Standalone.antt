-- ===== src/Backend/Standalone.antt =====
-- rust/scheduler/src/state/standalone.rs: the client over sled, a map in a file, and a mutex.
use ballista.Prelude.{ℕ, List, [], ◌∷◌, ◌++◌, map, Option, Bool, true, false, ◌≡◌, refl, arith}
use ballista.Text.{Text, Bytes, codes}
use ballista.Error.{Result, ok, err, bind, ballista_error}
use ballista.Error.Actions.{Exec}
use ballista.Backend.{ConfigBackendClient, IsMap}
use ballista.Backend.Entries.{Map, lookup, insert, with_prefix, value_or_empty}

-- An error of sled, as its debug rendering.
pub data SledResult (A : Type 0) : Type 0 where
  found : A → SledResult A
  failed : Text → SledResult A

-- sled: keys are the bytes of the strings that were inserted, so reading one back as a string
-- never fails. A scan is an iterator of results.
pub record Sled (Db : Type 0) : Type 0 where
  pub get : Text → Db → SledResult (Option Bytes)
  pub insert : Text → Bytes → Db → SledResult (Unit {0}) × Db
  pub scan_prefix : Text → Db → List (SledResult (Text × Bytes))

pub record IsOrderedMap {Db : Type 0} (sled : Sled Db) (Holds : Db → Map → Type 0) : Type 0 where
  pub get_reads : (k : Text) (d : Db) (m : Map) → Holds d m → sled.get k d ≡ found (lookup k m)
  pub insert_ok :
      (k : Text) (v : Bytes) (d : Db) (m : Map) → Holds d m → (sled.insert k v d).0 ≡ found tt
  pub insert_writes :
      (k : Text) (v : Bytes) (d : Db) (m : Map)
      → Holds d m
      → Holds (sled.insert k v d).1 (insert k v m)
  pub scan_reads :
      (p : Text) (d : Db) (m : Map) → Holds d m → sled.scan_prefix p d ≡ map found (with_prefix p m)

-- The database, and whether the mutex is held.
pub record StandaloneClient (Db : Type 0) : Type 0 where
  pub db : Db
  pub locked : Bool

sled_error : {A : Type 0} → SledResult A → Result A
sled_error (found a) = ok a
sled_error (failed e) = err (ballista_error (codes "sled error " ++ e))

insert_error : SledResult (Unit {0}) → Result (Unit {0})
insert_error (found a) = ok a
insert_error (failed e) = err (ballista_error (codes "sled insert failed"))

-- `collect::<Result<Vec<_>, _>>()`
collect : {A : Type 0} → List (SledResult A) → SledResult (List A)
collect [] = found []
collect (failed e ∷ rest) = failed e
collect (found a ∷ rest) = elim (collect rest) [
  | found others ↦ found (a ∷ others)
  | failed e ↦ failed e
]

module _ {Db : Type 0} (sled : Sled Db) where
  unfoldable pub get : Text → Exec (StandaloneClient Db) Bytes
  unfolding sled_error ballista_error
  get key s = (bind (sled_error (sled.get key s.db)) (λ v. ok (value_or_empty v)), s)

  unfoldable pub get_from_prefix : Text → Exec (StandaloneClient Db) (List (Text × Bytes))
  unfolding sled_error collect ballista_error
  get_from_prefix prefix s = (sled_error (collect (sled.scan_prefix prefix s.db)), s)

  -- The lease time is ignored.
  unfoldable pub put : Text → Bytes → Option ℕ → Exec (StandaloneClient Db) (Unit {0})
  unfolding insert_error ballista_error
  put key value lease_time s =
      let (r, db) = sled.insert key value s.db in (insert_error r, record s { db = db })

  -- `unlock` of a mutex guard does nothing; the mutex is freed when the guard is dropped.
  unfoldable pub standalone_client : ConfigBackendClient (StandaloneClient Db)
  unfolding get get_from_prefix put
  standalone_client = record {
    get = get;
    get_from_prefix = get_from_prefix;
    put = put;
    lock = λ s. (ok tt, record s { locked = true });
    unlock = λ s. (ok tt, s);
    drop_guard = λ s. record s { locked = false };
  }

  collect-found : (entries : List (Text × Bytes)) → collect (map found entries) ≡ found entries
  unfolding collect
  collect-found [] = refl
  collect-found (e ∷ entries) = ground (arith, collect-found entries)

  -- Over a database that is an ordered map, the standalone client serves that map: an absent key
  -- reads as no bytes, a scan gives the entries under its prefix in order, a put overrides, and the
  -- lock and its guard leave the map alone.
  pub standalone_client-IsMap :
      (Holds : Db → Map → Type 0)
      → IsOrderedMap sled Holds
      → IsMap standalone_client (λ s m. Holds s.db m)
  unfolding standalone_client
  standalone_client-IsMap Holds h = record {
    get_reads = λ k s m r. rw (h.get_reads k s.db m r);
    scan_reads = λ p s m r. rw (h.scan_reads p s.db m r, collect-found (with_prefix p m));
    put_ok = λ k v l s m r. rw (h.insert_ok k v s.db m r);
    put_writes = λ k v l s m r. h.insert_writes k v s.db m r;
    lock_ok = λ s m r. refl;
    lock_keeps = λ s m r. r;
    unlock_ok = λ s m r. refl;
    unlock_keeps = λ s m r. r;
    drop_keeps = λ s m r. r;
  }
