-- ===== src/Backend.antt =====
-- `ConfigBackendClient` of rust/scheduler/src/state/mod.rs: where the scheduler keeps its state,
-- as the operations of a client, and as a map from keys to values that a backend stands for.
pub mod Entries
pub mod Standalone
pub mod Etcd
use ballista.Prelude.{ℕ, List, Option, none, some, ◌≡◌}
use ballista.Text.{Text, Bytes}
use ballista.Error.{Result, ok}
use ballista.Error.Actions.{Exec}
use Entries.{Map, lookup, insert, with_prefix, value_or_empty}

-- Durations are in seconds. `lock` waits for the lock and gives a guard; `unlock` is called on the
-- guard, and `drop_guard` is what happens when a guard goes out of scope.
pub record ConfigBackendClient (S : Type 0) : Type 0 where
  pub get : Text → Exec S Bytes
  pub get_from_prefix : Text → Exec S (List (Text × Bytes))
  pub put : Text → Bytes → Option ℕ → Exec S (Unit {0})
  pub lock : Exec S (Unit {0})
  pub unlock : Exec S (Unit {0})
  pub drop_guard : S → S

-- The client serves a map while its backend is reachable and no lease has run out: the trait's
-- comments on `get`, `get_from_prefix` and `put`. `Rep s m` says that `s` holds `m`.
pub record IsMap {S : Type 0} (c : ConfigBackendClient S) (Rep : S → Map → Type 0) : Type 0 where
  pub get_reads :
      (k : Text) (s : S) (m : Map) → Rep s m → c.get k s ≡ (ok (value_or_empty (lookup k m)), s)
  pub scan_reads :
      (p : Text) (s : S) (m : Map) → Rep s m → c.get_from_prefix p s ≡ (ok (with_prefix p m), s)
  pub put_ok :
      (k : Text) (v : Bytes) (l : Option ℕ) (s : S) (m : Map) → Rep s m → (c.put k v l s).0 ≡ ok tt
  pub put_writes :
      (k : Text) (v : Bytes) (l : Option ℕ) (s : S) (m : Map)
      → Rep s m
      → Rep (c.put k v l s).1 (insert k v m)
  pub lock_ok : (s : S) (m : Map) → Rep s m → (c.lock s).0 ≡ ok tt
  pub lock_keeps : (s : S) (m : Map) → Rep s m → Rep (c.lock s).1 m
  pub unlock_ok : (s : S) (m : Map) → Rep s m → (c.unlock s).0 ≡ ok tt
  pub unlock_keeps : (s : S) (m : Map) → Rep s m → Rep (c.unlock s).1 m
  pub drop_keeps : (s : S) (m : Map) → Rep s m → Rep (c.drop_guard s) m
