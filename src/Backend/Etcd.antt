-- ===== src/Backend/Etcd.antt =====
-- rust/scheduler/src/state/etcd.rs: the client over an etcd cluster, with its leases and its lock.
use ballista.Prelude.{ℕ, List, [], ◌∷◌, ◌++◌, Option, none, some}
use ballista.Text.{Text, Bytes, codes}
use ballista.Error.{Result, ok, err, panicked, bind, ballista_error}
use ballista.Error.Actions.{Exec, ◌>>=◌, pure}
use ballista.Backend.{ConfigBackendClient}

-- An error of etcd, as its rendering.
pub data EtcdResult (A : Type 0) : Type 0 where
  answer : A → EtcdResult A
  failed : Text → EtcdResult A

-- The cluster's operations: the values at a key or a prefix, a lease of some seconds, a put with or
-- without a lease, and the lock that is named by a key. Key bytes are those of strings.
pub record Etcd (Cluster LeaseId LockKey : Type 0) : Type 0 where
  pub get : Text → Cluster → EtcdResult (List (Text × Bytes))
  pub get_prefix : Text → Cluster → EtcdResult (List (Text × Bytes))
  pub lease_grant : ℕ → Cluster → EtcdResult LeaseId × Cluster
  pub put : Text → Bytes → Option LeaseId → Cluster → EtcdResult (Unit {0}) × Cluster
  pub lock : Text → Cluster → EtcdResult LockKey × Cluster
  pub unlock : LockKey → Cluster → EtcdResult (Unit {0}) × Cluster

-- The cluster, and the key of the guard that the handler has, if it has one.
pub record EtcdClient (Cluster LockKey : Type 0) : Type 0 where
  pub etcd : Cluster
  pub guard : Option LockKey

or_error : {A : Type 0} → Text → EtcdResult A → Result A
or_error message (answer a) = ok a
or_error message (failed e) = err (ballista_error message)

read_error : {A : Type 0} → EtcdResult A → Result A
read_error (answer a) = ok a
read_error (failed e) = err (ballista_error (codes "etcd error " ++ e))

-- `kvs().get(0).map(|kv| kv.value()).unwrap_or_default()`
first_value : List (Text × Bytes) → Bytes
first_value [] = []
first_value ((k, v) ∷ rest) = v

module _ {Cluster LeaseId LockKey : Type 0} (api : Etcd Cluster LeaseId LockKey) where
  -- An operation that changes the cluster, whatever it answers.
  on_cluster :
      {A : Type 0} → Text → (Cluster → EtcdResult A × Cluster) → Exec (EtcdClient Cluster LockKey) A
  unfolding or_error ballista_error
  on_cluster message op s =
      let (r, etcd) = op s.etcd in (or_error message r, record s { etcd = etcd })

  unfoldable pub get : Text → Exec (EtcdClient Cluster LockKey) Bytes
  unfolding read_error first_value ballista_error
  get key s = (bind (read_error (api.get key s.etcd)) (λ kvs. ok (first_value kvs)), s)

  unfoldable pub get_from_prefix : Text → Exec (EtcdClient Cluster LockKey) (List (Text × Bytes))
  unfolding read_error ballista_error
  get_from_prefix prefix s = (read_error (api.get_prefix prefix s.etcd), s)

  unfoldable pub put_options : Option ℕ → Exec (EtcdClient Cluster LockKey) (Option LeaseId)
  unfolding on_cluster
  put_options none = pure none
  put_options (some seconds) = do
    lease ← on_cluster (codes "etcd lease grant failed") (api.lease_grant seconds)
    pure (some lease)

  unfoldable pub put : Text → Bytes → Option ℕ → Exec (EtcdClient Cluster LockKey) (Unit {0})
  unfolding put_options on_cluster
  put key value lease_time = do
    options ← put_options lease_time
    on_cluster (codes "etcd put failed") (api.put key value options)

  unfoldable pub lock : Exec (EtcdClient Cluster LockKey) (Unit {0})
  unfolding on_cluster
  lock = do
    key ← on_cluster (codes "etcd lock failed") (api.lock (codes "/ballista_global_lock"))
    λ s. (ok tt, record s { guard = some key })

  abbrev unlocked : EtcdResult (Unit {0}) → Result (Unit {0})
  unlocked (answer a) = ok tt
  unlocked (failed e) = panicked

  unfoldable pub unlock_guard : Option LockKey → Exec (EtcdClient Cluster LockKey) (Unit {0})
  unlock_guard none s = (ok tt, s)
  unlock_guard (some key) s =
      let (r, etcd) = api.unlock key s.etcd in (unlocked r, record s { etcd = etcd })

  -- A guard that is dropped leaves the cluster as it is: only `unlock` frees the lock.
  unfoldable pub etcd_client : ConfigBackendClient (EtcdClient Cluster LockKey)
  unfolding get get_from_prefix put lock unlock_guard
  etcd_client = record {
    get = get;
    get_from_prefix = get_from_prefix;
    put = put;
    lock = lock;
    unlock = λ s. unlock_guard s.guard s;
    drop_guard = λ s. record s { guard = none };
  }
