-- ===== src/Server/Polls.antt =====
-- What an executor's poll comes to in rust/scheduler/src/lib.rs.
use ballista.Prelude.{List, [], ◌∷◌, Option, none, some, false, ◌≡◌, refl, arith}
use ballista.Text.{Text, Bytes, codes}
use ballista.Error.{Result, ok, err, panicked}
use ballista.Error.Actions.{Exec}
use ballista.Proto.{TaskStatus, ExecutorMetadata}
use ballista.Serde.{ExecutorMeta, ExecutorMeta_from}
use ballista.Backend.Etcd.{Etcd, EtcdClient, etcd_client, answer, failed}
use ballista.State.{SchedulerState, save_executor_metadata, save_task_status}
use ballista.State.Synchronize.{synchronize_job_status}
use ballista.Server.{
  Handler, Response, response, status, crashed, internal, respond, or_internal, ignoring,
  PollWorkParams, PollWorkResult, save_statuses, synchronize_if, reply_with, poll_locked,
  poll_metadata, poll_work,
}

-- Every reply of the handler that is no error satisfies `P`.
pub record Replies {S A : Type 0} (P : A → Type 0) (h : Handler S A) : Type 0 where
  pub at : (s : S) (a : A) → (h s).0 ≡ response a → P a

module _ {S A B : Type 0} {P : B → Type 0} where
  respond-Replies :
      (message : Text) (r : Result A) (k : A → Handler S B) (s : S) (b : B)
      → ((a : A) → Replies P (k a))
      → (respond message r k s).0 ≡ response b
      → P b
  respond-Replies message (ok a) k s b h e = (h a).at s b e
  respond-Replies message (err x) k s b h e = absurd (ground arith)
  respond-Replies message panicked k s b h e = absurd (ground arith)

  or_internal-Replies :
      (message : Text) (m : Exec S A) (k : A → Handler S B)
      → ((a : A) → Replies P (k a))
      → Replies P (or_internal message m k)
  or_internal-Replies message m k h = record {
    at = λ s b e. respond-Replies message (m s).0 k (m s).1 b h e;
  }

  ignored :
      (r : Result A) (k : Handler S B) (s : S) (b : B)
      → Replies P k
      → (ignoring (λ s'. (r, s')) k s).0 ≡ response b
      → P b
  ignored (ok a) k s b h e = h.at s b e
  ignored (err x) k s b h e = h.at s b e
  ignored panicked k s b h e = absurd (ground arith)

module _ {S Op Schema PlanNode : Type 0} (state : SchedulerState S Op Schema PlanNode) (ns : Text)
    (order : List (Text × Bytes) → List (Text × Bytes)) where
  abbrev HasNoTask : PollWorkResult PlanNode → Type 0
  HasNoTask r = r.task ≡ none

  reply_with_no_task : Replies HasNoTask (reply_with state ns none)
  unfolding reply_with
  reply_with_no_task = record {
    at = λ s b e. sent (state.config_client.unlock s).0 (state.config_client.unlock s).1 b e;
  }
    where
      sent :
          (r : Result (Unit {0})) (s' : S) (b : PollWorkResult PlanNode)
          → (let out : Response (PollWorkResult PlanNode) × S = elim r [
            | ok done ↦ (response (record { task = none }), s')
            | err e ↦ (crashed, s')
            | panicked ↦ (crashed, s')
          ] in
              out).0
            ≡ response b
          → HasNoTask b
      sent (ok done) s' b e = ground arith
      sent (err x) s' b e = absurd (ground arith)
      sent panicked s' b e = absurd (ground arith)

  synchronize_if_no_task :
      (ts : List TaskStatus)
      → Replies HasNoTask (synchronize_if state ns ts (reply_with state ns none))
  unfolding synchronize_if
  synchronize_if_no_task [] = reply_with_no_task
  synchronize_if_no_task (t ∷ ts) = record {
    at = λ s b e.
        ignored (synchronize_job_status state ns s).0 (reply_with state ns none)
          (synchronize_job_status state ns s).1 b reply_with_no_task e;
  }

  save_statuses-Replies :
      (P : PollWorkResult PlanNode → Type 0) (ts : List TaskStatus)
      (k : Handler S (PollWorkResult PlanNode))
      → Replies P k
      → Replies P (save_statuses state ns ts k)
  unfolding save_statuses
  save_statuses-Replies P [] k h = h
  save_statuses-Replies P (t ∷ ts) k h =
      or_internal-Replies (codes "Could not save task status: ") (save_task_status state ns t) _
        λ saved. save_statuses-Replies P ts k h

  poll_locked_no_task :
      (meta : ExecutorMeta) (ts : List TaskStatus)
      → Replies HasNoTask (poll_locked state ns order meta false ts)
  unfolding poll_locked
  poll_locked_no_task meta ts =
      or_internal-Replies (codes "Could not save executor metadata: ")
        (save_executor_metadata state ns meta) _
        λ saved. save_statuses-Replies HasNoTask ts _ (synchronize_if_no_task ts)

  -- An executor that says that it cannot accept a task is given none by a poll that is answered.
  pub poll_work_no_task :
      (request : PollWorkParams) (s : S) (result : PollWorkResult PlanNode)
      → request.can_accept_task ≡ false
      → (poll_work state ns order request s).0 ≡ response result
      → result.task ≡ none
  unfolding poll_work
  poll_work_no_task request s result cannot e = polled request.metadata (rw cannot at e)
    where
      polled :
          (metadata : Option ExecutorMetadata)
          → (poll_metadata state ns order metadata false request.task_status s).0 ≡ response result
          → result.task ≡ none
      polled none e = absurd (ground arith)
      polled (some m) e =
          respond-Replies (codes "Could not lock the state: ") (state.config_client.lock s).0 _
            (state.config_client.lock s).1 result
            (λ locked. record {
              at = λ s' b e'.
                  (poll_locked_no_task (ExecutorMeta_from m) request.task_status).at s' b e';
            })
            e

module _ {Cluster LeaseId LockKey Op Schema PlanNode : Type 0} (api : Etcd Cluster LeaseId LockKey)
    (state : SchedulerState (EtcdClient Cluster LockKey) Op Schema PlanNode) (ns : Text)
    (order : List (Text × Bytes) → List (Text × Bytes)) where
  -- On the etcd backend, a poll whose lease is refused after the lock was taken answers with an
  -- error and leaves the cluster as the refusal left it: the lock is not given back.
  pub etcd_lock_kept :
      (request : PollWorkParams) (metadata : ExecutorMetadata) (s : EtcdClient Cluster LockKey)
      (key : LockKey) (taken refusing : Cluster) (e : Text)
      → state.config_client ≡ etcd_client api
      → request.metadata ≡ some metadata
      → api.lock (codes "/ballista_global_lock") s.etcd ≡ (answer key, taken)
      → api.lease_grant 60 taken ≡ (failed e, refusing)
      → let out = poll_work state ns order request s in
        ((message : Text) × (out.0 ≡ status internal message)) × (out.1.etcd ≡ refusing)
  unfolding poll_work etcd_client save_executor_metadata
  etcd_lock_kept request metadata s key taken refusing e c m l g = rw (m, c, l, g) ((_, refl), refl)
