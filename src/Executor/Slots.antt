-- ===== src/Executor/Slots.antt =====
-- The slots of an executor, and the statuses that it owes, in rust/executor/src/execution_loop.rs.
use ballista.Prelude.{
  ◌⊎◌, inl, inr, false, ℕ, suc, ◌+◌, ◌≤◌, ◌<◌, ◌^◌, ◌%◌, List, [], ◌∷◌, ◌++◌, append_assoc,
  append-nil, Option, none, some, ◌≡◌, ap, sym, ◌∙◌, arith, length, length-append,
}
use ballista.Text.{Text}
use ballista.Proto.{TaskStatus}
use ballista.Executor.{
  PollRequest, ExecutorState, start, sample_tasks_status, poll, answered, refused, finish, send,
  Step, polls, answers_nothing, answers_task, refuses, finishes, sends, Reach, here, next,
}

sample_tasks_status_lem :
    (acc channel : List TaskStatus) → sample_tasks_status acc channel ≡ acc ++ channel
unfolding sample_tasks_status
sample_tasks_status_lem acc [] = sym (append-nil acc)
sample_tasks_status_lem acc (status ∷ rest) =
    sample_tasks_status_lem (acc ++ status ∷ []) rest ∙ append_assoc acc (status ∷ []) rest

-- The statuses of a poll under way.
abbrev pub in_flight : Option PollRequest → List TaskStatus
in_flight none = []
in_flight (some rq) = rq.task_status

abbrev pub MayAccept : ℕ → Option PollRequest → Type 0
MayAccept slots none = Unit
MayAccept slots (some rq) = (rq.can_accept_task ≡ false) ⊎ (0 < slots)

-- Free slots and running tasks make up the slots that the executor started with, and a poll under
-- way that says that a task is accepted still has a slot for it.
pub record HasSlots (concurrent_tasks : ℕ) (s : ExecutorState) : Type 0 where
  pub conserved : s.slots + length s.running ≡ concurrent_tasks
  pub room : MayAccept s.slots s.request

-- The statuses on their way, those that arrived and those that are lost.
abbrev pub statuses : ExecutorState → ℕ
statuses s =
    length s.finished
    + length s.channel
    + length (in_flight s.request)
    + length s.delivered
    + length s.dropped

MayAccept-more :
    (a b : ℕ) (request : Option PollRequest) → a ≤ b → MayAccept a request → MayAccept b request
MayAccept-more a b none h k = tt
MayAccept-more a b (some rq) h (inl cannot) = inl cannot
MayAccept-more a b (some rq) h (inr room) = inr (omega arith)

-- A list with one element taken out.
length-without :
    {A : Type 0} (before after xs : List A) (x : A)
    → xs ≡ before ++ x ∷ after
    → length xs ≡ suc (length (before ++ after))
length-without before after xs x e =
    omega (arith, ap length e, length-append before (x ∷ after), length-append before after)

module _ (executor_id : Text) where
  Step-HasSlots :
      {s t : ExecutorState} (n : ℕ)
      → n < 2 ^ 64
      → Step executor_id s t
      → HasSlots n s
      → HasSlots n t
  unfolding poll answered refused finish send
  Step-HasSlots n small (polls e) h = ground arith
  Step-HasSlots n small (answers_nothing rq e) h = ground arith
  Step-HasSlots n small (answers_task rq task_id e can) h = ground arith
  Step-HasSlots n small (refuses rq e) h = ground arith
  Step-HasSlots {s} n small (finishes result before after task_id e) h =
      let fewer = length-without before after s.running task_id e in
      let added : (s.slots + 1) % 2 ^ 64 ≡ s.slots + 1 = omega (arith, h.conserved) in
      record {
        conserved = omega (arith, added, h.conserved);
        room = MayAccept-more _ _ s.request (omega (arith, added)) h.room;
      }
  Step-HasSlots n small (sends before after status e) h = ground arith

  -- From the start, with fewer slots than the counter's range and whatever the threads do: free
  -- slots and running tasks make up the slots that the executor started with, and a poll under way
  -- accepts no task or there is a free slot.
  pub Reach-HasSlots :
      (n : ℕ) {s : ExecutorState} → n < 2 ^ 64 → Reach executor_id (start n) s → HasSlots n s
  unfolding start
  Reach-HasSlots n small here = record { conserved = omega arith; room = tt }
  Reach-HasSlots n small (next r st) = Step-HasSlots n small st (Reach-HasSlots n small r)

  -- The tasks that the scheduler gave in a run.
  pub given_by : {s t : ExecutorState} → Step executor_id s t → ℕ
  given_by (polls e) = 0
  given_by (answers_nothing rq e) = 0
  given_by (answers_task rq task_id e can) = 1
  given_by (refuses rq e) = 0
  given_by (finishes result before after task_id e) = 0
  given_by (sends before after status e) = 0

  pub given : {s t : ExecutorState} → Reach executor_id s t → ℕ
  given here = 0
  given (next r st) = given r + given_by st

  Step-accounts :
      {s t : ExecutorState} (st : Step executor_id s t)
      → length t.running + statuses t ≡ length s.running + statuses s + given_by st
  unfolding poll answered refused finish send given_by
  Step-accounts {s} (polls e) = ground (arith, sample_tasks_status_lem [] s.channel)
  Step-accounts {s} (answers_nothing rq e) =
      ground (arith, length-append s.delivered rq.task_status)
  Step-accounts {s} (answers_task rq task_id e can) =
      ground (arith, length-append s.delivered rq.task_status)
  Step-accounts {s} (refuses rq e) = ground (arith, length-append s.dropped rq.task_status)
  Step-accounts {s} (finishes result before after task_id e) =
      omega (arith, length-without before after s.running task_id e)
  Step-accounts {s} (sends before after status e) = omega (
    arith,
    length-without before after s.finished status e,
    length-append s.channel (status ∷ []),
  )

  -- From the start, whatever the threads do: the tasks that were given are as many as those that
  -- run, with the statuses that are on their way, were delivered, or were dropped with a failed
  -- poll.
  pub Reach-accounts :
      (n : ℕ) {s : ExecutorState} (r : Reach executor_id (start n) s)
      → given r ≡ length s.running + statuses s
  unfolding given start
  Reach-accounts n here = omega arith
  Reach-accounts n (next r st) = omega (arith, Reach-accounts n r, Step-accounts st)
