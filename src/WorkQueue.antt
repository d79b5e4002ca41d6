-- ===== src/WorkQueue.antt =====
-- src/include/source2root/work_queue.hpp: jobs that worker threads run and the owner completes.
-- A function here is one section under the queue's mutex, or one call between two; threads
-- interleave them in any order.
pub mod Steps
pub mod Places
pub mod Bounds
pub mod Cancels
mod Tests
use source2root.Base.{
  ℕ, zero, suc, ◌+◌, ◌&&◌, ◌||◌, Bool, true, false, not, Option, none, some, List, [], ◌∷◌, ◌++◌,
  Result, ok, err, ◌>>=◌, ◌>>◌, throw_if, if◌then◌else◌, ltb, leb, ◌==◌, is_nil, length,
}

pub data QueueError : Type 0 where
  invalid_limits wrong_thread missing_function is_stopping recursive_dispatch : QueueError

-- How often a job is in a list
abbrev pub occurrences : ℕ → List ℕ → ℕ
occurrences j [] = 0
occurrences j (k ∷ r) = let rest = occurrences j r in if k == j then suc rest else rest

-- std::erase
abbrev pub erase : ℕ → List ℕ → List ℕ
erase j [] = []
erase j (k ∷ r) = let rest = erase j r in if k == j then rest else k ∷ rest

abbrev pub among : ℕ → List ℕ → Bool
among j l = ltb 0 (occurrences j l)

-- The job that Dispatch has taken from `ready`, and whether it calls the job's completion.
pub record Held : Type 0 where
  pub job : ℕ
  pub called : Bool

-- WorkQueue. A job is its number in the order of Submit. `running` holds the jobs that workers have
-- taken; `remaining` is the local of Dispatch; `canceled` and `failed` are the flags of the jobs.
pub record Queue : Type 0 where
  pub capacity : ℕ
  pub next : ℕ
  pub jobs : List ℕ
  pub waiting : List ℕ
  pub running : List ℕ
  pub ready : List ℕ
  pub held : Option Held
  pub remaining : ℕ
  pub dispatching : Bool
  pub stopping : Bool
  pub canceled : List ℕ
  pub failed : List ℕ

-- The constructor
unfoldable pub create : ℕ → ℕ → Result QueueError Queue
create workers capacity =
    throw_if (workers == 0 || ltb 8 workers || capacity == 0 || ltb 1024 capacity)
      QueueError.invalid_limits
    >> ok (record {
      capacity = capacity;
      next = 0;
      jobs = [];
      waiting = [];
      running = [];
      ready = [];
      held = none;
      remaining = 0;
      dispatching = false;
      stopping = false;
      canceled = [];
      failed = [];
    })

-- Ticket::Cancel and ~Ticket
abbrev pub cancel : ℕ → Queue → Queue
cancel j q = record q { canceled = j ∷ q.canceled }

-- Submit: whether the owner's thread calls it, and whether both functions are there. No ticket is
-- given where the queue is full.
unfoldable pub submit : Bool → Bool → Queue → Result QueueError (Queue × Option ℕ)
submit owner complete q = do
  throw_if (not owner) QueueError.wrong_thread
  throw_if (not complete) QueueError.missing_function
  throw_if q.stopping QueueError.is_stopping
  (if leb q.capacity (length q.jobs)
      then ok (q, none)
      else ok (
        record q {
          next = suc q.next;
          jobs = q.jobs ++ q.next ∷ [];
          waiting = q.waiting ++ q.next ∷ [];
        },
        some q.next,
      ))

-- Run: a worker takes the job at the front. Without one it waits, or returns where the queue stops.
unfoldable pub take_job : Queue → Option Queue
take_job q = elim q.waiting [
  | [] ↦ none
  | j ∷ r ↦ some (record q { waiting = r; running = q.running ++ j ∷ [] })
]

-- Run: the worker that holds `j` is done; `threw` tells that it called the work, which threw. Whether
-- it calls the work is read between this section and the one above, from the job's flag.
unfoldable pub finish_job : ℕ → Bool → Queue → Option Queue
finish_job j threw q =
    if among j q.running
    then some (record q {
      running = erase j q.running;
      ready = q.ready ++ j ∷ [];
      failed = if threw then j ∷ q.failed else q.failed;
    })
    else none

-- Dispatch, up to its loop
unfoldable pub begin_dispatch : Bool → Queue → Result QueueError Queue
begin_dispatch owner q = do
  throw_if (not owner) QueueError.wrong_thread
  throw_if q.dispatching QueueError.recursive_dispatch
  ok (record q { dispatching = true; remaining = length q.ready })

-- Dispatch, the head of its loop: the next job is taken, or the loop ends.
unfoldable pub next_ready : Queue → Option Queue
next_ready q = elim q.remaining [
  | zero ↦ some (record q { dispatching = false })
  | suc n ↦ elim q.ready [
    | [] ↦ none
    | j ∷ r ↦ some (record q {
      ready = r;
      remaining = n;
      held = some (record { job = j; called = not (among j q.canceled) });
    })
  ]
]

-- What a completion does
pub data Completion : Type 0 where
  consumed retained thrown : Completion

abbrev is_consumed : Completion → Bool
is_consumed Completion.retained = false
is_consumed _ = true

abbrev is_thrown : Completion → Bool
is_thrown Completion.thrown = true
is_thrown _ = false

-- Dispatch, the end of a round, after the completion where it is called. What it threw leaves
-- Dispatch.
unfoldable pub settle : Completion → Queue → Option Queue
settle answer q = elim q.held [
  | none ↦ none
  | some h ↦
      let gone = not h.called || is_consumed answer || among h.job q.canceled in
      let left = h.called && is_thrown answer in
      some (record q {
        held = none;
        jobs = if gone then erase h.job q.jobs else q.jobs;
        ready = if gone then q.ready else q.ready ++ h.job ∷ [];
        remaining = if left then 0 else q.remaining;
        dispatching = if left then false else q.dispatching;
      })
]

-- Pending
abbrev pub pending : Queue → ℕ
pending q = length q.jobs

-- Stop, its first section
unfoldable pub begin_stop : Queue → Queue
begin_stop q = record q { stopping = true; canceled = q.jobs ++ q.canceled }

-- Stop, once every worker has returned, which it does when the queue is stopping and nothing waits.
-- The owner destroys the queue outside of Dispatch.
unfoldable pub end_stop : Queue → Option Queue
end_stop q =
    if q.stopping && is_nil q.waiting && is_nil q.running && not q.dispatching
    then some (record q { waiting = []; ready = []; jobs = [] })
    else none
