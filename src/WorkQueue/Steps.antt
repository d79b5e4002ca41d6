-- ===== src/WorkQueue/Steps.antt =====
-- src/include/source2root/work_queue.hpp: what the threads may do next, and what they reach.
use source2root.Base.{ℕ, ◌≡◌, Bool, true, Option, none, some, ok}
use source2root.WorkQueue.{
  Queue, cancel, submit, take_job, finish_job, begin_dispatch, next_ready, Completion, settle,
  begin_stop, end_stop,
}

-- One step of one thread. Dispatch is one thread's: its loop goes on where no job is held.
pub data Step : Queue → Queue → Type 0 where
  submits :
      {q q' : Queue} (owner complete : Bool) (ticket : Option ℕ)
      → submit owner complete q ≡ ok (q', ticket)
      → Step q q'
  cancels : {q : Queue} (j : ℕ) → Step q (cancel j q)
  takes : {q q' : Queue} → take_job q ≡ some q' → Step q q'
  finishes : {q q' : Queue} (j : ℕ) (threw : Bool) → finish_job j threw q ≡ some q' → Step q q'
  begins :
      {q q' : Queue} (owner : Bool) → q.held ≡ none → begin_dispatch owner q ≡ ok q' → Step q q'
  continues :
      {q q' : Queue} → q.dispatching ≡ true → q.held ≡ none → next_ready q ≡ some q' → Step q q'
  settles : {q q' : Queue} (answer : Completion) → settle answer q ≡ some q' → Step q q'
  stops : {q : Queue} → q.held ≡ none → Step q (begin_stop q)
  ends : {q q' : Queue} → q.held ≡ none → end_stop q ≡ some q' → Step q q'

pub data Steps : Queue → Queue → Type 0 where
  here : {q : Queue} → Steps q q
  later : {q q' q'' : Queue} → Step q q' → Steps q' q'' → Steps q q''
