-- ===== src/WorkQueue/Cancels.antt =====
-- src/include/source2root/work_queue.hpp: what a ticket's Cancel promises.
use source2root.Base.{
  List-cases, Option-cases, Nat-cases, ℕ, ◌≡◌, inl, inr, arith, Bool, true, false, Option, none,
  some, ok, ◌==◌, ◌&&◌,
}
use source2root.WorkQueue.{
  Queue, Held, cancel, submit, take_job, finish_job, begin_dispatch, next_ready, Completion, settle,
  begin_stop, end_stop, among,
}
use source2root.WorkQueue.Places.{occurrences-append}
use source2root.WorkQueue.Steps.{
  Step, Steps, submits, cancels, takes, finishes, begins, continues, settles, stops, ends, here,
  later,
}

-- Whether Dispatch is in the call of the job's completion
abbrev pub in_completion : ℕ → Option Held → Bool
in_completion j none = false
in_completion j (some h) = h.called && h.job == j

-- The job is canceled, and its completion is not being called.
abbrev pub IsCanceled : ℕ → Queue → Type 0
IsCanceled j q = (among j q.canceled ≡ true) × (in_completion j q.held ≡ false)

submit-IsCanceled :
    (j : ℕ) (o c : Bool) (q q' : Queue) (t : Option ℕ)
    → submit o c q ≡ ok (q', t)
    → IsCanceled j q
    → IsCanceled j q'
unfolding submit
submit-IsCanceled j o c q q' t e h = ground arith

take_job-IsCanceled :
    (j : ℕ) (q q' : Queue) → take_job q ≡ some q' → IsCanceled j q → IsCanceled j q'
unfolding take_job
take_job-IsCanceled j q q' e h = elim (List-cases q.waiting) [
  | inl w ↦ let e' = rw w at e in absurd (cc e')
  | inr (k, r, w) ↦ let e' = rw w at e in ground (arith, e')
]

finish_job-IsCanceled :
    (j k : ℕ) (b : Bool) (q q' : Queue)
    → finish_job k b q ≡ some q'
    → IsCanceled j q
    → IsCanceled j q'
unfolding finish_job
finish_job-IsCanceled j k b q q' e h = ground arith

begin_dispatch-IsCanceled :
    (j : ℕ) (o : Bool) (q q' : Queue)
    → begin_dispatch o q ≡ ok q'
    → IsCanceled j q
    → IsCanceled j q'
unfolding begin_dispatch
begin_dispatch-IsCanceled j o q q' e h = ground arith

next_ready-IsCanceled :
    (j : ℕ) (q q' : Queue) → next_ready q ≡ some q' → IsCanceled j q → IsCanceled j q'
unfolding next_ready
next_ready-IsCanceled j q q' e h = elim (Nat-cases q.remaining) [
  | inl z ↦ let e' = rw z at e in ground (arith, e')
  | inr (m, z) ↦ elim (List-cases q.ready) [
    | inl w ↦ let e' = rw (z, w) at e in absurd (cc e')
    | inr (k, r, w) ↦ let e' = rw (z, w) at e in ground (arith, e')
  ]
]

settle-IsCanceled :
    (j : ℕ) (a : Completion) (q q' : Queue)
    → settle a q ≡ some q'
    → IsCanceled j q
    → IsCanceled j q'
unfolding settle
settle-IsCanceled j a q q' e h = elim (Option-cases q.held) [
  | inl n ↦ let e' = rw n at e in absurd (cc e')
  | inr (k, n) ↦ let e' = rw n at e in ground (arith, e')
]

end_stop-IsCanceled :
    (j : ℕ) (q q' : Queue) → end_stop q ≡ some q' → IsCanceled j q → IsCanceled j q'
unfolding end_stop
end_stop-IsCanceled j q q' e h = ground arith

Step-IsCanceled : (j : ℕ) {q q' : Queue} → Step q q' → IsCanceled j q → IsCanceled j q'
unfolding begin_stop
Step-IsCanceled j (submits {q} {q'} o c t e) h = submit-IsCanceled j o c q q' t e h
Step-IsCanceled j (cancels {q} k) h = ground arith
Step-IsCanceled j (takes {q} {q'} e) h = take_job-IsCanceled j q q' e h
Step-IsCanceled j (finishes {q} {q'} k b e) h = finish_job-IsCanceled j k b q q' e h
Step-IsCanceled j (begins {q} {q'} o n e) h = begin_dispatch-IsCanceled j o q q' e h
Step-IsCanceled j (continues {q} {q'} d n e) h = next_ready-IsCanceled j q q' e h
Step-IsCanceled j (settles {q} {q'} a e) h = settle-IsCanceled j a q q' e h
Step-IsCanceled j (stops {q} n) h = ground (arith, occurrences-append j q.jobs q.canceled)
Step-IsCanceled j (ends {q} {q'} n e) h = end_stop-IsCanceled j q q' e h

Steps-IsCanceled : (j : ℕ) {q q' : Queue} → Steps q q' → IsCanceled j q → IsCanceled j q'
Steps-IsCanceled j here h = h
Steps-IsCanceled j (later s r) h = Steps-IsCanceled j r (Step-IsCanceled j s h)

-- Once a job's ticket is canceled or dropped, outside of the job's own completion, no Dispatch calls
-- its completion, whatever the threads do.
pub canceled_never_called :
    (j : ℕ) {q q' : Queue}
    → in_completion j q.held ≡ false
    → Steps (cancel j q) q'
    → in_completion j q'.held ≡ false
canceled_never_called j {q} {q'} n s =
    let start : IsCanceled j (cancel j q) = ground arith in (Steps-IsCanceled j s start).1

-- Once Stop has begun, while Dispatch holds no job, no completion of a job that was pending then is
-- called, whatever the threads do.
pub stopped_never_called :
    (j : ℕ) (q : Queue) {q' : Queue}
    → among j q.jobs ≡ true
    → q.held ≡ none
    → Steps (begin_stop q) q'
    → in_completion j q'.held ≡ false
unfolding begin_stop
stopped_never_called j q {q'} p n s =
    let start : IsCanceled j (begin_stop q) =
      ground (arith, n, occurrences-append j q.jobs q.canceled) in
    (Steps-IsCanceled j s start).1
