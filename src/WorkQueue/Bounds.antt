-- ===== src/WorkQueue/Bounds.antt =====
-- src/include/source2root/work_queue.hpp: the queue's capacity, and the rounds of Dispatch.
use source2root.Base.{
  List-cases, Option-cases, Nat-cases, ℕ, ◌≤◌, ◌≡◌, ◌≢◌, inl, inr, arith, Bool, true, Option, none,
  some, List, [], ◌∷◌, ok, length, length-append,
}
use source2root.WorkQueue.{
  Queue, create, submit, take_job, finish_job, begin_dispatch, next_ready, Completion, settle,
  begin_stop, end_stop, erase, pending,
}
use source2root.WorkQueue.Steps.{
  Step, Steps, submits, cancels, takes, finishes, begins, continues, settles, stops, ends, here,
  later,
}

-- The queue is within its capacity, which is at most 1,024, and Dispatch, while it runs, has no more
-- rounds left than jobs are ready.
abbrev pub Within : Queue → Type 0
Within q =
    (length q.jobs ≤ q.capacity)
    × (q.capacity ≤ 1024)
    × (q.dispatching ≡ true → q.remaining ≤ length q.ready)

length-erase : (k : ℕ) (l : List ℕ) → length (erase k l) ≤ length l
length-erase k [] = omega arith
length-erase k (i ∷ l) = ground (arith, length-erase k l)

submit-Within :
    (o c : Bool) (q q' : Queue) (t : Option ℕ) → submit o c q ≡ ok (q', t) → Within q → Within q'
unfolding submit
submit-Within o c q q' t e h = ground (arith, length-append q.jobs (q.next ∷ []))

take_job-Within : (q q' : Queue) → take_job q ≡ some q' → Within q → Within q'
unfolding take_job
take_job-Within q q' e h = elim (List-cases q.waiting) [
  | inl w ↦ let e' = rw w at e in absurd (cc e')
  | inr (k, r, w) ↦ let e' = rw w at e in ground (arith, e')
]

finish_job-Within :
    (k : ℕ) (b : Bool) (q q' : Queue) → finish_job k b q ≡ some q' → Within q → Within q'
unfolding finish_job
finish_job-Within k b q q' e h = ground (arith, length-append q.ready (k ∷ []))

begin_dispatch-Within :
    (o : Bool) (q q' : Queue) → begin_dispatch o q ≡ ok q' → Within q → Within q'
unfolding begin_dispatch
begin_dispatch-Within o q q' e h = ground arith

next_ready-Within :
    (q q' : Queue) → q.dispatching ≡ true → next_ready q ≡ some q' → Within q → Within q'
unfolding next_ready
next_ready-Within q q' d e h = elim (Nat-cases q.remaining) [
  | inl z ↦ let e' = rw z at e in ground (arith, e')
  | inr (m, z) ↦ elim (List-cases q.ready) [
    | inl w ↦ let e' = rw (z, w) at e in absurd (cc e')
    | inr (k, r, w) ↦ let e' = rw (z, w) at e in let h' = rw (z, w) at h in ground (arith, e', h')
  ]
]

settle-Within : (a : Completion) (q q' : Queue) → settle a q ≡ some q' → Within q → Within q'
unfolding settle
settle-Within a q q' e h = elim (Option-cases q.held) [
  | inl n ↦ let e' = rw n at e in absurd (cc e')
  | inr (k, n) ↦
      let e' = rw n at e in
      ground (arith, e', length-append q.ready (k.job ∷ []), length-erase k.job q.jobs)
]

end_stop-Within : (q q' : Queue) → end_stop q ≡ some q' → Within q → Within q'
unfolding end_stop
end_stop-Within q q' e h = ground arith

Step-Within : {q q' : Queue} → Step q q' → Within q → Within q'
unfolding begin_stop
Step-Within (submits {q} {q'} o c t e) h = submit-Within o c q q' t e h
Step-Within (cancels k) h = h
Step-Within (takes {q} {q'} e) h = take_job-Within q q' e h
Step-Within (finishes {q} {q'} k b e) h = finish_job-Within k b q q' e h
Step-Within (begins {q} {q'} o n e) h = begin_dispatch-Within o q q' e h
Step-Within (continues {q} {q'} d n e) h = next_ready-Within q q' d e h
Step-Within (settles {q} {q'} a e) h = settle-Within a q q' e h
Step-Within (stops n) h = h
Step-Within (ends {q} {q'} n e) h = end_stop-Within q q' e h

Steps-Within : {q q' : Queue} → Steps q q' → Within q → Within q'
Steps-Within here h = h
Steps-Within (later s r) h = Steps-Within r (Step-Within s h)

create-Within : (workers capacity : ℕ) (q : Queue) → create workers capacity ≡ ok q → Within q
unfolding create
create-Within workers capacity q e = ground arith

next_ready-some : (q : Queue) → Within q → q.dispatching ≡ true → next_ready q ≢ none
unfolding next_ready
next_ready-some q h d e = elim (Nat-cases q.remaining) [
  | inl z ↦ let e' = rw z at e in ground (arith, e')
  | inr (m, z) ↦ elim (List-cases q.ready) [
    | inl w ↦ let h' = rw (z, w) at h in ground (arith, h', d)
    | inr (k, r, w) ↦ let e' = rw (z, w) at e in ground (arith, e')
  ]
]

-- In every state that the threads reach, in any order, the pending jobs are within the capacity, which
-- is at most 1,024.
pub reachable_within :
    (workers capacity : ℕ) {q q' : Queue}
    → create workers capacity ≡ ok q
    → Steps q q'
    → (pending q' ≤ q'.capacity) × (pending q' ≤ 1024)
reachable_within workers capacity {q} {q'} e s =
    let h : Within q' = Steps-Within s (create-Within workers capacity q e) in (h.0, omega arith)

-- In every state that the threads reach, in any order, a Dispatch that runs finds a ready job for
-- each round that it has left: it never takes one from an empty list.
pub dispatch_finds_job :
    (workers capacity : ℕ) {q q' : Queue}
    → create workers capacity ≡ ok q
    → Steps q q'
    → q'.dispatching ≡ true
    → next_ready q' ≢ none
dispatch_finds_job workers capacity {q} {q'} e s d =
    next_ready-some q' (Steps-Within s (create-Within workers capacity q e)) d
