-- ===== src/WorkQueue/Places.antt =====
-- src/include/source2root/work_queue.hpp: where the jobs are.
use source2root.Base.{
  List-cases, Option-cases, Nat-cases, ℕ, ◌+◌, ◌≤◌, ◌≡◌, inl, inr, arith, Bool, Option, none, some,
  List, [], ◌∷◌, ◌++◌, ok, if◌then◌else◌, ◌==◌,
}
use source2root.WorkQueue.{
  Queue, Held, create, submit, take_job, finish_job, begin_dispatch, next_ready, Completion, settle,
  begin_stop, end_stop, occurrences, erase,
}
use source2root.WorkQueue.Steps.{
  Step, Steps, submits, cancels, takes, finishes, begins, continues, settles, stops, ends, here,
  later,
}

pub occurrences-append :
    (j : ℕ) (a b : List ℕ) → occurrences j (a ++ b) ≡ occurrences j a + occurrences j b
occurrences-append j [] b = omega arith
occurrences-append j (k ∷ a) b = ground (arith, occurrences-append j a b)

occurrences-erase :
    (j k : ℕ) (l : List ℕ) → occurrences j (erase k l) ≡ (if k == j then 0 else occurrences j l)
occurrences-erase j k [] = ground arith
occurrences-erase j k (i ∷ l) = ground (arith, occurrences-erase j k l)

abbrev pub occurrences_held : ℕ → Option Held → ℕ
occurrences_held j none = 0
occurrences_held j (some h) = if h.job == j then 1 else 0

-- The number of places that job `j` is in
abbrev pub places : ℕ → Queue → ℕ
places j q =
    occurrences j q.waiting
    + occurrences j q.running
    + occurrences_held j q.held
    + occurrences j q.ready

-- A job is pending once or not at all; it then is in exactly one place; and it has been submitted.
abbrev pub InPlace : ℕ → Queue → Type 0
InPlace j q =
    (occurrences j q.jobs ≡ places j q)
    × (occurrences j q.jobs ≤ 1)
    × (q.next ≤ j → occurrences j q.jobs ≡ 0)

submit-InPlace :
    (j : ℕ) (o c : Bool) (q q' : Queue) (t : Option ℕ)
    → submit o c q ≡ ok (q', t)
    → InPlace j q
    → InPlace j q'
unfolding submit
submit-InPlace j o c q q' t e h =
    ground (
      arith,
      occurrences-append j q.jobs (q.next ∷ []),
      occurrences-append j q.waiting (q.next ∷ []),
    )

take_job-InPlace : (j : ℕ) (q q' : Queue) → take_job q ≡ some q' → InPlace j q → InPlace j q'
unfolding take_job
take_job-InPlace j q q' e h = elim (List-cases q.waiting) [
  | inl w ↦ let e' = rw w at e in absurd (cc e')
  | inr (k, r, w) ↦
      let e' = rw w at e in
      let h' = rw w at h in ground (arith, e', h', occurrences-append j q.running (k ∷ []))
]

finish_job-InPlace :
    (j k : ℕ) (b : Bool) (q q' : Queue) → finish_job k b q ≡ some q' → InPlace j q → InPlace j q'
unfolding finish_job
finish_job-InPlace j k b q q' e h =
    ground (arith, occurrences-append j q.ready (k ∷ []), occurrences-erase j k q.running)

next_ready-InPlace :
    (j : ℕ) (q q' : Queue) → q.held ≡ none → next_ready q ≡ some q' → InPlace j q → InPlace j q'
unfolding next_ready
next_ready-InPlace j q q' n e h = elim (Nat-cases q.remaining) [
  | inl z ↦ let e' = rw z at e in ground (arith, e')
  | inr (m, z) ↦ elim (List-cases q.ready) [
    | inl w ↦ let e' = rw (z, w) at e in absurd (cc e')
    | inr (k, r, w) ↦ let e' = rw (z, w) at e in let h' = rw (n, w) at h in ground (arith, e', h')
  ]
]

settle-InPlace :
    (j : ℕ) (a : Completion) (q q' : Queue) → settle a q ≡ some q' → InPlace j q → InPlace j q'
unfolding settle
settle-InPlace j a q q' e h = elim (Option-cases q.held) [
  | inl n ↦ let e' = rw n at e in absurd (cc e')
  | inr (k, n) ↦
      let e' = rw n at e in
      let h' = rw n at h in
      ground
        (arith, e', h', occurrences-append j q.ready (k.job ∷ []), occurrences-erase j k.job q.jobs)
]

begin_dispatch-InPlace :
    (j : ℕ) (o : Bool) (q q' : Queue) → begin_dispatch o q ≡ ok q' → InPlace j q → InPlace j q'
unfolding begin_dispatch
begin_dispatch-InPlace j o q q' e h = ground arith

end_stop-InPlace :
    (j : ℕ) (q q' : Queue) → q.held ≡ none → end_stop q ≡ some q' → InPlace j q → InPlace j q'
unfolding end_stop
end_stop-InPlace j q q' n e h = elim (List-cases q.waiting) [
  | inr (k, r, w) ↦ let e' = rw w at e in ground (arith, e')
  | inl w ↦ elim (List-cases q.running) [
    | inr (k, r, v) ↦ let e' = rw (w, v) at e in ground (arith, e')
    | inl v ↦
        let e' = rw (w, v) at e in let h' = rw (n, w, v) at h in ground (arith, e', h', n, w, v)
  ]
]

Step-InPlace : (j : ℕ) {q q' : Queue} → Step q q' → InPlace j q → InPlace j q'
unfolding begin_stop
Step-InPlace j (submits {q} {q'} o c t e) h = submit-InPlace j o c q q' t e h
Step-InPlace j (cancels k) h = h
Step-InPlace j (takes {q} {q'} e) h = take_job-InPlace j q q' e h
Step-InPlace j (finishes {q} {q'} k b e) h = finish_job-InPlace j k b q q' e h
Step-InPlace j (begins {q} {q'} o n e) h = begin_dispatch-InPlace j o q q' e h
Step-InPlace j (continues {q} {q'} d n e) h = next_ready-InPlace j q q' n e h
Step-InPlace j (settles {q} {q'} a e) h = settle-InPlace j a q q' e h
Step-InPlace j (stops n) h = h
Step-InPlace j (ends {q} {q'} n e) h = end_stop-InPlace j q q' n e h

Steps-InPlace : (j : ℕ) {q q' : Queue} → Steps q q' → InPlace j q → InPlace j q'
Steps-InPlace j here h = h
Steps-InPlace j (later s r) h = Steps-InPlace j r (Step-InPlace j s h)

create-InPlace : (j workers capacity : ℕ) (q : Queue) → create workers capacity ≡ ok q → InPlace j q
unfolding create
create-InPlace j workers capacity q e = ground arith

-- In every state that the threads reach, in any order, a job is in exactly one place (it waits, a
-- worker runs it, it is ready, or Dispatch holds it) as long as it is pending, and in none before
-- and after; and it is pending at most once.
pub reachable_in_one_place :
    (j workers capacity : ℕ) {q q' : Queue}
    → create workers capacity ≡ ok q
    → Steps q q'
    → (occurrences j q'.jobs ≡ places j q') × (places j q' ≤ 1)
reachable_in_one_place j workers capacity {q} e s =
    let (same, once, fresh) = Steps-InPlace j s (create-InPlace j workers capacity q e) in
    (same, omega arith)
