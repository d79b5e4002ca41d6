-- ===== src/Preferences/Service/Worker.antt =====
-- src/extensions/clientprefs/service.cpp: the one worker of the queue, which runs the oldest task
-- that it has not run.
use source2root.Base.{
  ℕ, ◌≡◌, ◌≢◌, ◌⊎◌, inl, inr, refl, true, false, List, [], ◌∷◌, ◌++◌, map, if◌then◌else◌, ◌==◌,
  arith, Bool-cases, ==_refl, ==-false_of_ne,
}
use source2root.Base.Text.{Bytes}
use source2root.Preferences.{Task}
use source2root.Preferences.Storage.{Storage, work, work_next}
use source2root.Preferences.Service.{
  Job, account_job, register_job, registered_job, catalog_job, catalogued_job, job_done,
}

-- The tasks of one account, in their order
abbrev pub tasks_of : ℕ → List Job → List Task
tasks_of id [] = []
tasks_of id (account_job i t ∷ r) = let rest = tasks_of id r in if i == id then t ∷ rest else rest
tasks_of id (register_job i d ∷ r) = tasks_of id r
tasks_of id (registered_job i f ∷ r) = tasks_of id r
tasks_of id (catalog_job ∷ r) = tasks_of id r
tasks_of id (catalogued_job d ∷ r) = tasks_of id r

pub tasks_of-append :
    (id i : ℕ) (q : List Job) (ts : List Task)
    → tasks_of id (q ++ map (account_job i) ts)
      ≡ (if i == id then tasks_of id q ++ ts else tasks_of id q)
tasks_of-append id i [] ts = added ts
  where
    added : (ts : List Task) → tasks_of id (map (account_job i) ts) ≡ (if i == id then ts else [])
    added [] = ground arith
    added (t ∷ r) = ground (arith, added r)
tasks_of-append id i (account_job j t ∷ r) ts = ground (arith, tasks_of-append id i r ts)
tasks_of-append id i (register_job j d ∷ r) ts = tasks_of-append id i r ts
tasks_of-append id i (registered_job j f ∷ r) ts = tasks_of-append id i r ts
tasks_of-append id i (catalog_job ∷ r) ts = tasks_of-append id i r ts
tasks_of-append id i (catalogued_job d ∷ r) ts = tasks_of-append id i r ts

pub tasks_of-queue :
    (id : ℕ) (q r : List Job) → tasks_of id (q ++ r) ≡ tasks_of id q ++ tasks_of id r
tasks_of-queue id [] r = refl
tasks_of-queue id (account_job j t ∷ q) r = ground (arith, tasks_of-queue id q r)
tasks_of-queue id (register_job j d ∷ q) r = tasks_of-queue id q r
tasks_of-queue id (registered_job j f ∷ q) r = tasks_of-queue id q r
tasks_of-queue id (catalog_job ∷ q) r = tasks_of-queue id q r
tasks_of-queue id (catalogued_job d ∷ q) r = tasks_of-queue id q r

module _ {S : Type 0} (storage : Storage S) where
  -- One task of the queue
  unfoldable pub work_job : Job → S → S × Job
  work_job (account_job id t) s = let r = work storage id t s in (r.0, account_job id r.1)
  work_job (register_job i d) s = let r = storage.register_cookie s d in (r.0, registered_job i r.1)
  work_job (registered_job i f) s = (s, registered_job i f)
  work_job catalog_job s = (s, catalogued_job (storage.stored_catalog s))
  work_job (catalogued_job r) s = (s, catalogued_job r)

  unfoldable pub next_job : S → List Job → S × List Job
  next_job s [] = (s, [])
  next_job s (j ∷ r) =
      let rest = next_job s r in
      if job_done j then (rest.0, j ∷ rest.1) else (let done = work_job j s in (done.0, done.1 ∷ r))

  -- The worker has run the next task of one account, or none of any account.
  abbrev pub RanFor : S → List Job → S → List Job → ℕ → Type 0
  RanFor s jobs s' jobs' id =
      (s' ≡ (work_next storage id s (tasks_of id jobs)).0)
      × (tasks_of id jobs' ≡ (work_next storage id s (tasks_of id jobs)).1)
      × ((i : ℕ) → id ≢ i → tasks_of i jobs' ≡ tasks_of i jobs)

  abbrev pub RanNone : S → List Job → S → List Job → Type 0
  RanNone s jobs s' jobs' =
      ((i : ℕ) → tasks_of i jobs' ≡ tasks_of i jobs)
      × ((i : ℕ) (n : Bytes) → storage.stored s' i n ≡ storage.stored s i n)

  abbrev pub Ran : S → List Job → S → List Job → Type 0
  Ran s jobs s' jobs' = ((id : ℕ) × RanFor s jobs s' jobs' id) ⊎ RanNone s jobs s' jobs'

  -- A done task before the others changes nothing.
  next_behind :
      (s s' : S) (j : Job) (r r' : List Job)
      → job_done j ≡ true
      → Ran s r s' r'
      → Ran s (j ∷ r) s' (j ∷ r')
  unfolding work_next
  next_behind s s' (account_job i t) r r' d (inl (id, (e, ts, others))) =
      elim (Bool-cases (i == id)) [
        | inl q ↦ inl (id, (rw (q, d) e, rw (q, d, ts) refl, λ k ne. rw (others k ne) refl))
        | inr q ↦ inl (id, (rw q e, rw q ts, λ k ne. rw (others k ne) refl))
      ]
  next_behind s s' (account_job i t) r r' d (inr (ts, e)) = inr (λ k. rw (ts k) refl, e)
  next_behind s s' (register_job i x) r r' d h = absurd (cc d)
  next_behind s s' (registered_job i f) r r' d h = h
  next_behind s s' catalog_job r r' d h = absurd (cc d)
  next_behind s s' (catalogued_job x) r r' d h = h

  next_here :
      (s : S) (j : Job) (r : List Job)
      → job_done j ≡ false
      → Ran s (j ∷ r) (work_job j s).0 ((work_job j s).1 ∷ r)
  unfolding work_job work_next
  next_here s (account_job i t) r d =
      inl (
        i,
        (rw (==_refl i, d) refl, rw (==_refl i, d) refl, λ k ne. rw (==-false_of_ne i k ne) refl),
      )
  next_here s (register_job i x) r d = inr ((λ k. refl), λ k n. storage.register_lem s x k n)
  next_here s (registered_job i f) r d = absurd (cc d)
  next_here s catalog_job r d = inr ((λ k. refl), λ k n. refl)
  next_here s (catalogued_job x) r d = absurd (cc d)

  pub next_job-Ran : (s : S) (jobs : List Job) → Ran s jobs (next_job s jobs).0 (next_job s jobs).1
  unfolding next_job
  next_job-Ran s [] = inr ((λ i. refl), λ i n. refl)
  next_job-Ran s (j ∷ r) = elim (Bool-cases (job_done j)) [
    | inl d ↦ rw d (next_behind s (next_job s r).0 j r (next_job s r).1 d (next_job-Ran s r))
    | inr d ↦ rw d (next_here s j r d)
  ]
