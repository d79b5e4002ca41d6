-- ===== src/Preferences/Service/Calls.antt =====
-- src/extensions/clientprefs/service.cpp: the operations that are no write keep every preference.
use source2root.Base.{
  ℕ, ◌≡◌, ◌⊎◌, inl, inr, refl, sym, ◌∙◌, Bool, true, false, not, ◌||◌, none, some, List, [], ◌∷◌,
  ◌++◌, if◌then◌else◌, ◌==◌, ==_iff, ==_refl, arith, Bool-cases, Option-cases, is_nil, if-either,
  Result, ok, err, ◌>>=◌, throw_if,
}
use source2root.Base.Text.{Bytes}
use source2root.Base.Table.{lookup, nat_key}
use source2root.Base.Table.Laws.{Distinct-put}
use source2root.Preferences.{Account, Task, ServiceError, new_account, completed, load, save}
use source2root.Preferences.Invariant.{Stored, current, IsSound}
use source2root.Preferences.Invariant.Submits.{
  IsSound-save, IsSound-load, current-save, current-load,
}
use source2root.Preferences.Invariant.Completes.{IsSound-completed, current-completed}
use source2root.Preferences.Service.{
  current_account, Service, Identity, Job, account_job, register_job, registered_job, catalog_job,
  catalogued_job, evict, on_account, each_account, ids, save_again, retry_writes, retry_load,
  refresh, guarded, Outcome, room, complete, job_done, with_queue, dispatched, dispatch, pump,
}
use source2root.Preferences.Catalog.{is_failed}
use source2root.Preferences.Service.Worker.{tasks_of}
use source2root.Preferences.Service.Sound.{
  account_of, account_of-put, view, IsSoundService, Keeps, Keeps-trans, Keeps-submitting,
  Keeps-evict, no_tasks,
}

-- What holds where an exception is thrown, and where none is, holds of the outcome.
pub guarded-either {ℓ} :
    {A : Type 0} (P : Outcome → Type ℓ) (w : Service) (r : Result ServiceError A) (f : A → Outcome)
    → ((e : ServiceError) → P (w, some e))
    → ((a : A) → r ≡ ok a → P (f a))
    → P (guarded w r f)
guarded-either P w (ok a) f bad good = good a refl
guarded-either P w (err e) f bad good = bad e

module _ (st : ℕ → Stored) where
  pub Keeps-refl : (w : Service) → Keeps st w w
  Keeps-refl w h = (h, λ id n. refl)

  -- An operation on an account, which may submit tasks
  abbrev Harmless : (Account → Account × List Task) → Type 0
  Harmless f =
      (a : Account) (s : Stored)
      → ((ts : List Task) → IsSound a s ts → IsSound (f a).0 s (ts ++ (f a).1))
        × ((n : Bytes) → current (f a).0 s n ≡ current a s n)

  Harmless-save : (b : Bool) → Harmless (save b)
  Harmless-save b a s = (λ ts h. IsSound-save a s ts h b, current-save b a s)

  Harmless-load : (b : Bool) → Harmless (load b)
  Harmless-load b a s = (λ ts h. IsSound-load a s ts h b, current-load b a s)

  Harmless-save_again : (b : Bool) → Harmless (save_again b)
  Harmless-save_again b a s = (
    λ ts h. IsSound-save (record a { write_failed = false }) s ts (again ts h) b,
    λ n. current-save b (record a { write_failed = false }) s n ∙ unfold current in refl,
  )
    where
      again : (ts : List Task) → IsSound a s ts → IsSound (record a { write_failed = false }) s ts
      again ts h = record {
        dirty_distinct = h.dirty_distinct;
        dirty_within = h.dirty_within;
        batches = h.batches;
        snapshots = h.snapshots;
        in_order = h.in_order;
        loads_flag = h.loads_flag;
        saves_flag = h.saves_flag;
        cached = unfold current in h.cached;
      }

  Keeps-on_account :
      (id : ℕ) (f : Account → Account × List Task) (w : Service)
      → Harmless f
      → Keeps st w (on_account id f w)
  Keeps-on_account id f w safe h = go (Option-cases (lookup id w.accounts))
    where
      go :
          (lookup id w.accounts ≡ none) ⊎ ((a : Account) × (lookup id w.accounts ≡ some a))
          → IsSoundService (on_account id f w) st
            × ((j : ℕ) (n : Bytes) → view (on_account id f w) st j n ≡ view w st j n)
      go (inl e) = rw (e, on_account) (h, λ id n. refl)
      go (inr (a, e)) =
          let cached : account_of id w.accounts ≡ a = rw e refl in
          rw (e, on_account)
            (Keeps-submitting st id (f a) w (λ s ts. rw cached ((safe a s).0 ts))
              (λ s. rw cached (safe a s).1) h)

  Keeps-each_account :
      (f : Bool → Account → Account × List Task) (l : List ℕ) (w : Service)
      → ((b : Bool) → Harmless (f b))
      → Keeps st w (each_account f l w)
  unfolding each_account
  Keeps-each_account f [] w safe = Keeps-refl w
  Keeps-each_account f (id ∷ rest) w safe =
      Keeps-trans st w (on_account id (f (room w)) w)
        (each_account f rest (on_account id (f (room w)) w))
        (Keeps-on_account id (f (room w)) w (safe (room w)))
        (Keeps-each_account f rest (on_account id (f (room w)) w) safe)

  pub Keeps-retry_writes : (w : Service) → Keeps st w (retry_writes w)
  unfolding retry_writes
  Keeps-retry_writes w = Keeps-each_account save_again (ids w.accounts) w Harmless-save_again

  pub Keeps-retry_load : (p : Identity) (w : Service) → Keeps st w (retry_load p w).0
  unfolding retry_load
  Keeps-retry_load p w =
      guarded-either (λ o. Keeps st w o.0) w (current_account p w)
        (λ a. (if is_failed a.state then on_account p.account (load (room w)) w else w, none))
        (λ e. Keeps-refl w)
        λ a e.
          if-either (Keeps st w) (is_failed a.state)
            (λ q. Keeps-on_account p.account (load (room w)) w (Harmless-load (room w)))
            (λ q. Keeps-refl w)

  pub Keeps-refresh : (p : Identity) (w : Service) → Keeps st w (refresh p w).0
  unfolding refresh
  Keeps-refresh p w =
      guarded-either (λ o. Keeps st w o.0) w
        (current_account p w >>= λ a.
          throw_if (a.loading || a.saving || not (is_nil a.dirty)) ServiceError.not_idle)
        (λ u. (on_account p.account (load (room w)) w, none)) (λ e. Keeps-refl w)
        λ u e. Keeps-on_account p.account (load (room w)) w (Harmless-load (room w))

  -- Another catalog or other players
  pub Keeps-same :
      (w w' : Service)
      → w'.accounts ≡ w.accounts
      → ((id : ℕ) → tasks_of id w'.queue ≡ tasks_of id w.queue)
      → Keeps st w w'
  Keeps-same w w' e t h = (
    record { each_sound = λ id. rw (e, t id) (h.each_sound id); distinct = rw e h.distinct },
    λ id n. rw e refl,
  )

  -- One completion: its account is there, since an account with tasks is never evicted.
  Keeps-complete :
      (j : Job) (rest : List Job) (w : Service)
      → w.queue ≡ j ∷ rest
      → job_done j ≡ true
      → Keeps st w (complete j (with_queue rest w))
  Keeps-complete (account_job id t) rest w q d h = go (Option-cases (lookup id w.accounts))
    where
      before :
          (i : ℕ)
          → IsSound
              (account_of i w.accounts)
              (st i)
              (if id == i then t ∷ tasks_of i rest else tasks_of i rest)
      before i = let sound = h.each_sound i in rw q at sound

      mine : IsSound (account_of id w.accounts) (st id) (t ∷ tasks_of id rest)
      mine = let sound = before id in rw (==_refl id) at sound

      some_task : (s : Stored) (r : List Task) → IsSound new_account s (t ∷ r) → ⊥
      some_task s r sound = absurd (cc (no_tasks (t ∷ r) sound.loads_flag sound.saves_flag))

      go :
          (lookup id w.accounts ≡ none) ⊎ ((a : Account) × (lookup id w.accounts ≡ some a))
          → IsSoundService (complete (account_job id t) (with_queue rest w)) st
            × ((i : ℕ) (n : Bytes)
                → view (complete (account_job id t) (with_queue rest w)) st i n ≡ view w st i n)
      go (inl e) = let sound = mine in absurd (some_task (st id) (tasks_of id rest) (rw e at sound))
      go (inr (a, e)) =
          let sound = mine in
          let held : IsSound a (st id) (t ∷ tasks_of id rest) = rw e at sound in
          rw (e, complete)
            (
              record {
                each_sound = λ i.
                    rw (account_of-put i id (completed t a) w.accounts)
                      (sounds i held (Bool-cases (id == i)));
                distinct = Distinct-put id (completed t a) w.accounts h.distinct;
              },
              λ i n.
                  rw (account_of-put i id (completed t a) w.accounts)
                    (views i n held (Bool-cases (id == i))),
            )
        where
          sounds :
              (i : ℕ)
              → IsSound a (st id) (t ∷ tasks_of id rest)
              → ((id == i) ≡ true) ⊎ ((id == i) ≡ false)
              → IsSound
                  (if id == i then completed t a else account_of i w.accounts)
                  (st i)
                  (tasks_of i rest)
          sounds i held (inl same) =
              let names : id ≡ i = (==_iff id i).0 same in
              rw same (rw (sym names) (IsSound-completed a (st id) t (tasks_of id rest) d held))
          sounds i held (inr other) = let sound = before i in rw other (rw other at sound)

          views :
              (i : ℕ) (n : Bytes)
              → IsSound a (st id) (t ∷ tasks_of id rest)
              → ((id == i) ≡ true) ⊎ ((id == i) ≡ false)
              → current (if id == i then completed t a else account_of i w.accounts) (st i) n
                ≡ view w st i n
          views i n held (inl same) =
              let names : id ≡ i = (==_iff id i).0 same in
              rw same (rw (sym names, e) (current-completed a (st id) t (tasks_of id rest) held n))
          views i n held (inr other) = rw other refl
  Keeps-complete (register_job i x) rest w q d h = absurd (cc d)
  Keeps-complete (registered_job i f) rest w q d h =
      Keeps-same w (complete (registered_job i f) (with_queue rest w)) refl (λ k. rw q refl) h
  Keeps-complete catalog_job rest w q d h = absurd (cc d)
  Keeps-complete (catalogued_job r) rest w q d h =
      Keeps-same w (complete (catalogued_job r) (with_queue rest w)) refl (λ k. rw q refl) h

  queue-complete :
      (j : Job) (rest : List Job) (w : Service) → (complete j (with_queue rest w)).queue ≡ rest
  queue-complete (account_job id t) rest w = ground arith
  queue-complete (register_job i d) rest w = refl
  queue-complete (registered_job i f) rest w = refl
  queue-complete catalog_job rest w = refl
  queue-complete (catalogued_job r) rest w = refl

  Keeps-dispatched :
      (jobs : List Job) (w : Service) → w.queue ≡ jobs → Keeps st w (dispatched jobs w)
  unfolding dispatched
  Keeps-dispatched [] w q = Keeps-refl w
  Keeps-dispatched (j ∷ rest) w q =
      if-either (Keeps st w) (job_done j)
        (λ d.
          Keeps-trans st w (complete j (with_queue rest w))
            (dispatched rest (complete j (with_queue rest w))) (Keeps-complete j rest w q d)
            (Keeps-dispatched rest (complete j (with_queue rest w)) (queue-complete j rest w)))
        (λ d. Keeps-refl w)

  pub Keeps-pump : (w : Service) → Keeps st w (pump w)
  unfolding pump dispatch
  Keeps-pump w =
      let w1 = dispatched w.queue w in
      let w2 = each_account save (ids w1.accounts) w1 in
      Keeps-trans st w w1 (evict w2) (Keeps-dispatched w.queue w refl) (
        Keeps-trans st w1 w2 (evict w2) (Keeps-each_account save (ids w1.accounts) w1 Harmless-save)
          (Keeps-evict st w2))
