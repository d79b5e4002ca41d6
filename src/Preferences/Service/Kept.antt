-- ===== src/Preferences/Service/Kept.antt =====
-- src/extensions/clientprefs: the steps of service, worker and storage keep the preferences.
use mathlib.Core.Path.{fun_ext}
use source2root.Base.{
  ℕ, ◌≡◌, ◌≢◌, ◌⊎◌, inl, inr, refl, sym, ap, ◌∙◌, true, false, none, some, List, [], ◌∷◌, ◌++◌,
  if◌then◌else◌, ◌==◌, ==_iff, arith, Bool-cases,
}
use source2root.Base.Text.{Bytes, ℤ}
use source2root.Base.Table.{bytes_key, nat_key}
use source2root.Preferences.{Task}
use source2root.Preferences.Storage.{Storage, work_next}
use source2root.Preferences.Catalog.{find}
use source2root.Preferences.Invariant.{Stored, current, IsSound}
use source2root.Preferences.Invariant.Submits.{IsSound-new_account}
use source2root.Preferences.Invariant.Works.{
  current-work_next, IsSound-work_next, stored-work_next_ne,
}
use source2root.Preferences.Service.{Service, Outcome, start, load_catalog}
use source2root.Preferences.Service.Worker.{tasks_of, next_job, next_job-Ran}
use source2root.Preferences.Service.Sound.{account_of, view, IsSoundService}
use source2root.Preferences.Service.Calls.{
  Keeps-retry_writes, Keeps-retry_load, Keeps-refresh, Keeps-pump,
}
use source2root.Preferences.Service.Writes.{
  WriteHolds, Keeps-sync, Keeps-register, Keeps-retry_catalog,
}
use source2root.Preferences.Service.Runs.{
  World, Call, syncs, sets, sets_identity, user_sets, retries_load, refreshes, registers,
  retries_writes, retries_catalog, pumps, works, Write, unless_thrown, accepted, replay, step, run,
  log, preferences, IsSoundWorld, begin,
}
use source2root.Preferences.Service.Refines.{
  named, WriteHolds-set_value, WriteHolds-set_identity, WriteHolds-user_set,
}

replay-same :
    (l : List Write) (f g : ℕ → Stored)
    → ((j : ℕ) (n : Bytes) → f j n ≡ g j n)
    → (j : ℕ) (n : Bytes) → replay l f j n ≡ replay l g j n
replay-same [] f g h = h
replay-same ((id, name, v) ∷ rest) f g h =
    replay-same rest _ _
      λ j n. ap (λ o. if id == j then (if bytes_key.equal name n then some v else o) else o) (h j n)

replay-append : (l l' : List Write) (f : ℕ → Stored) → replay (l ++ l') f ≡ replay l' (replay l f)
replay-append [] l' f = refl
replay-append ((id, name, v) ∷ rest) l' f = replay-append rest l' _

WriteHolds-replay :
    (st : ℕ → Stored) (w : Service) (id : ℕ) (name : Bytes) (v : Bytes × ℤ) (o : Outcome)
    → WriteHolds st w id name v o
    → IsSoundService o.0 st
      × ((j : ℕ) (n : Bytes)
          → view o.0 st j n ≡ replay (unless_thrown o (id, name, v)) (view w st) j n)
WriteHolds-replay st w id name v (w', none) h = h
WriteHolds-replay st w id name v (w', some e) h = h

module _ {S : Type 0} (storage : Storage S) where
  -- The worker's step
  works-holds :
      (w : World S)
      → IsSoundWorld storage w
      → IsSoundWorld storage (step storage works w)
        × ((j : ℕ) (n : Bytes)
            → preferences storage (step storage works w) j n ≡ preferences storage w j n)
  unfolding step
  works-holds w h = elim (next_job-Ran storage w.base w.service.queue) [
    | inr (tasks, same) ↦ (
      record {
        each_sound = λ i. rw (tasks i, fun_ext (same i)) (h.each_sound i);
        distinct = h.distinct;
      },
      λ j n. rw (fun_ext (same j)) refl,
    )
    | inl (id, (base, tasks, others)) ↦ (
      record {
        each_sound = λ i. sounds id i base tasks others (Bool-cases (id == i));
        distinct = h.distinct;
      },
      λ j n. views id j n base (Bool-cases (id == j)),
    )
  ]
    where
      s' : S
      s' = (next_job storage w.base w.service.queue).0

      tasks_after : ℕ → List Task
      tasks_after i = tasks_of i (next_job storage w.base w.service.queue).1

      ran : ℕ → S × List Task
      ran id = work_next storage id w.base (tasks_of id w.service.queue)

      elsewhere :
          (id i : ℕ)
          → (id == i) ≡ false
          → (n : Bytes) → storage.stored (ran id).0 i n ≡ storage.stored w.base i n
      elsewhere id i q n =
          stored-work_next_ne storage id (account_of id w.service.accounts).dirty
            (account_of id w.service.accounts).revision i w.base (tasks_of id w.service.queue) n
            (λ e. absurd (ground (arith, q, e))) (h.each_sound id).batches

      sounds :
          (id i : ℕ)
          → s' ≡ (ran id).0
          → tasks_after id ≡ (ran id).1
          → ((i : ℕ) → id ≢ i → tasks_after i ≡ tasks_of i w.service.queue)
          → ((id == i) ≡ true) ⊎ ((id == i) ≡ false)
          → IsSound (account_of i w.service.accounts) (storage.stored s' i) (tasks_after i)
      sounds id i base tasks others (inl q) =
          let names : id ≡ i = (==_iff id i).0 q in
          rw (sym names, base, tasks)
            (IsSound-work_next storage id (account_of id w.service.accounts) w.base
              (tasks_of id w.service.queue) (h.each_sound id))
      sounds id i base tasks others (inr q) =
          rw (base, others i (λ e. absurd (ground (arith, q, e))), fun_ext (elsewhere id i q))
            (h.each_sound i)

      views :
          (id j : ℕ) (n : Bytes)
          → s' ≡ (ran id).0
          → ((id == j) ≡ true) ⊎ ((id == j) ≡ false)
          → current (account_of j w.service.accounts) (storage.stored s' j) n
            ≡ preferences storage w j n
      views id j n base (inl q) =
          let names : id ≡ j = (==_iff id j).0 q in
          rw (sym names, base)
            (current-work_next storage id (account_of id w.service.accounts) w.base
              (tasks_of id w.service.queue) (h.each_sound id) n)
      views id j n base (inr q) = rw (base, fun_ext (elsewhere id j q)) refl

  step-holds :
      (c : Call) (w : World S)
      → IsSoundWorld storage w
      → IsSoundWorld storage (step storage c w)
        × ((j : ℕ) (n : Bytes)
            → preferences storage (step storage c w) j n
              ≡ replay (accepted c w.service) (preferences storage w) j n)
  unfolding step accepted
  step-holds (syncs ps) w h = Keeps-sync (storage.stored w.base) ps w.service h
  step-holds (sets p cookie text now) w h =
      WriteHolds-replay (storage.stored w.base) w.service p.account (named cookie w.service)
        (text, now) _ (WriteHolds-set_value (storage.stored w.base) text now w.service h p cookie)
  step-holds (sets_identity id cookie text now) w h =
      WriteHolds-replay (storage.stored w.base) w.service id (named cookie w.service) (text, now) _
        (WriteHolds-set_identity (storage.stored w.base) text now w.service h id cookie)
  step-holds (user_sets p name text now) w h =
      WriteHolds-replay (storage.stored w.base) w.service p.account
        (named (find name w.service.catalog) w.service) (text, now) _
        (WriteHolds-user_set (storage.stored w.base) text now w.service h p name)
  step-holds (retries_load p) w h = Keeps-retry_load (storage.stored w.base) p w.service h
  step-holds (refreshes p) w h = Keeps-refresh (storage.stored w.base) p w.service h
  step-holds (registers d) w h = Keeps-register (storage.stored w.base) d w.service h
  step-holds retries_writes w h = Keeps-retry_writes (storage.stored w.base) w.service h
  step-holds retries_catalog w h = Keeps-retry_catalog (storage.stored w.base) w.service h
  step-holds pumps w h = Keeps-pump (storage.stored w.base) w.service h
  step-holds works w h = works-holds w h

  pub run-holds :
      (calls : List Call) (w : World S)
      → IsSoundWorld storage w
      → IsSoundWorld storage (run storage calls w)
        × ((j : ℕ) (n : Bytes)
            → preferences storage (run storage calls w) j n
              ≡ replay (log storage calls w) (preferences storage w) j n)
  unfolding run log
  run-holds [] w h = (h, λ j n. refl)
  run-holds (c ∷ rest) w h =
      let one = step-holds c w h in
      let more = run-holds rest (step storage c w) one.0 in
      (
        more.0,
        λ j n.
            more.1 j n
            ∙ replay-same (log storage rest (step storage c w)) _ _ one.1 j n
            ∙ ap (λ f. f j n)
                (sym (
                  replay-append (accepted c w.service) (log storage rest (step storage c w))
                    (preferences storage w))),
      )

  pub begin-holds : (s : S) → IsSoundWorld storage (begin storage s)
  unfolding start load_catalog
  begin-holds s = record {
    each_sound = λ id. IsSound-new_account (storage.stored s id);
    distinct = tt;
  }
