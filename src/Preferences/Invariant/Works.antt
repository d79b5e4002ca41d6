-- ===== src/Preferences/Invariant/Works.antt =====
-- src/extensions/clientprefs/service.cpp: the worker keeps an account sound and its values.
use source2root.Base.{
  ℕ, suc, ◌≡◌, ◌≢◌, refl, ap, ◌∙◌, sym, ◌||◌, ◌⊎◌, false, none, some, List, [], ◌∷◌, ok, err,
  Result-cases, All, arith, ◌==◌, ◌≤◌, ==_refl, ==-false_of_ne, if◌then◌else◌, Bool-cases, inl, inr,
  Option-cases,
}
use source2root.Base.Text.{Bytes}
use source2root.Base.Table.{lookup, has, bytes_key, Distinct}
use source2root.Base.Table.Laws.{keys}
use source2root.Preferences.{
  Account, Values, Failure, Task, to_load, has_loaded, to_save, has_saved,
}
use source2root.Preferences.Invariant.Waiting.{
  in_batch-no_saves, waiting-Snapshots, waiting-TaskHolds, in_batch-dirty,
}
use source2root.Preferences.Storage.{Storage, or_saved, work, work_next}
use source2root.Preferences.Invariant.{
  current, in_batch, saves, loads, BatchHolds, TaskHolds, Snapshots, IsWaiting, InOrder, IsSound,
}

module _ {S : Type 0} (storage : Storage S) (id : ℕ) where
  in_batch-work_next :
      (n : Bytes) (s : S) (tasks : List Task)
      → in_batch n (work_next storage id s tasks).1 ≡ in_batch n tasks
  unfolding work_next work
  in_batch-work_next n s [] = refl
  in_batch-work_next n s (to_load ∷ r) = refl
  in_batch-work_next n s (has_loaded l ∷ r) = in_batch-work_next n s r
  in_batch-work_next n s (to_save b ∷ r) = refl
  in_batch-work_next n s (has_saved b f ∷ r) = ap (λ o. has n b || o) (in_batch-work_next n s r)

  saves-work_next :
      (s : S) (tasks : List Task) → saves (work_next storage id s tasks).1 ≡ saves tasks
  unfolding work_next work
  saves-work_next s [] = refl
  saves-work_next s (to_load ∷ r) = refl
  saves-work_next s (has_loaded l ∷ r) = saves-work_next s r
  saves-work_next s (to_save b ∷ r) = refl
  saves-work_next s (has_saved b f ∷ r) = ap suc (saves-work_next s r)

  loads-work_next :
      (s : S) (tasks : List Task) → loads (work_next storage id s tasks).1 ≡ loads tasks
  unfolding work_next work
  loads-work_next s [] = refl
  loads-work_next s (to_load ∷ r) = refl
  loads-work_next s (has_loaded l ∷ r) = ap suc (loads-work_next s r)
  loads-work_next s (to_save b ∷ r) = refl
  loads-work_next s (has_saved b f ∷ r) = loads-work_next s r

  waiting-InOrder : (tasks : List Task) → All IsWaiting tasks → InOrder tasks
  waiting-InOrder [] w = tt
  waiting-InOrder (to_load ∷ r) w = w.1
  waiting-InOrder (has_loaded l ∷ r) w = absurd w.0
  waiting-InOrder (to_save b ∷ r) w = w.1
  waiting-InOrder (has_saved b f ∷ r) w = absurd w.0

  InOrder-work_next :
      (s : S) (tasks : List Task) → InOrder tasks → InOrder (work_next storage id s tasks).1
  unfolding work_next work
  InOrder-work_next s [] h = tt
  InOrder-work_next s (to_load ∷ r) h = waiting-InOrder r h
  InOrder-work_next s (has_loaded l ∷ r) h = InOrder-work_next s r h
  InOrder-work_next s (to_save b ∷ r) h = waiting-InOrder r h
  InOrder-work_next s (has_saved b f ∷ r) h = InOrder-work_next s r h

  -- One save, whatever its outcome
  stored-save :
      (s : S) (b : Values)
      → Distinct (keys b)
      → ((storage.save_values s id b).1 ≡ none)
          × ((i : ℕ) (n : Bytes)
              → storage.stored (storage.save_values s id b).0 i n ≡ (
                  if id == i
                  then or_saved (lookup n b) (storage.stored s i n)
                  else storage.stored s i n))
        ⊎ (((f : Failure) × ((storage.save_values s id b).1 ≡ some f))
            × ((i : ℕ) (n : Bytes)
                → storage.stored (storage.save_values s id b).0 i n ≡ storage.stored s i n))
  stored-save s b d = elim (Option-cases (storage.save_values s id b).1) [
    | inl e ↦ inl (
      e,
      storage.save_lem s (storage.save_values s id b).0 id b d
          (ap (λ o. ((storage.save_values s id b).0, o)) e),
    )
    | inr (f, e) ↦ inr (
      (f, e),
      storage.failed_lem s (storage.save_values s id b).0 id b f
          (ap (λ o. ((storage.save_values s id b).0, o)) e),
    )
  ]

  -- Only a name of a batch can change, and only for this account.
  pub stored-work_next :
      (d : Values) (v : ℕ) (s : S) (tasks : List Task) (n : Bytes)
      → All (TaskHolds d v (storage.stored s id)) tasks
      → in_batch n tasks ≡ false
      → storage.stored (work_next storage id s tasks).0 id n ≡ storage.stored s id n
  unfolding work_next work
  stored-work_next d v s [] n h e = refl
  stored-work_next d v s (to_load ∷ r) n h e = refl
  stored-work_next d v s (has_loaded l ∷ r) n h e = stored-work_next d v s r n h.1 e
  stored-work_next d v s (to_save b ∷ r) n h e = elim (stored-save s b h.0.0) [
    | inl (q, changed) ↦ changed id n ∙ outside
    | inr (q, same) ↦ same id n
  ]
    where
      outside :
          (if id == id
            then or_saved (lookup n b) (storage.stored s id n)
            else storage.stored s id n)
          ≡ storage.stored s id n
      outside = elim (Option-cases (lookup n b)) [
        | inl q ↦ rw (==_refl id, q) refl
        | inr (w, q) ↦
            let none_here : has n b ≡ false = ground (arith, e) in
            absurd (let e' = rw (q, has) at none_here in cc e')
      ]
  stored-work_next d v s (has_saved b f ∷ r) n h e =
      stored-work_next d v s r n h.1 (ground (arith, e))

  pub stored-work_next_ne :
      (d : Values) (v i : ℕ) (s : S) (tasks : List Task) (n : Bytes)
      → id ≢ i
      → All (TaskHolds d v (storage.stored s id)) tasks
      → storage.stored (work_next storage id s tasks).0 i n ≡ storage.stored s i n
  unfolding work_next work
  stored-work_next_ne d v i s [] n other h = refl
  stored-work_next_ne d v i s (to_load ∷ r) n other h = refl
  stored-work_next_ne d v i s (has_loaded l ∷ r) n other h =
      stored-work_next_ne d v i s r n other h.1
  stored-work_next_ne d v i s (to_save b ∷ r) n other h = elim (stored-save s b h.0.0) [
    | inl (q, changed) ↦ changed i n ∙ rw (==-false_of_ne id i other) refl
    | inr (q, same) ↦ same i n
  ]
  stored-work_next_ne d v i s (has_saved b f ∷ r) n other h =
      stored-work_next_ne d v i s r n other h.1

  -- The batch that the worker saves is stored, or the worker threw.
  TaskHolds-save :
      (d : Values) (v : ℕ) (s : S) (b : Values)
      → BatchHolds d v b
      → TaskHolds d v
          (storage.stored (storage.save_values s id b).0 id)
          (has_saved b (storage.save_values s id b).1)
  TaskHolds-save d v s b h = elim (stored-save s b h.0) [
    | inl (q, changed) ↦ rw q (h, λ n w e. changed id n ∙ rw (==_refl id, e) refl)
    | inr ((f, q), same) ↦ rw q h
  ]

  TaskHolds-work_next :
      (d : Values) (v : ℕ) (s : S) (tasks : List Task)
      → InOrder tasks
      → saves tasks ≤ 1
      → All (TaskHolds d v (storage.stored s id)) tasks
      → All
          (TaskHolds d v (storage.stored (work_next storage id s tasks).0 id))
          (work_next storage id s tasks).1
  unfolding work_next work
  TaskHolds-work_next d v s [] o l h = tt
  TaskHolds-work_next d v s (to_load ∷ r) o l h = (tt, h.1)
  TaskHolds-work_next d v s (has_loaded r' ∷ r) o l h = (tt, TaskHolds-work_next d v s r o l h.1)
  TaskHolds-work_next d v s (to_save b ∷ r) o l h = (
    TaskHolds-save d v s b h.0,
    waiting-TaskHolds d v (storage.stored s id) (storage.stored (storage.save_values s id b).0 id) r
        o h.1,
  )
  TaskHolds-work_next d v s (has_saved b none ∷ r) o l h = (
    (
      h.0.0,
      λ n w e. stored-work_next d v s r n h.1 (in_batch-no_saves n r (omega arith)) ∙ h.0.1 n w e,
    ),
    TaskHolds-work_next d v s r o (omega arith) h.1,
  )
  TaskHolds-work_next d v s (has_saved b (some f) ∷ r) o l h =
      (h.0, TaskHolds-work_next d v s r o (omega arith) h.1)

  Snapshots-work_next :
      (d : Values) (v : ℕ) (s : S) (tasks : List Task)
      → InOrder tasks
      → All (TaskHolds d v (storage.stored s id)) tasks
      → Snapshots (storage.stored s id) tasks
      → Snapshots
          (storage.stored (work_next storage id s tasks).0 id)
          (work_next storage id s tasks).1
  unfolding work_next work
  Snapshots-work_next d v s [] o t h = tt
  Snapshots-work_next d v s (to_load ∷ r) o t h = elim (Result-cases (storage.load_values s id)) [
    | inl (vs, q) ↦ rw q ((λ n e. storage.load_lem s id vs q n), h)
    | inr (f, q) ↦ rw q h
  ]
  Snapshots-work_next d v s (has_loaded (ok vs) ∷ r) o t h = (
    (λ n e.
        let still : in_batch n r ≡ false = sym (in_batch-work_next n s r) ∙ e in
        h.0 n still ∙ sym (stored-work_next d v s r n t.1 still)),
    Snapshots-work_next d v s r o t.1 h.1,
  )
  Snapshots-work_next d v s (has_loaded (err f) ∷ r) o t h = Snapshots-work_next d v s r o t.1 h
  Snapshots-work_next d v s (to_save b ∷ r) o t h = waiting-Snapshots _ r o
  Snapshots-work_next d v s (has_saved b f ∷ r) o t h = Snapshots-work_next d v s r o t.1 h

  module _ (a : Account) (s : S) (tasks : List Task)
      (h : IsSound a (storage.stored s id) tasks) where
    pub current-work_next :
        (n : Bytes)
        → current a (storage.stored (work_next storage id s tasks).0 id) n
          ≡ current a (storage.stored s id) n
    unfolding current
    current-work_next n = elim (Bool-cases (in_batch n tasks)) [
      | inl e ↦
          let (w, q) =
            in_batch-dirty a.dirty a.revision (storage.stored s id) n tasks h.batches e in
          rw q refl
      | inr e ↦
          ap (or_saved (lookup n a.dirty))
            (stored-work_next a.dirty a.revision s tasks n h.batches e)
    ]

    pub IsSound-work_next :
        IsSound a
          (storage.stored (work_next storage id s tasks).0 id)
          (work_next storage id s tasks).1
    IsSound-work_next = record {
      dirty_distinct = h.dirty_distinct;
      dirty_within = h.dirty_within;
      batches = TaskHolds-work_next a.dirty a.revision s tasks h.in_order one_save h.batches;
      snapshots = Snapshots-work_next a.dirty a.revision s tasks h.in_order h.batches h.snapshots;
      in_order = InOrder-work_next s tasks h.in_order;
      loads_flag = loads-work_next s tasks ∙ h.loads_flag;
      saves_flag = saves-work_next s tasks ∙ h.saves_flag;
      cached = λ r n. h.cached r n ∙ sym (current-work_next n);
    }
      where
        one_save : saves tasks ≤ 1
        one_save = ground (arith, h.saves_flag)
