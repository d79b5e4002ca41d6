-- ===== src/Preferences/Invariant/Submits.antt =====
-- src/extensions/clientprefs/service.cpp: Write, Save and Load keep an account sound.
use source2root.Base.{
  ℕ, suc, ◌≤◌, ◌≡◌, refl, ap, ◌∙◌, sym, ◌||◌, Bool, true, false, Option, none, some, List, [], ◌∷◌,
  ◌++◌, All, All-append, arith, if◌then◌else◌, if-either, is_nil,
}
use mathlib.Core.List.{append-nil}
use source2root.Base.Text.{Bytes, ℤ, codes}
use source2root.Base.Table.{lookup, put, bytes_key}
use source2root.Base.Table.Laws.{lookup-put, Distinct-put}
use source2root.Preferences.{
  Account, Value, Values, State, Task, to_load, has_loaded, to_save, has_saved, written, save, load,
  new_account,
}
use source2root.Preferences.Invariant.Appends.{
  Snapshots-append, InOrder-append, saves-append, loads-append,
}
use source2root.Preferences.Storage.{or_saved, saved_value}
use source2root.Preferences.Invariant.{Stored, current, Covers, BatchHolds, TaskHolds, IsSound}

Covers-choice :
    (b : Bool) (w v : Value) (o : Option Value) (r : ℕ)
    → v.revision ≡ suc r
    → Covers w o
    → w.revision ≤ r
    → Covers w (if b then some v else o)
Covers-choice true w v o r e h l = (omega arith, λ same. absurd (omega arith))
Covers-choice false w v o r e h l = h

within-choice :
    (b : Bool) (v u : Value) (o : Option Value) (r : ℕ)
    → v.revision ≡ suc r
    → ((u : Value) → o ≡ some u → u.revision ≤ r)
    → (if b then some v else o) ≡ some u
    → u.revision ≤ suc r
within-choice true v u o r e h q = ground (arith, e, q)
within-choice false v u o r e h q = omega (arith, h u q)

or_saved-choice :
    (b : Bool) (v : Value) (o : Option Value) (old : Option (Bytes × ℤ))
    → or_saved (if b then some v else o) old ≡ (if b then some (saved_value v) else or_saved o old)
or_saved-choice true v o old = refl
or_saved-choice false v o old = refl

module _ (name text : Bytes) (now : ℤ) (a : Account) (s : Stored) where
  abbrev new_value : Value
  new_value = record { text = text; updated = now; revision = suc a.revision }

  pub current-written :
      (n : Bytes)
      → current (written name text now a) s n
        ≡ (if bytes_key.equal name n then some (text, now) else current a s n)
  unfolding current written
  current-written n =
      rw (lookup-put n name new_value a.dirty)
        (or_saved-choice (bytes_key.equal name n) new_value (lookup n a.dirty) (s n))

  BatchHolds-written :
      (b : Values)
      → BatchHolds a.dirty a.revision b
      → BatchHolds (put name new_value a.dirty) (suc a.revision) b
  BatchHolds-written b (d, h) = (
    d,
    λ n w e.
        let old = h n w e in
        (
          rw (lookup-put n name new_value a.dirty) (
              Covers-choice (bytes_key.equal name n) w new_value (lookup n a.dirty) a.revision refl
                old.0 old.1),
          omega (arith, old.1),
        ),
  )

  TaskHolds-written :
      (t : Task)
      → TaskHolds a.dirty a.revision s t
      → TaskHolds (put name new_value a.dirty) (suc a.revision) s t
  TaskHolds-written to_load h = tt
  TaskHolds-written (has_loaded l) h = tt
  TaskHolds-written (to_save b) h = BatchHolds-written b h
  TaskHolds-written (has_saved b none) h = (BatchHolds-written b h.0, h.1)
  TaskHolds-written (has_saved b (some f)) h = BatchHolds-written b h

  All-written :
      (tasks : List Task)
      → All (TaskHolds a.dirty a.revision s) tasks
      → All (TaskHolds (put name new_value a.dirty) (suc a.revision) s) tasks
  All-written [] h = tt
  All-written (t ∷ r) h = (TaskHolds-written t h.0, All-written r h.1)

  pub IsSound-written :
      (tasks : List Task) → IsSound a s tasks → IsSound (written name text now a) s tasks
  IsSound-written tasks h = record {
    dirty_distinct = unfold written in Distinct-put name new_value a.dirty h.dirty_distinct;
    dirty_within =
        unfold written in
        λ n v e.
          within-choice (bytes_key.equal name n) new_value v (lookup n a.dirty) a.revision refl
            (h.dirty_within n) (sym (lookup-put n name new_value a.dirty) ∙ e);
    batches = unfold written in All-written tasks h.batches;
    snapshots = h.snapshots;
    in_order = h.in_order;
    loads_flag = unfold written in h.loads_flag;
    saves_flag = unfold written in h.saves_flag;
    cached = λ r n. cached_values r n ∙ sym (current-written n);
  }
    where
      cached_values :
          (written name text now a).state ≡ State.ready
          → (n : Bytes)
          → or_saved (lookup n (written name text now a).values) none
            ≡ (if bytes_key.equal name n then some (text, now) else current a s n)
      cached_values r n =
          unfold written in
          rw (lookup-put n name new_value a.values) (
            or_saved-choice (bytes_key.equal name n) new_value (lookup n a.values) none
            ∙ ap (λ o. if bytes_key.equal name n then some (text, now) else o)
                (h.cached (unfold written in r) n))

module _ (a : Account) (s : Stored) (tasks : List Task) (h : IsSound a s tasks) where
  -- The whole of what is dirty is a batch.
  BatchHolds-dirty : BatchHolds a.dirty a.revision a.dirty
  BatchHolds-dirty =
      (h.dirty_distinct, λ n w e. (rw e (omega arith, λ same. refl), h.dirty_within n w e))

  pub IsSound-save : (room : Bool) → IsSound (save room a).0 s (tasks ++ (save room a).1)
  unfolding save
  IsSound-save room =
      if-either (λ (r : Account × List Task). IsSound r.0 s (tasks ++ r.1))
        (a.saving || a.write_failed || is_nil a.dirty) (λ e. unchanged)
        (λ e.
          if-either (λ (r : Account × List Task). IsSound r.0 s (tasks ++ r.1)) room
            (λ f. submits (ground (arith, e))) (λ f. unchanged))
    where
      unchanged : IsSound a s (tasks ++ [])
      unchanged = rw append-nil h

      submits :
          a.saving ≡ false
          → IsSound
              (record a { saving = true; error = []; write_error = [] })
              s
              (tasks ++ to_save a.dirty ∷ [])
      submits e = record {
        dirty_distinct = h.dirty_distinct;
        dirty_within = h.dirty_within;
        batches =
            All-append (TaskHolds a.dirty a.revision s) tasks (to_save a.dirty ∷ []) h.batches
              (BatchHolds-dirty, tt);
        snapshots = Snapshots-append s (to_save a.dirty) tt tasks h.snapshots;
        in_order = InOrder-append s (to_save a.dirty) tt tasks h.in_order;
        loads_flag = loads-append tasks (to_save a.dirty) ∙ (omega (arith, h.loads_flag));
        saves_flag = rw (saves-append tasks (to_save a.dirty), h.saves_flag, e) refl;
        cached = unfold current in h.cached;
      }

  pub IsSound-load : (room : Bool) → IsSound (load room a).0 s (tasks ++ (load room a).1)
  unfolding load
  IsSound-load room =
      if-either (λ (r : Account × List Task). IsSound r.0 s (tasks ++ r.1)) a.loading
        (λ e. rw append-nil h)
        (λ e.
          if-either (λ (r : Account × List Task). IsSound r.0 s (tasks ++ r.1)) room
            (λ f. submits e) (λ f. rw append-nil refused))
    where
      refused :
          IsSound
            (record a {
              state = State.failed;
              error = codes "Client preferences worker queue is full.";
            })
            s
            tasks
      refused = record {
        dirty_distinct = h.dirty_distinct;
        dirty_within = h.dirty_within;
        batches = h.batches;
        snapshots = h.snapshots;
        in_order = h.in_order;
        loads_flag = h.loads_flag;
        saves_flag = h.saves_flag;
        cached = λ r. absurd (cc r);
      }

      submits :
          a.loading ≡ false
          → IsSound
              (record a { loading = true; state = State.loading_state })
              s
              (tasks ++ to_load ∷ [])
      submits e = record {
        dirty_distinct = h.dirty_distinct;
        dirty_within = h.dirty_within;
        batches =
            All-append (TaskHolds a.dirty a.revision s) tasks (to_load ∷ []) h.batches (tt, tt);
        snapshots = Snapshots-append s to_load tt tasks h.snapshots;
        in_order = InOrder-append s to_load tt tasks h.in_order;
        loads_flag = rw (loads-append tasks to_load, h.loads_flag, e) refl;
        saves_flag = saves-append tasks to_load ∙ (omega (arith, h.saves_flag));
        cached = λ r. absurd (cc r);
      }

pub IsSound-new_account : (s : Stored) → IsSound new_account s []
IsSound-new_account s = record {
  dirty_distinct = tt;
  dirty_within = λ n v e. absurd (cc e);
  batches = tt;
  snapshots = tt;
  in_order = tt;
  loads_flag = refl;
  saves_flag = refl;
  cached = λ e. absurd (cc e);
}

pub current-save :
    (room : Bool) (a : Account) (s : Stored) (n : Bytes)
    → current (save room a).0 s n ≡ current a s n
unfolding current save
current-save room a s n = ground arith

pub current-load :
    (room : Bool) (a : Account) (s : Stored) (n : Bytes)
    → current (load room a).0 s n ≡ current a s n
unfolding current load
current-load room a s n = ground arith
