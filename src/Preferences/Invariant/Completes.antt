-- ===== src/Preferences/Invariant/Completes.antt =====
-- src/extensions/clientprefs/service.cpp: the completions keep an account sound and its values.
use source2root.Base.{
  ◌≤◌, ◌≡◌, refl, ◌∙◌, sym, true, false, Option, none, some, List, [], ◌∷◌, ok, err, Result, All,
  arith, Bool-cases, inl, inr,
}
use source2root.Base.Text.{Bytes, ℤ}
use source2root.Base.Table.{lookup, bytes_key}
use source2root.Preferences.{
  Account, Value, Values, Failure, Task, to_load, has_loaded, to_save, has_saved, after_load,
  after_save, clean, completed,
}
use source2root.Preferences.Maps.{lookup-overlay, lookup-clean, Distinct-clean, or_else}
use source2root.Preferences.Invariant.Waiting.{in_batch-dirty}
use source2root.Preferences.Storage.{is_done, or_saved}
use source2root.Preferences.Invariant.{Stored, current, in_batch, saves, TaskHolds, IsSound}

-- What the overlay leaves under a name is its dirty entry, or else the snapshot's.
or_saved-or_else :
    (o p : Option Value) (old : Option (Bytes × ℤ))
    → (o ≡ none → or_saved p none ≡ old)
    → or_saved (or_else o p) none ≡ or_saved o old
or_saved-or_else none p old h = h refl
or_saved-or_else (some v) p old h = refl

module _ (a : Account) (s : Stored) (rest : List Task) where
  current-after_load :
      (r : Result Failure Values) (n : Bytes) → current (after_load r a) s n ≡ current a s n
  unfolding current after_load
  current-after_load (ok vs) n = refl
  current-after_load (err f) n = refl

  pub IsSound-loaded :
      (vs : Values)
      → IsSound a s (has_loaded (ok vs) ∷ rest)
      → IsSound (after_load (ok vs) a) s rest
  unfolding after_load current
  IsSound-loaded vs h = record {
    dirty_distinct = h.dirty_distinct;
    dirty_within = h.dirty_within;
    batches = h.batches.1;
    snapshots = h.snapshots.1;
    in_order = h.in_order;
    loads_flag = ground (arith, h.loads_flag);
    saves_flag = h.saves_flag;
    cached = λ r n. rw (lookup-overlay n a.dirty vs h.dirty_distinct) (
        or_saved-or_else (lookup n a.dirty) (lookup n vs) (s n)
          (λ e. h.snapshots.0 n (outside n e)));
  }
    where
      outside : (n : Bytes) → lookup n a.dirty ≡ none → in_batch n rest ≡ false
      outside n e = elim (Bool-cases (in_batch n rest)) [
        | inl q ↦
            let (w, q') = in_batch-dirty a.dirty a.revision s n rest h.batches.1 q in
            absurd (cc (e, q'))
        | inr q ↦ q
      ]

  pub IsSound-load_failed :
      (f : Failure)
      → IsSound a s (has_loaded (err f) ∷ rest)
      → IsSound (after_load (err f) a) s rest
  unfolding after_load
  IsSound-load_failed f h = record {
    dirty_distinct = h.dirty_distinct;
    dirty_within = h.dirty_within;
    batches = h.batches.1;
    snapshots = h.snapshots;
    in_order = h.in_order;
    loads_flag = ground (arith, h.loads_flag);
    saves_flag = h.saves_flag;
    cached = λ r. absurd (cc r);
  }

  -- A save that failed leaves its batch dirty.
  pub IsSound-save_failed :
      (b : Values) (f : Failure)
      → IsSound a s (has_saved b (some f) ∷ rest)
      → IsSound (after_save b (some f) a) s rest
  unfolding after_save
  IsSound-save_failed b f h = record {
    dirty_distinct = h.dirty_distinct;
    dirty_within = h.dirty_within;
    batches = h.batches.1;
    snapshots = h.snapshots;
    in_order = h.in_order;
    loads_flag = h.loads_flag;
    saves_flag = ground (arith, h.saves_flag);
    cached = unfold current in h.cached;
  }

  module _ (b : Values) (h : IsSound a s (has_saved b none ∷ rest)) where
    -- Cleaning takes away only what is stored.
    or_saved-clean :
        (n : Bytes)
        → or_saved (lookup n (clean b a.dirty)) (s n) ≡ or_saved (lookup n a.dirty) (s n)
    or_saved-clean n = elim (lookup-clean n b a.dirty h.batches.0.0.0) [
      | inl e ↦ rw e refl
      | inr (e, (w, v, in_b, in_d, same)) ↦
          let (covers, within) = h.batches.0.0.1 n w in_b in
          let covers' = rw in_d at covers in
          rw (e, in_d, h.batches.0.1 n w in_b, covers'.1 same) refl
    ]

    clean_within :
        (n : Bytes) (v : Value) → lookup n (clean b a.dirty) ≡ some v → v.revision ≤ a.revision
    clean_within n v e = elim (lookup-clean n b a.dirty h.batches.0.0.0) [
      | inl e' ↦ h.dirty_within n v (sym e' ∙ e)
      | inr (e', q) ↦ absurd (cc (e, e'))
    ]

    no_saves : saves rest ≡ 0
    no_saves = ground (arith, h.saves_flag)

    pub IsSound-saved : IsSound (after_save b none a) s rest
    unfolding after_save current
    IsSound-saved = record {
      dirty_distinct = Distinct-clean b a.dirty h.dirty_distinct;
      dirty_within = clean_within;
      batches = no_batches (clean b a.dirty) rest no_saves;
      snapshots = h.snapshots;
      in_order = h.in_order;
      loads_flag = h.loads_flag;
      saves_flag = no_saves;
      cached = λ r n. h.cached r n ∙ sym (or_saved-clean n);
    }
      where
        no_batches :
            (d : Values) (tasks : List Task)
            → saves tasks ≡ 0
            → All (TaskHolds d a.revision s) tasks
        no_batches d [] e = tt
        no_batches d (to_load ∷ r) e = (tt, no_batches d r e)
        no_batches d (has_loaded l ∷ r) e = (tt, no_batches d r e)
        no_batches d (to_save b' ∷ r) e = absurd (omega arith)
        no_batches d (has_saved b' f ∷ r) e = absurd (omega arith)

module _ (a : Account) (s : Stored) where
  pub current-completed :
      (t : Task) (rest : List Task)
      → IsSound a s (t ∷ rest)
      → (n : Bytes) → current (completed t a) s n ≡ current a s n
  unfolding current after_save
  current-completed to_load rest h n = refl
  current-completed (has_loaded r) rest h n = current-after_load a s rest r n
  current-completed (to_save b) rest h n = refl
  current-completed (has_saved b none) rest h n = or_saved-clean a s rest b h n
  current-completed (has_saved b (some f)) rest h n = refl

  pub IsSound-completed :
      (t : Task) (rest : List Task)
      → is_done t ≡ true
      → IsSound a s (t ∷ rest)
      → IsSound (completed t a) s rest
  IsSound-completed to_load rest d h = absurd (cc d)
  IsSound-completed (has_loaded (ok vs)) rest d h = IsSound-loaded a s rest vs h
  IsSound-completed (has_loaded (err f)) rest d h = IsSound-load_failed a s rest f h
  IsSound-completed (to_save b) rest d h = absurd (cc d)
  IsSound-completed (has_saved b none) rest d h = IsSound-saved a s rest b h
  IsSound-completed (has_saved b (some f)) rest d h = IsSound-save_failed a s rest b f h
