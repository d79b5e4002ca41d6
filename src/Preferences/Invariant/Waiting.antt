-- ===== src/Preferences/Invariant/Waiting.antt =====
-- src/extensions/clientprefs/service.cpp: what the tasks that no worker has run say.
use source2root.Base.{
  ℕ, ◌≡◌, refl, true, false, Option, none, some, List, [], ◌∷◌, All, arith, Bool-cases, inl, inr,
  Option-cases,
}
use source2root.Base.Text.{Bytes}
use source2root.Base.Table.{lookup, has, bytes_key}
use source2root.Preferences.{Value, Values, Failure, Task, to_load, has_loaded, to_save, has_saved}
use source2root.Preferences.Invariant.{
  Stored, in_batch, saves, Covers, BatchHolds, TaskHolds, Snapshots, IsWaiting,
}

-- Where nothing is to be saved, no batch holds a name.
pub in_batch-no_saves : (n : Bytes) (tasks : List Task) → saves tasks ≡ 0 → in_batch n tasks ≡ false
in_batch-no_saves n [] h = refl
in_batch-no_saves n (to_load ∷ r) h = in_batch-no_saves n r h
in_batch-no_saves n (has_loaded l ∷ r) h = in_batch-no_saves n r h
in_batch-no_saves n (to_save b ∷ r) h = absurd (omega arith)
in_batch-no_saves n (has_saved b f ∷ r) h = absurd (omega arith)

-- What no worker has run says nothing of the storage.
pub waiting-Snapshots : (s : Stored) (tasks : List Task) → All IsWaiting tasks → Snapshots s tasks
waiting-Snapshots s [] w = tt
waiting-Snapshots s (to_load ∷ r) w = waiting-Snapshots s r w.1
waiting-Snapshots s (has_loaded l ∷ r) w = absurd w.0
waiting-Snapshots s (to_save b ∷ r) w = waiting-Snapshots s r w.1
waiting-Snapshots s (has_saved b f ∷ r) w = absurd w.0

pub waiting-TaskHolds :
    (d : Values) (v : ℕ) (s s' : Stored) (tasks : List Task)
    → All IsWaiting tasks
    → All (TaskHolds d v s) tasks
    → All (TaskHolds d v s') tasks
waiting-TaskHolds d v s s' [] w h = tt
waiting-TaskHolds d v s s' (to_load ∷ r) w h = (tt, waiting-TaskHolds d v s s' r w.1 h.1)
waiting-TaskHolds d v s s' (has_loaded l ∷ r) w h = absurd w.0
waiting-TaskHolds d v s s' (to_save b ∷ r) w h = (h.0, waiting-TaskHolds d v s s' r w.1 h.1)
waiting-TaskHolds d v s s' (has_saved b f ∷ r) w h = absurd w.0

covered : (w : Value) (o : Option Value) → Covers w o → (v : Value) × (o ≡ some v)
covered w none h = absurd h
covered w (some v) h = (v, refl)

BatchHolds-has :
    (d : Values) (v : ℕ) (b : Values) (n : Bytes)
    → BatchHolds d v b
    → has n b ≡ true
    → (w : Value) × (lookup n d ≡ some w)
BatchHolds-has d v b n h e = elim (Option-cases (lookup n b)) [
  | inl q ↦ absurd (let e' = rw (q, has) at e in cc e')
  | inr (w, q) ↦ covered w (lookup n d) (h.1 n w q).0
]

TaskHolds-BatchHolds :
    (d : Values) (v : ℕ) (s : Stored) (b : Values) (f : Option Failure)
    → TaskHolds d v s (has_saved b f)
    → BatchHolds d v b
TaskHolds-BatchHolds d v s b none h = h.0
TaskHolds-BatchHolds d v s b (some f) h = h

-- A name whose batch is in flight is dirty.
pub in_batch-dirty :
    (d : Values) (v : ℕ) (s : Stored) (n : Bytes) (tasks : List Task)
    → All (TaskHolds d v s) tasks
    → in_batch n tasks ≡ true
    → (w : Value) × (lookup n d ≡ some w)
in_batch-dirty d v s n [] h e = absurd (cc e)
in_batch-dirty d v s n (to_load ∷ r) h e = in_batch-dirty d v s n r h.1 e
in_batch-dirty d v s n (has_loaded l ∷ r) h e = in_batch-dirty d v s n r h.1 e
in_batch-dirty d v s n (to_save b ∷ r) h e = elim (Bool-cases (has n b)) [
  | inl q ↦ BatchHolds-has d v b n h.0 q
  | inr q ↦ in_batch-dirty d v s n r h.1 (ground (arith, e, q))
]
in_batch-dirty d v s n (has_saved b f ∷ r) h e = elim (Bool-cases (has n b)) [
  | inl q ↦ BatchHolds-has d v b n (TaskHolds-BatchHolds d v s b f h.0) q
  | inr q ↦ in_batch-dirty d v s n r h.1 (ground (arith, e, q))
]
