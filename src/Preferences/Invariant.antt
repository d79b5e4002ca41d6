-- ===== src/Preferences/Invariant.antt =====
-- src/extensions/clientprefs/service.cpp: how an account, its tasks and the storage hang together.
pub mod Appends
pub mod Waiting
pub mod Submits
pub mod Works
pub mod Completes
use source2root.Base.{
  ℕ, suc, ◌+◌, ◌≤◌, ◌≡◌, ◌||◌, Bool, true, false, Option, none, some, List, [], ◌∷◌, ok, err, All,
  if◌then◌else◌,
}
use source2root.Base.Text.{Bytes, ℤ}
use source2root.Base.Table.{lookup, has, bytes_key, Distinct}
use source2root.Base.Table.Laws.{keys}
use source2root.Preferences.{
  Account, Value, Values, State, Task, to_load, has_loaded, to_save, has_saved,
}
use source2root.Preferences.Storage.{or_saved, saved_value}

-- What is stored for an account
abbrev pub Stored : Type 0
Stored = Bytes → Option (Bytes × ℤ)

-- The value of a name: the last write that was accepted, or else what is stored.
unfoldable pub current : Account → Stored → Stored
current a s n = or_saved (lookup n a.dirty) (s n)

-- A batch that is still to be completed holds the name.
abbrev pub in_batch : Bytes → List Task → Bool
in_batch n [] = false
in_batch n (to_load ∷ r) = in_batch n r
in_batch n (has_loaded l ∷ r) = in_batch n r
in_batch n (to_save b ∷ r) = has n b || in_batch n r
in_batch n (has_saved b f ∷ r) = has n b || in_batch n r

abbrev pub saves : List Task → ℕ
saves [] = 0
saves (to_load ∷ r) = saves r
saves (has_loaded l ∷ r) = saves r
saves (to_save b ∷ r) = suc (saves r)
saves (has_saved b f ∷ r) = suc (saves r)

abbrev pub loads : List Task → ℕ
loads [] = 0
loads (to_load ∷ r) = suc (loads r)
loads (has_loaded l ∷ r) = suc (loads r)
loads (to_save b ∷ r) = loads r
loads (has_saved b f ∷ r) = loads r

-- The dirty entry under a batch's name is the batch's or a later one.
abbrev pub Covers : Value → Option Value → Type 0
Covers w none = ⊥
Covers w (some v) = (w.revision ≤ v.revision) × (v.revision ≡ w.revision → v ≡ w)

abbrev pub BatchHolds : Values → ℕ → Values → Type 0
BatchHolds dirty revision b =
    Distinct (keys b)
    × ((n : Bytes) (w : Value)
        → lookup n b ≡ some w
        → Covers w (lookup n dirty) × (w.revision ≤ revision))

abbrev pub IsWritten : Stored → Values → Type 0
IsWritten s b = (n : Bytes) (w : Value) → lookup n b ≡ some w → s n ≡ some (saved_value w)

abbrev pub TaskHolds : Values → ℕ → Stored → Task → Type 0
TaskHolds dirty revision s to_load = Unit
TaskHolds dirty revision s (has_loaded l) = Unit
TaskHolds dirty revision s (to_save b) = BatchHolds dirty revision b
TaskHolds dirty revision s (has_saved b none) = BatchHolds dirty revision b × IsWritten s b
TaskHolds dirty revision s (has_saved b (some f)) = BatchHolds dirty revision b

-- A snapshot that was loaded is what is stored, but for the names of the batches behind it.
abbrev pub Snapshots : Stored → List Task → Type 0
Snapshots s [] = Unit
Snapshots s (to_load ∷ r) = Snapshots s r
Snapshots s (has_loaded (ok vs) ∷ r) =
    ((n : Bytes) → in_batch n r ≡ false → or_saved (lookup n vs) none ≡ s n) × Snapshots s r
Snapshots s (has_loaded (err f) ∷ r) = Snapshots s r
Snapshots s (to_save b ∷ r) = Snapshots s r
Snapshots s (has_saved b f ∷ r) = Snapshots s r

-- The tasks that the worker has run come before those it has not.
abbrev pub IsWaiting : Task → Type 0
IsWaiting to_load = Unit
IsWaiting (has_loaded l) = ⊥
IsWaiting (to_save b) = Unit
IsWaiting (has_saved b f) = ⊥

abbrev pub InOrder : List Task → Type 0
InOrder [] = Unit
InOrder (to_load ∷ r) = All IsWaiting r
InOrder (has_loaded l ∷ r) = InOrder r
InOrder (to_save b ∷ r) = All IsWaiting r
InOrder (has_saved b f ∷ r) = InOrder r

abbrev pub flag : Bool → ℕ
flag b = if b then 1 else 0

pub record IsSound (a : Account) (s : Stored) (tasks : List Task) : Type 0 where
  pub dirty_distinct : Distinct (keys a.dirty)
  pub dirty_within : (n : Bytes) (v : Value) → lookup n a.dirty ≡ some v → v.revision ≤ a.revision
  pub batches : All (TaskHolds a.dirty a.revision s) tasks
  pub snapshots : Snapshots s tasks
  pub in_order : InOrder tasks
  pub loads_flag : loads tasks ≡ flag a.loading
  pub saves_flag : saves tasks ≡ flag a.saving
  pub cached :
      a.state ≡ State.ready → (n : Bytes) → or_saved (lookup n a.values) none ≡ current a s n
