-- ===== src/Preferences/Invariant/Appends.antt =====
-- src/extensions/clientprefs/service.cpp: a task that is submitted, behind the others.
use source2root.Base.{◌+◌, ◌≡◌, refl, false, List, [], ◌∷◌, ◌++◌, ok, err, All-append, arith}
use source2root.Base.Text.{Bytes}
use source2root.Base.Table.{bytes_key}
use source2root.Preferences.{Task, to_load, has_loaded, to_save, has_saved}
use source2root.Preferences.Invariant.{
  Stored, in_batch, saves, loads, Snapshots, IsWaiting, InOrder,
}

pub in_batch-append :
    (n : Bytes) (tasks : List Task) (t : Task)
    → in_batch n (tasks ++ t ∷ []) ≡ false
    → in_batch n tasks ≡ false
in_batch-append n [] t h = refl
in_batch-append n (to_load ∷ r) t h = in_batch-append n r t h
in_batch-append n (has_loaded l ∷ r) t h = in_batch-append n r t h
in_batch-append n (to_save b ∷ r) t h = ground (arith, in_batch-append n r t)
in_batch-append n (has_saved b f ∷ r) t h = ground (arith, in_batch-append n r t)

module _ (s : Stored) (t : Task) (waits : IsWaiting t) where
  pub Snapshots-append : (tasks : List Task) → Snapshots s tasks → Snapshots s (tasks ++ t ∷ [])
  Snapshots-append [] h = alone t waits
    where
      alone : (t : Task) → IsWaiting t → Snapshots s (t ∷ [])
      alone to_load w = tt
      alone (has_loaded l) w = absurd w
      alone (to_save b) w = tt
      alone (has_saved b f) w = absurd w
  Snapshots-append (to_load ∷ r) h = Snapshots-append r h
  Snapshots-append (has_loaded (ok vs) ∷ r) h =
      (λ n e. h.0 n (in_batch-append n r t e), Snapshots-append r h.1)
  Snapshots-append (has_loaded (err f) ∷ r) h = Snapshots-append r h
  Snapshots-append (to_save b ∷ r) h = Snapshots-append r h
  Snapshots-append (has_saved b f ∷ r) h = Snapshots-append r h

  pub InOrder-append : (tasks : List Task) → InOrder tasks → InOrder (tasks ++ t ∷ [])
  InOrder-append [] h = alone t waits
    where
      alone : (t : Task) → IsWaiting t → InOrder (t ∷ [])
      alone to_load w = tt
      alone (has_loaded l) w = absurd w
      alone (to_save b) w = tt
      alone (has_saved b f) w = absurd w
  InOrder-append (to_load ∷ r) h = All-append IsWaiting r (t ∷ []) h (waits, tt)
  InOrder-append (has_loaded l ∷ r) h = InOrder-append r h
  InOrder-append (to_save b ∷ r) h = All-append IsWaiting r (t ∷ []) h (waits, tt)
  InOrder-append (has_saved b f ∷ r) h = InOrder-append r h

pub saves-append :
    (tasks : List Task) (t : Task) → saves (tasks ++ t ∷ []) ≡ saves tasks + saves (t ∷ [])
saves-append [] t = omega arith
saves-append (to_load ∷ r) t = saves-append r t
saves-append (has_loaded l ∷ r) t = saves-append r t
saves-append (to_save b ∷ r) t = omega (arith, saves-append r t)
saves-append (has_saved b f ∷ r) t = omega (arith, saves-append r t)

pub loads-append :
    (tasks : List Task) (t : Task) → loads (tasks ++ t ∷ []) ≡ loads tasks + loads (t ∷ [])
loads-append [] t = omega arith
loads-append (to_load ∷ r) t = omega (arith, loads-append r t)
loads-append (has_loaded l ∷ r) t = omega (arith, loads-append r t)
loads-append (to_save b ∷ r) t = loads-append r t
loads-append (has_saved b f ∷ r) t = loads-append r t
