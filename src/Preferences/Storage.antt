-- ===== src/Preferences/Storage.antt =====
-- src/extensions/clientprefs/store.h: the storage behind the service, and the worker that calls it.
use source2root.Base.{
  ℕ, ◌≡◌, Bool, true, false, Option, none, some, List, [], ◌∷◌, Result, ok, if◌then◌else◌, ◌==◌,
}
use source2root.Base.Text.{Bytes, ℤ}
use source2root.Base.Table.{lookup, bytes_key, Distinct}
use source2root.Base.Table.Laws.{keys}
use source2root.Preferences.Checks.{Definition}
use source2root.Preferences.{Failure, Value, Values, Task, to_load, has_loaded, to_save, has_saved}

-- What is stored of a value: not its revision.
abbrev pub saved_value : Value → Bytes × ℤ
saved_value v = (v.text, v.updated)

-- The entry of a table, or else what was there
abbrev pub or_saved : Option Value → Option (Bytes × ℤ) → Option (Bytes × ℤ)
or_saved none old = old
or_saved (some v) old = some (saved_value v)

-- Storage, with what the service relies on: a load gives what is stored, a save stores its batch and
-- nothing else, a save that throws and a registration store no value. `S` is the database.
pub record Storage (S : Type 0) : Type 0 where
  pub load_values : S → ℕ → Result Failure Values
  pub save_values : S → ℕ → Values → S × Option Failure
  pub register_cookie : S → Definition → S × Option Failure
  pub stored_catalog : S → Result Failure (List Definition)
  pub stored : S → ℕ → Bytes → Option (Bytes × ℤ)
  pub load_lem :
      (s : S) (id : ℕ) (vs : Values)
      → load_values s id ≡ ok vs
      → (n : Bytes) → or_saved (lookup n vs) none ≡ stored s id n
  pub save_lem :
      (s s' : S) (id : ℕ) (vs : Values)
      → Distinct (keys vs)
      → save_values s id vs ≡ (s', none)
      → (i : ℕ) (n : Bytes)
      → stored s' i n ≡ (if id == i then or_saved (lookup n vs) (stored s i n) else stored s i n)
  pub failed_lem :
      (s s' : S) (id : ℕ) (vs : Values) (f : Failure)
      → save_values s id vs ≡ (s', some f)
      → (i : ℕ) (n : Bytes) → stored s' i n ≡ stored s i n
  pub register_lem :
      (s : S) (d : Definition) (i : ℕ) (n : Bytes)
      → stored (register_cookie s d).0 i n ≡ stored s i n

module _ {S : Type 0} (storage : Storage S) where
  -- The worker runs one task of an account.
  unfoldable pub work : ℕ → Task → S → S × Task
  work id to_load s = (s, has_loaded (storage.load_values s id))
  work id (to_save batch) s =
      let (s', failure) = storage.save_values s id batch in (s', has_saved batch failure)
  work id (has_loaded r) s = (s, has_loaded r)
  work id (has_saved batch f) s = (s, has_saved batch f)

abbrev pub is_done : Task → Bool
is_done to_load = false
is_done (has_loaded r) = true
is_done (to_save batch) = false
is_done (has_saved batch f) = true

module _ {S : Type 0} (storage : Storage S) where
  -- The one worker takes the oldest task that it has not run, here among an account's.
  unfoldable pub work_next : ℕ → S → List Task → S × List Task
  work_next id s [] = (s, [])
  work_next id s (t ∷ r) =
      let rest = work_next id s r in
      if is_done t
      then (rest.0, t ∷ rest.1)
      else (let done = work storage id t s in (done.0, done.1 ∷ r))
