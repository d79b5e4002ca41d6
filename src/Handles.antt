-- ===== src/Handles.antt =====
-- src/handles.h: the table of script handles. A slot keeps its generation when its resource goes,
-- so that the identifier of an old resource never opens a new one. A destructor that runs at the
-- end of Remove or Retire sees the table that these return; the values destroyed are part of the
-- result.
pub mod Id
pub mod Cases
pub mod Invariant
pub mod Lookup
pub mod Stale
pub mod Owners
mod Tests
use source2root.Base.{
  ℕ, zero, suc, ◌+◌, ◌-◌, ◌*◌, ◌^◌, ◌&&◌, ◌||◌, Bool, true, false, not, Option, none, some, List,
  [], ◌∷◌, ◌++◌, Result, ok, err, is_ok, ◌>>=◌, ◌>>◌, or_throw, throw_if, if◌then◌else◌, ◌==◌, ltb,
  leb, length, get_elem?, set,
}
use source2root.Base.Text.{ℤ}
use Id.{encode, raw, slot_bits, generation_bits, is_positive}

-- MaxGeneration
abbrev pub max_generation : ℕ
max_generation = 2 ^ 19 - 1

-- struct Entry
pub record Entry (V : Type 0) : Type 0 where
  pub generation : ℕ
  pub type : ℕ
  pub owner : ℕ
  pub value : V

pub data HandleError : Type 0 where
  invalid_owner_or_type capacity_exhausted invalid_handle stale_handle : HandleError

module _ {V : Type 0} where
  -- The loop of Add: the first slot that is free and has a generation left.
  claim : ℕ → ℕ → V → ℕ → List (Entry V) → Option (ℤ × List (Entry V))
  claim owner type value i [] = none
  claim owner type value i (e ∷ es) =
      let later : Option (ℤ × List (Entry V)) = elim (claim owner type value (i + 1) es) [
        | none ↦ none
        | some (id, es') ↦ some (id, e ∷ es')
      ] in
      let taken : Entry V = record {
        generation = e.generation + 1;
        type = type;
        owner = owner;
        value = value;
      } in
      if not (e.owner == 0) || e.generation == max_generation
      then later
      else some (encode (e.generation + 1) i, taken ∷ es)

  -- The end of Add: a new slot, while the slot number fits 12 bits.
  append : ℕ → ℕ → V → List (Entry V) → Result HandleError (ℤ × List (Entry V))
  append owner type value es =
      if leb 4095 (length es)
      then err capacity_exhausted
      else ok (
        encode 1 (length es),
        es ++ record { generation = 1; type = type; owner = owner; value = value } ∷ [],
      )

  pub add : ℕ → ℕ → V → List (Entry V) → Result HandleError (ℤ × List (Entry V))
  add owner type value es =
      if owner == 0 || type == 0
      then err invalid_owner_or_type
      else elim (claim owner type value 0 es) [
        | some done ↦ ok done
        | none ↦ append owner type value es
      ]

  -- Check: the slot's index and its entry.
  pub check : ℤ → ℕ → ℕ → List (Entry V) → Result HandleError (ℕ × Entry V)
  check id owner type es = do
    let slot = slot_bits (raw id)
    throw_if (not (is_positive id) || slot == 0 || ltb (length es) slot) invalid_handle
    entry ← or_throw (get_elem? es (slot - 1)) invalid_handle
    throw_if
        (owner == 0
          || not (entry.owner == owner)
          || not (entry.type == type)
          || not (entry.generation == generation_bits (raw id)))
        stale_handle
    ok (slot - 1, entry)

  pub get : ℤ → ℕ → ℕ → List (Entry V) → Result HandleError V
  get id owner type es = do found ← check id owner type es; ok found.1.value

  pub contains : ℤ → ℕ → ℕ → List (Entry V) → Bool
  contains id owner type es = is_ok (check id owner type es)

  abbrev pub selected : ℕ → ℕ → Entry V → Bool
  selected owner type e = e.owner == owner && (type == 0 || e.type == type)

  owned_from : ℕ → ℕ → ℕ → List (Entry V) → List ℤ
  owned_from owner type i [] = []
  owned_from owner type i (e ∷ es) =
      let rest = owned_from owner type (i + 1) es in
      if selected owner type e then encode e.generation i ∷ rest else rest

  pub owned : ℕ → ℕ → List (Entry V) → List ℤ
  owned owner type es = if owner == 0 then [] else owned_from owner type 0 es

  pub count : List (Entry V) → ℕ
  count [] = 0
  count (e ∷ es) = let rest = count es in if e.owner == 0 then rest else rest + 1

-- `blank` is the value-initialised resource, `Value{}`.
module _ {V : Type 0} (blank : V) where
  -- entry.owner = 0; entry.type = 0; entry.value = {};
  abbrev pub cleared : Entry V → Entry V
  cleared e = record e { type = 0; owner = 0; value = blank }

  -- Remove: the value that is destroyed at the end, and the table that its destructor sees.
  pub remove : ℤ → ℕ → ℕ → List (Entry V) → Result HandleError (V × List (Entry V))
  remove id owner type es = do
    found ← check id owner type es
    ok (found.1.value, set es found.0 (cleared found.1))

  -- Retire: the values destroyed at the end, and the table.
  pub retire : ℕ → ℕ → List (Entry V) → List V × List (Entry V)
  retire owner type [] = ([], [])
  retire owner type (e ∷ es) =
      let (values, rest) = retire owner type es in
      if selected owner type e then (e.value ∷ values, cleared e ∷ rest) else (values, e ∷ rest)

-- The calls that change the table.
pub data Call (V : Type 0) : Type 0 where
  adds : ℕ → ℕ → V → Call V
  removes : ℤ → ℕ → ℕ → Call V
  retires : ℕ → ℕ → Call V

-- A call that throws leaves the table as it was.
abbrev pub after :
    {A V : Type 0} → List (Entry V) → Result HandleError (A × List (Entry V)) → List (Entry V)
after es (ok done) = done.1
after es (err e) = es

module _ {V : Type 0} (blank : V) where
  pub step : List (Entry V) → Call V → List (Entry V)
  step es (adds owner type value) = after es (add owner type value es)
  step es (removes id owner type) = after es (remove blank id owner type es)
  step es (retires owner type) = (retire blank owner type es).1

  pub run : List (Entry V) → List (Call V) → List (Entry V)
  run es [] = es
  run es (c ∷ cs) = run (step es c) cs
