-- ===== src/Base/Table.antt =====
-- std::map and std::set as lists, with the order of insertion in place of the order of keys.
pub mod Laws
use mathlib.Core.Path.{◌≡◌}
use mathlib.Core.Logic.{◌↔◌}
use mathlib.Core.Bool.{Bool, true, false}
use mathlib.Core.Option.{Option, none, some}
use mathlib.Core.List.{List, [], ◌∷◌}
use source2root.Base.Tests.{if◌then◌else◌, ==_iff}
use source2root.Base.Tests.{◌==◌ as nat_eq}
use source2root.Base.Text.{Bytes, bytes_eq, bytes_eq_iff}
use Prim.Native.Nat.{ℕ}

-- A key type with its ==.
pub record Key (K : Type 0) : Type 0 where
  pub equal : K → K → Bool
  pub equal_iff : (a b : K) → (equal a b ≡ true) ↔ (a ≡ b)

instance abbrev pub nat_key : Key ℕ
nat_key = record { equal = nat_eq; equal_iff = ==_iff }

instance abbrev pub bytes_key : Key Bytes
bytes_key = record { equal = bytes_eq; equal_iff = bytes_eq_iff }

module _ {ℓ} {K : Type 0} {V : Type ℓ} ⦃key : Key K⦄ where
  abbrev pub lookup : K → List (K × V) → Option V
  lookup k [] = none
  lookup k ((j, v) ∷ m) = if key.equal j k then some v else lookup k m

  abbrev pub has : K → List (K × V) → Bool
  has k m = elim (lookup k m) [ none ↦ false | some v ↦ true ]

  -- m[k] = v
  abbrev pub put : K → V → List (K × V) → List (K × V)
  put k v [] = (k, v) ∷ []
  put k v ((j, w) ∷ m) = if key.equal j k then (k, v) ∷ m else (j, w) ∷ put k v m

  -- m.erase(k)
  abbrev pub without : K → List (K × V) → List (K × V)
  without k [] = []
  without k ((j, w) ∷ m) = let rest = without k m in if key.equal j k then rest else (j, w) ∷ rest

module _ {K : Type 0} ⦃key : Key K⦄ where
  abbrev pub member : K → List K → Bool
  member k [] = false
  member k (j ∷ s) = if key.equal j k then true else member k s

  abbrev pub Distinct : List K → Type 0
  Distinct [] = Unit
  Distinct (k ∷ s) = (member k s ≡ false) × Distinct s
