-- ===== src/Base/Table/Laws.antt =====
-- std::map as a list: what lookup gives after each change, and that no key stands twice.
use Prim.Native.Nat.{◌+◌, ◌≤◌}
use mathlib.Core.Path.{◌≡◌, refl}
use mathlib.Core.Logic.{inl, inr, ◌⊎◌}
use mathlib.Core.Bool.{true, false}
use mathlib.Core.Option.{none, some}
use mathlib.Core.List.{List, [], ◌∷◌}
use native.Mathlib.Omega.{arith}
use source2root.Base.Tests.{if◌then◌else◌, Bool-cases}
use source2root.Base.Lists.{All, length}
use source2root.Base.Table.{Key, lookup, put, without, member, Distinct}

module _ {K : Type 0} ⦃key : Key K⦄ where
  pub equal_refl : (k : K) → key.equal k k ≡ true
  equal_refl k = (key.equal_iff k k).1 refl

  pub equal-eq : (j k : K) → key.equal j k ≡ true → j ≡ k
  equal-eq j k = (key.equal_iff j k).0

module _ {ℓ} {K : Type 0} {V : Type ℓ} ⦃key : Key K⦄ where
  pub lookup-put :
      (j k : K) (v : V) (m : List (K × V))
      → lookup j (put k v m) ≡ (if key.equal k j then some v else lookup j m)
  lookup-put j k v [] = refl
  lookup-put j k v ((i, w) ∷ m) =
      ground (arith, key.equal_iff i k, key.equal_iff k j, key.equal_iff i j, lookup-put j k v m)

  pub lookup-without :
      (j k : K) (m : List (K × V))
      → lookup j (without k m) ≡ (if key.equal k j then none else lookup j m)
  lookup-without j k [] = ground arith
  lookup-without j k ((i, w) ∷ m) =
      ground (arith, key.equal_iff i k, key.equal_iff k j, key.equal_iff i j, lookup-without j k m)

  -- The keys of a table
  abbrev pub keys : List (K × V) → List K
  keys [] = []
  keys ((k, v) ∷ m) = k ∷ keys m

  member-put :
      (j k : K) (v : V) (m : List (K × V))
      → member j (keys (put k v m)) ≡ (if key.equal k j then true else member j (keys m))
  member-put j k v [] = refl
  member-put j k v ((i, w) ∷ m) =
      ground (arith, key.equal_iff i k, key.equal_iff k j, key.equal_iff i j, member-put j k v m)

  member-without :
      (j k : K) (m : List (K × V))
      → member j (keys m) ≡ false
      → member j (keys (without k m)) ≡ false
  member-without j k [] h = refl
  member-without j k ((i, w) ∷ m) h = ground (arith, member-without j k m)

  pub Distinct-put :
      (k : K) (v : V) (m : List (K × V)) → Distinct (keys m) → Distinct (keys (put k v m))
  Distinct-put k v [] h = (refl, tt)
  Distinct-put k v ((i, w) ∷ m) h =
      ground (arith, key.equal_iff i k, key.equal_iff k i, member-put i k v m, Distinct-put k v m)

  pub Distinct-without :
      (k : K) (m : List (K × V)) → Distinct (keys m) → Distinct (keys (without k m))
  Distinct-without k [] h = tt
  Distinct-without k ((i, w) ∷ m) h = ground (arith, member-without i k m, Distinct-without k m)

  pub length-put : (k : K) (v : V) (m : List (K × V)) → length (put k v m) ≤ length m + 1
  length-put k v [] = omega arith
  length-put k v ((i, w) ∷ m) = ground (arith, length-put k v m)

  pub length-without : (k : K) (m : List (K × V)) → length (without k m) ≤ length m
  length-without k [] = omega arith
  length-without k ((i, w) ∷ m) = ground (arith, length-without k m)

  pub lookup-member :
      (j : K) (v : V) (m : List (K × V)) → lookup j m ≡ some v → member j (keys m) ≡ true
  lookup-member j v [] h = cc
  lookup-member j v ((i, w) ∷ m) h = ground (arith, lookup-member j v m)

  -- Each entry of a table without double keys is the one that lookup finds.
  pub All-found :
      (P : K → V → Type 0) (m : List (K × V))
      → Distinct (keys m)
      → ((k : K) (v : V) → lookup k m ≡ some v → P k v)
      → All (λ e. P e.0 e.1) m
  All-found P [] d h = tt
  All-found P ((i, w) ∷ m) d h = (
    h i w (rw (equal_refl i) refl),
    All-found P m d.1 λ k v e. h k v (rest k v e (Bool-cases (key.equal i k))),
  )
    where
      rest :
          (k : K) (v : V)
          → lookup k m ≡ some v
          → (key.equal i k ≡ true) ⊎ (key.equal i k ≡ false)
          → lookup k ((i, w) ∷ m) ≡ some v
      rest k v e (inl q) =
          let same : i ≡ k = equal-eq i k q in
          let here : member i (keys m) ≡ true = rw same (lookup-member k v m e) in
          absurd (ground (arith, here, d.0))
      rest k v e (inr q) = rw q e
