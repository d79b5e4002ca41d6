-- ===== src/Handles/Cases.antt =====
-- src/handles.h: what Add and Check have done when they return, each as one type.
use source2root.Base.{
  ℕ, suc, ◌+◌, ◌<◌, ◌≡◌, ◌≢◌, refl, inl, inr, true, List, [], ◌∷◌, ◌++◌, some, ok, arith, length,
  get_elem?, set, Option-cases, Bool-cases, get_elem?-lt, not, ◌||◌, ◌==◌,
}
use source2root.Base.Text.{ℤ}
use source2root.Handles.Id.{encode, raw, slot_bits, generation_bits, is_positive}
use source2root.Handles.{Entry, claim, append, add, check, max_generation}

module _ {V : Type 0} where
  abbrev pub new_entry : ℕ → ℕ → V → ℕ → Entry V
  new_entry owner type value g = record {
    generation = g;
    type = type;
    owner = owner;
    value = value;
  }

  -- A free slot was taken again under its next generation, or a slot was added.
  pub data Added (owner type : ℕ) (v : V) (es : List (Entry V)) (id : ℤ) (es' : List (Entry V))
      : Type 0 where
    reused :
        (k : ℕ) (e : Entry V)
        → get_elem? es k ≡ some e
        → e.owner ≡ 0
        → e.generation ≢ max_generation
        → id ≡ encode (e.generation + 1) k
        → es' ≡ set es k (new_entry owner type v (e.generation + 1))
        → Added owner type v es id es'
    fresh :
        length es < 4095
        → id ≡ encode 1 (length es)
        → es' ≡ es ++ new_entry owner type v 1 ∷ []
        → Added owner type v es id es'

  abbrev Claimed : ℕ → ℕ → V → ℕ → List (Entry V) → ℤ → List (Entry V) → Type 0
  Claimed owner type v i es id es' =
      (k : ℕ) × (e : Entry V) × (get_elem? es k ≡ some e)
      × (e.owner ≡ 0)
      × (e.generation ≢ max_generation)
      × (id ≡ encode (e.generation + 1) (i + k))
      × (es' ≡ set es k (new_entry owner type v (e.generation + 1)))

  claim-Claimed :
      (owner type : ℕ) (v : V) (i : ℕ) (es : List (Entry V)) (id : ℤ) (es' : List (Entry V))
      → claim owner type v i es ≡ some (id, es')
      → Claimed owner type v i es id es'
  unfolding claim
  claim-Claimed owner type v i [] id es' h = cc
  claim-Claimed owner type v i (x ∷ es) id es' h =
      elim (Bool-cases (not (x.owner == 0) || x.generation == max_generation)) [
        | inr free ↦ (0, x, refl, ground arith, ground arith, ground arith, ground arith)
        | inl skip ↦ elim (Option-cases (claim owner type v (i + 1) es)) [
          | inl none_left ↦ absurd (ground arith)
          | inr ((later, rest), found) ↦
              let (k, e, at_k, free, left, ids, sets) =
                claim-Claimed owner type v (i + 1) es later rest found in
              (suc k, e, at_k, free, left, ground arith, ground arith)
        ]
      ]

  pub add-Added :
      (owner type : ℕ) (v : V) (es : List (Entry V)) (id : ℤ) (es' : List (Entry V))
      → add owner type v es ≡ ok (id, es')
      → (owner ≢ 0) × (type ≢ 0) × Added owner type v es id es'
  unfolding add append
  add-Added owner type v es id es' h = elim (Option-cases (claim owner type v 0 es)) [
    | inl e ↦ (ground arith, ground arith, fresh (ground arith) (ground arith) (ground arith))
    | inr ((found, rest), e) ↦
        let (k, x, at_k, free, left, ids, sets) = claim-Claimed owner type v 0 es found rest e in
        (ground arith, ground arith, reused k x at_k free left (ground arith) (ground arith))
  ]

  -- The identifier names entry `e` at index `i`, for this owner and type.
  pub record Opens (id : ℤ) (owner type : ℕ) (es : List (Entry V)) (i : ℕ) (e : Entry V)
      : Type 0 where
    pub positive : is_positive id ≡ true
    pub slot : slot_bits (raw id) ≡ suc i
    pub entry : get_elem? es i ≡ some e
    pub owned : owner ≢ 0
    pub owners : e.owner ≡ owner
    pub types : e.type ≡ type
    pub generations : e.generation ≡ generation_bits (raw id)

  pub Opens-check :
      (id : ℤ) (owner type : ℕ) (es : List (Entry V)) (i : ℕ) (e : Entry V)
      → Opens id owner type es i e
      → check id owner type es ≡ ok (i, e)
  unfolding check
  Opens-check id owner type es i e o =
      rw (o.positive, o.slot, check) (ground (arith, o.entry, get_elem?-lt es i o.entry))

  pub check-Opens :
      (id : ℤ) (owner type : ℕ) (es : List (Entry V)) (i : ℕ) (e : Entry V)
      → check id owner type es ≡ ok (i, e)
      → Opens id owner type es i e
  unfolding check
  check-Opens id owner type es i e o = ground arith

  pub Opens-move :
      {id : ℤ} {owner type : ℕ} {es es' : List (Entry V)} {i : ℕ} {e : Entry V}
      → Opens id owner type es i e
      → get_elem? es' i ≡ some e
      → Opens id owner type es' i e
  Opens-move o at = record {
    positive = o.positive;
    slot = o.slot;
    entry = at;
    owned = o.owned;
    owners = o.owners;
    types = o.types;
    generations = o.generations;
  }
