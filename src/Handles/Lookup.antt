-- ===== src/Handles/Lookup.antt =====
-- src/handles.h: what Get returns after Add, for the new handle and for the others.
use source2root.Base.{
  ℕ, suc, ◌+◌, ◌^◌, ◌*◌, ◌≤◌, ◌<◌, ◌≡◌, ◌≢◌, refl, ◌∙◌, inl, inr, List, false, some, ok, arith,
  length, get_elem?, Result-cases, get_elem?-set_self, get_elem?-set_ne, get_elem?-lt,
  get_elem?-append_left, get_elem?-append_end, All-get_elem?,
}
use source2root.Base.Text.{ℤ, pos}
use source2root.Handles.Id.{encode, encode_value, slot_bits, raw}
use source2root.Handles.{Entry, add, check, get, contains, max_generation}
use source2root.Handles.Cases.{
  new_entry, Added, reused, fresh, add-Added, Opens, check-Opens, Opens-check, Opens-move,
}
use source2root.Handles.Invariant.{Inv, IsSound}

module _ {V : Type 0} where
  -- The identifier that Add computes for a slot opens that slot.
  pub encode-Opens :
      (g i owner type : ℕ) (es : List (Entry V)) (e : Entry V)
      → g < 2 ^ 19
      → i < 4095
      → get_elem? es i ≡ some e
      → owner ≢ 0
      → e.owner ≡ owner
      → e.type ≡ type
      → e.generation ≡ g
      → Opens (encode g i) owner type es i e
  encode-Opens g i owner type es e hg hi at o eo et eg = rw (encode_value g i hg hi) (record {
    positive = ground arith;
    slot = omega arith;
    entry = at;
    owned = o;
    owners = eo;
    types = et;
    generations = omega arith;
  })

  -- Where the new handle's entry stands, and what the other entries are.
  Added-Opens :
      (owner type : ℕ) {v : V} {es es' : List (Entry V)} {id : ℤ}
      → Inv es
      → owner ≢ 0
      → Added owner type v es id es'
      → (k g : ℕ) × (g < 2 ^ 19)
        × (k < 4095)
        × (id ≡ encode g k)
        × Opens id owner type es' k (new_entry owner type v g)
  Added-Opens owner type {v} {es} {es'} h o (reused k e at free left ids sets) =
      let small : e.generation ≤ max_generation =
        (All-get_elem? IsSound es k h.sound at).generations in
      let fits : e.generation + 1 < 2 ^ 19 = omega arith in
      let place : k < length es = get_elem?-lt es k at in
      (
        k,
        e.generation + 1,
        fits,
        omega (arith, h.capacity),
        ids,
        rw (ids, sets)
            (encode-Opens (e.generation + 1) k owner type _ _ fits (omega (arith, h.capacity))
              (get_elem?-set_self es k _ place) o refl refl refl),
      )
  Added-Opens owner type {v} {es} {es'} h o (fresh room ids sets) = (
    length es,
    1,
    omega arith,
    room,
    ids,
    rw (ids, sets)
        (encode-Opens 1 (length es) owner type _ _ (omega arith) room (get_elem?-append_end es _) o
          refl refl refl),
  )

  -- In a well-formed table, the handle that Add returns gives back the value that was added, to the same owner and type.
  pub get-add :
      (owner type : ℕ) (v : V) (es es' : List (Entry V)) (id : ℤ)
      → Inv es
      → add owner type v es ≡ ok (id, es')
      → get id owner type es' ≡ ok v
  unfolding get
  get-add owner type v es es' id h e =
      let (owned, _, added) = add-Added owner type v es id es' e in
      let (k, g, _, _, _, opens) = Added-Opens owner type h owned added in
      rw (Opens-check id owner type es' k _ opens)

  Added-keeps :
      (owner type : ℕ) {v : V} {es es' : List (Entry V)} {id other : ℤ} (o t i : ℕ) (x : Entry V)
      → Added owner type v es id es'
      → Opens other o t es i x
      → get_elem? es' i ≡ some x
  Added-keeps owner type {es = es} o t i x (reused k e at free left ids sets) p =
      rw (sets, get_elem?-set_ne es {i = k} {j = i} _ (λ same. p.owned (same_slot same))) p.entry
    where
      same_slot : k ≡ i → o ≡ 0
      same_slot same =
          let at_i : get_elem? es i ≡ some e = rw same at at in
          let one : x.owner ≡ e.owner = ground (arith, p.entry, at_i) in cc (p.owners)
  Added-keeps owner type {es = es} o t i x (fresh room ids sets) p =
      rw (sets, get_elem?-append_left es _ i (get_elem?-lt es i p.entry)) p.entry

  -- Every handle that was open before stays open, and gives the same value.
  pub get-add_ne :
      (owner type : ℕ) (v w : V) (es es' : List (Entry V)) (id other : ℤ) (o t : ℕ)
      → add owner type v es ≡ ok (id, es')
      → get other o t es ≡ ok w
      → get other o t es' ≡ ok w
  unfolding get
  get-add_ne owner type v w es es' id other o t e h = elim (Result-cases (check other o t es)) [
    | inr (_, q) ↦ absurd (ground arith)
    | inl ((i, x), q) ↦
        let p = check-Opens other o t es i x q in
        let (_, _, added) = add-Added owner type v es id es' e in
        let kept : Opens other o t es' i x =
          Opens-move p (Added-keeps owner type o t i x added p) in
        rw (Opens-check other o t es' i x kept) (ground arith)
  ]

  Added-unopened :
      (owner type : ℕ) {v : V} {es es' : List (Entry V)} {id : ℤ} (o t i : ℕ) (x : Entry V)
      → Inv es
      → Added owner type v es id es'
      → ¬ Opens id o t es i x
  Added-unopened owner type {es = es} o t i x h (reused k e at free left ids sets) p =
      let small : e.generation ≤ max_generation =
        (All-get_elem? IsSound es k h.sound at).generations in
      let place : k < length es = get_elem?-lt es k at in
      let value : _ =
        ids ∙ encode_value (e.generation + 1) k (omega arith) (omega (arith, h.capacity)) in
      let slot : slot_bits (raw (pos ((e.generation + 1) * 4096 + k + 1))) ≡ suc i =
        rw value at p.slot in
      let same : k ≡ i = omega (arith, slot) in
      let at_i : get_elem? es i ≡ some e = rw same at at in
      ground (arith, p.entry, at_i, p.owned, p.owners)
  Added-unopened owner type {es = es} o t i x h (fresh room ids sets) p =
      let value : _ = ids ∙ encode_value 1 (length es) (omega arith) room in
      let slot : slot_bits (raw (pos (1 * 4096 + length es + 1))) ≡ suc i = rw value at p.slot in
      omega (arith, slot, get_elem?-lt es i p.entry)

  -- In a well-formed table, the new identifier is a positive int32 that opened nothing before, for any owner and type.
  pub add-id :
      (owner type : ℕ) (v : V) (es es' : List (Entry V)) (id : ℤ)
      → Inv es
      → add owner type v es ≡ ok (id, es')
      → (n : ℕ) × (id ≡ pos n) × (0 < n) × (n < 2 ^ 31) × ((o t : ℕ) → contains id o t es ≡ false)
  unfolding contains
  add-id owner type v es es' id h e =
      let (owned, _, added) = add-Added owner type v es id es' e in
      let (k, g, hg, hk, ids, _) = Added-Opens owner type h owned added in
      (
        g * 4096 + k + 1,
        ids ∙ encode_value g k hg hk,
        omega arith,
        omega arith,
        λ o t. unopened o t added,
      )
    where
      unopened : (o t : ℕ) → Added owner type v es id es' → contains id o t es ≡ false
      unopened o t added = elim (Result-cases (check id o t es)) [
        | inr (_, q) ↦ rw q
        | inl ((i, x), q) ↦
            absurd (Added-unopened owner type o t i x h added (check-Opens id o t es i x q))
      ]
