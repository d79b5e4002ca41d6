-- ===== src/Preferences/Maps.antt =====
-- The tables of an account: what the overlay and the clean-up of service.cpp leave under a name.
use source2root.Base.{
  ◌≡◌, refl, ap, ◌∙◌, ◌⊎◌, inl, inr, true, false, Option, none, some, [], ◌∷◌, if◌then◌else◌, ◌==◌,
  ==_refl, arith, Bool-cases, Option-cases, if-either, sym,
}
use source2root.Base.Text.{Bytes}
use source2root.Base.Table.{lookup, put, without, member, bytes_key, Distinct}
use source2root.Base.Table.Laws.{
  keys, lookup-put, lookup-without, Distinct-without, equal_refl, equal-eq, lookup-member,
}
use source2root.Preferences.{Value, Values, overlay, clean, same_write}

abbrev pub or_else {ℓ} : {A : Type ℓ} → Option A → Option A → Option A
or_else none o = o
or_else (some a) o = some a

pub lookup-overlay :
    (n : Bytes) (dirty values : Values)
    → Distinct (keys dirty)
    → lookup n (overlay dirty values) ≡ or_else (lookup n dirty) (lookup n values)
unfolding overlay
lookup-overlay n [] values d = refl
lookup-overlay n ((k, v) ∷ dirty) values d = elim (Bool-cases (bytes_key.equal k n)) [
  | inl same ↦
      let gone : lookup n dirty ≡ none = unlisted same (Option-cases (lookup n dirty)) in
      rw (lookup-overlay n dirty (put k v values) d.1, gone, lookup-put n k v values, same) refl
  | inr other ↦
      rw (lookup-overlay n dirty (put k v values) d.1, lookup-put n k v values, other) refl
]
  where
    unlisted :
        bytes_key.equal k n ≡ true
        → (lookup n dirty ≡ none) ⊎ ((w : Value) × (lookup n dirty ≡ some w))
        → lookup n dirty ≡ none
    unlisted same (inl e) = e
    unlisted same (inr (w, e)) =
        let here : member k (keys dirty) ≡ true =
          rw (equal-eq k n same) (lookup-member n w dirty e) in
        absurd (ground (arith, here, d.0))

-- One entry of the batch: the name is as before, or clean where its write is the batch's.
abbrev pub cleaned : Bytes → Value → Values → Values
cleaned k w dirty = if same_write w (lookup k dirty) then without k dirty else dirty

-- The entry of `n` was the batch's.
abbrev pub Saved : Bytes → Values → Values → Type 0
Saved n batch dirty =
    (w : Value) × (v : Value) × (lookup n batch ≡ some w)
    × (lookup n dirty ≡ some v)
    × (v.revision ≡ w.revision)

lookup-cleaned_ne :
    (n k : Bytes) (w : Value) (dirty : Values)
    → bytes_key.equal k n ≡ false
    → lookup n (cleaned k w dirty) ≡ lookup n dirty
lookup-cleaned_ne n k w dirty other = elim (Bool-cases (same_write w (lookup k dirty))) [
  | inl same ↦ rw (same, lookup-without n k dirty, other) refl
  | inr differs ↦ rw differs refl
]

lookup-cleaned_self :
    (n k : Bytes) (w : Value) (dirty : Values)
    → bytes_key.equal k n ≡ true
    → (lookup n (cleaned k w dirty) ≡ lookup n dirty)
      ⊎ ((lookup n (cleaned k w dirty) ≡ none)
          × ((v : Value) × (lookup n dirty ≡ some v) × (v.revision ≡ w.revision)))
lookup-cleaned_self n k w dirty same =
    let names : k ≡ n = equal-eq k n same in
    elim (Option-cases (lookup k dirty)) [
      | inl e ↦ inl (rw e refl)
      | inr (v, e) ↦ elim (Bool-cases (v.revision == w.revision)) [
        | inl r ↦ inr (
          rw (e, r, lookup-without n k dirty, same) refl,
          (v, ap (λ m. lookup m dirty) (sym names) ∙ e, ground (arith, r)),
        )
        | inr r ↦ inl (rw (e, r) refl)
      ]
    ]

pub lookup-clean :
    (n : Bytes) (batch dirty : Values)
    → Distinct (keys batch)
    → (lookup n (clean batch dirty) ≡ lookup n dirty)
      ⊎ ((lookup n (clean batch dirty) ≡ none) × Saved n batch dirty)
unfolding clean
lookup-clean n [] dirty d = inl refl
lookup-clean n ((k, w) ∷ batch) dirty d = elim (Bool-cases (bytes_key.equal k n)) [
  | inr other ↦ elim (lookup-clean n batch (cleaned k w dirty) d.1) [
    | inl e ↦ inl (e ∙ lookup-cleaned_ne n k w dirty other)
    | inr (e, (w', v, in_batch, in_dirty, same)) ↦
        inr (
          e,
          (w', v, rw other in_batch, sym (lookup-cleaned_ne n k w dirty other) ∙ in_dirty, same),
        )
  ]
  | inl same ↦ elim (lookup-clean n batch (cleaned k w dirty) d.1) [
    | inl e ↦ elim (lookup-cleaned_self n k w dirty same) [
      | inl kept ↦ inl (e ∙ kept)
      | inr (gone, (v, in_dirty, revision)) ↦
          inr (e ∙ gone, (w, v, rw same refl, in_dirty, revision))
    ]
    | inr (e, (w', v, in_batch, in_dirty, revision)) ↦
        let here : member k (keys batch) ≡ true =
          rw (equal-eq k n same) (lookup-member n w' batch in_batch) in
        absurd (ground (arith, here, d.0))
  ]
]

pub Distinct-clean :
    (batch dirty : Values) → Distinct (keys dirty) → Distinct (keys (clean batch dirty))
unfolding clean
Distinct-clean [] dirty d = d
Distinct-clean ((k, w) ∷ batch) dirty d = Distinct-clean batch (cleaned k w dirty) (
    if-either (λ (m : Values). Distinct (keys m)) (same_write w (lookup k dirty))
      (λ e. Distinct-without k dirty d) (λ e. d))

without-absent : (k : Bytes) (m : Values) → member k (keys m) ≡ false → without k m ≡ m
without-absent k [] h = refl
without-absent k ((j, v) ∷ m) h =
    let other : bytes_key.equal j k ≡ false = ground (arith, h) in
    rw other (ap (λ r. (j, v) ∷ r) (without-absent k m (ground (arith, h))))

-- A batch that nothing has been written over since is clean altogether.
pub clean_self : (m : Values) → Distinct (keys m) → clean m m ≡ []
unfolding clean
clean_self [] h = refl
clean_self ((k, v) ∷ m) h =
    rw (equal_refl k, ==_refl v.revision, without-absent k m h.0) (clean_self m h.1)
