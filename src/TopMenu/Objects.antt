-- ===== src/TopMenu/Objects.antt =====
-- src/extensions/topmenus/catalog.cpp, Menu::Active: which objects it lists.
use source2root.Base.{
  ℕ, ◌≤◌, ◌≡◌, ◌⊎◌, inl, inr, refl, sym, ap, ◌∙◌, ◌&&◌, Bool, true, false, Option, none, some, List,
  [], ◌∷◌, if◌then◌else◌, arith, Bool-cases, if-either, ltb→lt, ltb-false→le,
}
use source2root.Base.Text.{Bytes, bytes_eq, bytes_eq_refl}
use source2root.Base.Table.{lookup, put, bytes_key, Distinct}
use source2root.Base.Table.Laws.{keys, lookup-put, Distinct-put, equal_refl, equal-eq}
use source2root.TopMenu.{Object}
use source2root.TopMenu.Active.{latest, newer}

abbrev pub Among : Object → List Object → Type 0
Among o [] = ⊥
Among o (p ∷ rest) = (o ≡ p) ⊎ Among o rest

-- An object that Active may list: live, of a running script, and of this name
abbrev pub counts : (ℕ → Bool) → Bytes → Object → Bool
counts running key o = o.live && running o.owner && bytes_eq o.key key

-- The newest of one name, independently of the table
abbrev pub newest : (ℕ → Bool) → Bytes → List Object → Option Object → Option Object
newest running key [] best = best
newest running key (o ∷ rest) best =
    newest running key rest (if counts running key o && newer o best then some o else best)

module _ (running : ℕ → Bool) where
  pub lookup-latest :
      (key : Bytes) (objects : List Object) (found : List (Bytes × Object))
      → lookup key (latest running objects found) ≡ newest running key objects (lookup key found)
  unfolding latest
  lookup-latest key [] found = refl
  lookup-latest key (o ∷ rest) found =
      lookup-latest key rest (next o found)
      ∙ ap (newest running key rest) (one (Bool-cases (bytes_key.equal o.key key)))
    where
      next : Object → List (Bytes × Object) → List (Bytes × Object)
      next o found =
          if o.live && running o.owner && newer o (lookup o.key found)
          then put o.key o found
          else found

      one :
          (bytes_key.equal o.key key ≡ true) ⊎ (bytes_key.equal o.key key ≡ false)
          → lookup key (next o found) ≡ (
              if counts running key o && newer o (lookup key found)
              then some o
              else lookup key found)
      one (inl same) =
          let names : o.key ≡ key = equal-eq o.key key same in
          let mine : bytes_eq o.key o.key ≡ true = bytes_eq_refl o.key in
          elim (Bool-cases (o.live && running o.owner && newer o (lookup o.key found))) [
            | inl q ↦
                let taken : (counts running o.key o && newer o (lookup o.key found)) ≡ true =
                  ground (arith, q, mine) in
                rw (sym names, q, taken)
                  (lookup-put o.key o.key o found ∙ rw (equal_refl o.key) refl)
            | inr q ↦
                let left : (counts running o.key o && newer o (lookup o.key found)) ≡ false =
                  ground (arith, q, mine) in
                rw (sym names, q, left) refl
          ]
      one (inr other) =
          let others : (counts running key o && newer o (lookup key found)) ≡ false =
            ground (arith, other) in
          elim (Bool-cases (o.live && running o.owner && newer o (lookup o.key found))) [
            | inl q ↦ rw (q, others) (lookup-put key o.key o found ∙ rw other refl)
            | inr q ↦ rw (q, others) refl
          ]

  pub Distinct-latest :
      (objects : List Object) (found : List (Bytes × Object))
      → Distinct (keys found)
      → Distinct (keys (latest running objects found))
  unfolding latest
  Distinct-latest [] found h = h
  Distinct-latest (o ∷ rest) found h =
      Distinct-latest rest
        (if o.live && running o.owner && newer o (lookup o.key found)
          then put o.key o found
          else found)
        (if-either (λ (t : List (Bytes × Object)). Distinct (keys t))
          (o.live && running o.owner && newer o (lookup o.key found))
          (λ e. Distinct-put o.key o found h) (λ e. h))

  -- What `newest` gives is one of the objects, or what it was given.
  pub newest-Among :
      (key : Bytes) (objects : List Object) (best : Option Object) (o : Object)
      → newest running key objects best ≡ some o
      → (best ≡ some o) ⊎ (Among o objects × (counts running key o ≡ true))
  newest-Among key [] best o e = inl e
  newest-Among key (p ∷ rest) best o e =
      elim (newest-Among key rest (if counts running key p && newer p best then some p else best) o
        e) [
          | inr (among, c) ↦ inr (inr among, c)
          | inl q ↦ elim (Bool-cases (counts running key p && newer p best)) [
            | inl t ↦
                let q' = rw t at q in
                let same : p ≡ o = cc q' in inr (inl (sym same), rw (sym same) (ground (arith, t)))
            | inr t ↦ inl (rw t at q)
          ]
        ]

  -- It is at least as new as each of them, and it is there if one is.
  abbrev pub AtLeast : ℕ → Option Object → Type 0
  AtLeast s none = ⊥
  AtLeast s (some o) = s ≤ o.sequence

  newest-kept :
      (key : Bytes) (s : ℕ) (objects : List Object) (best : Option Object)
      → AtLeast s best
      → AtLeast s (newest running key objects best)
  newest-kept key s [] best h = h
  newest-kept key s (p ∷ rest) best h =
      newest-kept key s rest (if counts running key p && newer p best then some p else best) (
        if-either (AtLeast s) (counts running key p && newer p best)
          (λ t. up best h (ground (arith, t))) (λ t. h))
    where
      up : (best : Option Object) → AtLeast s best → newer p best ≡ true → s ≤ p.sequence
      up none h n = absurd h
      up (some o) h n = omega (arith, ltb→lt o.sequence p.sequence n, h)

  pub newest-AtLeast :
      (key : Bytes) (p : Object) (objects : List Object) (best : Option Object)
      → Among p objects
      → counts running key p ≡ true
      → AtLeast p.sequence (newest running key objects best)
  newest-AtLeast key p [] best a c = absurd a
  newest-AtLeast key p (o ∷ rest) best (inr a) c =
      newest-AtLeast key p rest (if counts running key o && newer o best then some o else best) a c
  newest-AtLeast key p (o ∷ rest) best (inl same) c =
      newest-kept key p.sequence rest
        (if counts running key o && newer o best then some o else best)
        (rw (sym same) (taken best (Bool-cases (newer p best))))
    where
      taken :
          (best : Option Object)
          → (newer p best ≡ true) ⊎ (newer p best ≡ false)
          → AtLeast p.sequence (if counts running key p && newer p best then some p else best)
      taken best (inl n) = rw (c, n) (omega arith)
      taken none (inr n) = absurd (cc n)
      taken (some o) (inr n) = rw (c, n) (ltb-false→le o.sequence p.sequence n)
