-- ===== src/TopMenu/Sorted.antt =====
-- src/extensions/topmenus/catalog.cpp, Menu::Active: what is listed, and in which order.
use source2root.Base.{
  ℕ, ◌≤◌, ◌≡◌, ◌⊎◌, inl, inr, refl, sym, ap, ◌∙◌, ◌&&◌, Bool, true, false, none, some, List, [],
  ◌∷◌, if◌then◌else◌, arith, Bool-cases, Option-cases, &&-true,
}
use source2root.Base.Text.{Bytes, bytes_eq, bytes_eq_iff, bytes_eq_refl}
use source2root.Base.Table.{lookup, bytes_key, Distinct, member}
use source2root.Base.Table.Laws.{keys, lookup-member, equal-eq, equal_refl}
use source2root.TopMenu.{Object, Menu, living}
use source2root.TopMenu.Active.{latest, insert, sort, before, active}
use source2root.TopMenu.Objects.{
  Among, counts, newest, lookup-latest, Distinct-latest, newest-Among, newest-AtLeast,
}

Among-insert : (o p : Object) (l : List Object) → Among o (insert p l) → (o ≡ p) ⊎ Among o l
unfolding insert
Among-insert o p [] (inl e) = inl e
Among-insert o p [] (inr a) = inr a
Among-insert o p (q ∷ rest) a = elim (Bool-cases (before q p)) [
  | inl b ↦ elim (rw b at a) [
    | inl e ↦ inr (inl e)
    | inr a' ↦ elim (Among-insert o p rest a') [ inl e ↦ inl e | inr t ↦ inr (inr t) ]
  ]
  | inr b ↦ rw b at a
]

insert-Among : (o p : Object) (l : List Object) → (o ≡ p) ⊎ Among o l → Among o (insert p l)
unfolding insert
insert-Among o p [] (inl e) = inl e
insert-Among o p [] (inr a) = absurd a
insert-Among o p (q ∷ rest) h = elim (Bool-cases (before q p)) [
  | inl b ↦ rw b (go (insert-Among o p rest) h)
  | inr b ↦ rw b h
]
  where
    go :
        ((o ≡ p) ⊎ Among o rest → Among o (insert p rest))
        → (o ≡ p) ⊎ Among o (q ∷ rest)
        → (o ≡ q) ⊎ Among o (insert p rest)
    go deeper (inl e) = inr (deeper (inl e))
    go deeper (inr (inl e)) = inl e
    go deeper (inr (inr a)) = inr (deeper (inr a))

Among-sort :
    (o : Object) (t : List (Bytes × Object))
    → Distinct (keys t)
    → Among o (sort t)
    → (k : Bytes) × (lookup k t ≡ some o)
unfolding sort
Among-sort o [] d a = absurd a
Among-sort o ((k, p) ∷ t) d a = elim (Among-insert o p (sort t) a) [
  | inl e ↦ (k, rw (equal_refl k) (ap some (sym e)))
  | inr a' ↦
      let (j, found) = Among-sort o t d.1 a' in
      (j, other j found (Bool-cases (bytes_key.equal k j)))
]
  where
    other :
        (j : Bytes)
        → lookup j t ≡ some o
        → (bytes_key.equal k j ≡ true) ⊎ (bytes_key.equal k j ≡ false)
        → lookup j ((k, p) ∷ t) ≡ some o
    other j found (inl q) =
        let here : member k (keys t) ≡ true = rw (equal-eq k j q) (lookup-member j o t found) in
        absurd (cc (here, d.0))
    other j found (inr q) = rw q found

sort-Among :
    (o : Object) (k : Bytes) (t : List (Bytes × Object)) → lookup k t ≡ some o → Among o (sort t)
unfolding sort
sort-Among o k [] e = absurd (cc e)
sort-Among o k ((j, p) ∷ t) e = elim (Bool-cases (bytes_key.equal j k)) [
  | inl q ↦ insert-Among o p (sort t) (inl (let e' = rw q at e in cc e'))
  | inr q ↦ insert-Among o p (sort t) (inr (sort-Among o k t (rw q at e)))
]

Among-if :
    (o p : Object) (b : Bool) (l : List Object)
    → Among o (if b then p ∷ l else l)
    → ((o ≡ p) × (b ≡ true)) ⊎ Among o l
Among-if o p true l (inl e) = inl (e, refl)
Among-if o p true l (inr a) = inr a
Among-if o p false l a = inr a

if-Among :
    (o p : Object) (b : Bool) (l : List Object)
    → ((o ≡ p) × (b ≡ true)) ⊎ Among o l
    → Among o (if b then p ∷ l else l)
if-Among o p true l (inl (e, t)) = inl e
if-Among o p true l (inr a) = inr a
if-Among o p false l (inl (e, t)) = absurd (cc t)
if-Among o p false l (inr a) = a

living-Among : (o : Object) (l : List Object) → Among o (living l) → Among o l × (o.live ≡ true)
living-Among o [] a = absurd a
living-Among o (p ∷ l) a = elim (Among-if o p p.live (living l) a) [
  | inl (e, live) ↦ (inl e, ap (λ (x : Object). x.live) e ∙ live)
  | inr a' ↦ let (there, live) = living-Among o l a' in (inr there, live)
]

Among-living : (o : Object) (l : List Object) → Among o l → o.live ≡ true → Among o (living l)
Among-living o [] a h = absurd a
Among-living o (p ∷ l) (inl e) h =
    if-Among o p p.live (living l) (inl (e, sym (ap (λ (x : Object). x.live) e) ∙ h))
Among-living o (p ∷ l) (inr a) h = if-Among o p p.live (living l) (inr (Among-living o l a h))

module _ (running : ℕ → Bool) (m : Menu) where
  abbrev table : List (Bytes × Object)
  table = latest running (living m.objects) []

  pub listed :
      (o : Object)
      → Among o (active running m).1
      → (k : Bytes) × (newest running k (living m.objects) none ≡ some o)
  unfolding active
  listed o a =
      let (k, found) = Among-sort o table (Distinct-latest running (living m.objects) [] tt) a in
      (k, sym (lookup-latest running k (living m.objects) []) ∙ found)

  -- Active lists only objects of the menu that are live and of a running script, and each is the
  -- newest of those with its name.
  pub active-newest :
      (o : Object)
      → Among o (active running m).1
      → Among o m.objects
        × (o.live ≡ true)
        × (running o.owner ≡ true)
        × ((p : Object)
            → Among p m.objects
            → p.live ≡ true
            → running p.owner ≡ true
            → p.key ≡ o.key
            → p.sequence ≤ o.sequence)
  active-newest o a =
      let (k, best) = listed o a in
      elim (newest-Among running k (living m.objects) none o best) [
        | inl e ↦ absurd (cc e)
        | inr (among, c) ↦
            let (there, live) = living-Among o m.objects among in
            let (open_runs, name) = &&-true (o.live && running o.owner) (bytes_eq o.key k) c in
            let named : o.key ≡ k = (bytes_eq_iff o.key k).0 name in
            (
              there,
              live,
              ground (arith, open_runs),
              λ p among' live' runs same.
                  let counted : counts running k p ≡ true =
                    rw (live', runs, same, named) (bytes_eq_refl k) in
                  let bound =
                    newest-AtLeast running k p (living m.objects) none
                      (Among-living p m.objects among' live') counted in
                  rw best at bound,
            )
      ]

  -- Of every name that a live object of a running script has, Active lists an object.
  pub active_complete :
      (p : Object)
      → Among p m.objects
      → p.live ≡ true
      → running p.owner ≡ true
      → (o : Object) × Among o (active running m).1 × (o.key ≡ p.key)
  active_complete p a live runs =
      let among = Among-living p m.objects a live in
      let counted : counts running p.key p ≡ true = rw (live, runs) (bytes_eq_refl p.key) in
      let bound = newest-AtLeast running p.key p (living m.objects) none among counted in
      elim (Option-cases (newest running p.key (living m.objects) none)) [
        | inl e ↦ absurd (rw e at bound)
        | inr (o, e) ↦ elim (newest-Among running p.key (living m.objects) none o e) [
          | inl q ↦ absurd (cc q)
          | inr (there, c) ↦
              let (open_runs, name) =
                &&-true (o.live && running o.owner) (bytes_eq o.key p.key) c in
              (
                o,
                unfold active in
                    sort-Among o p.key table
                      (lookup-latest running p.key (living m.objects) [] ∙ e),
                (bytes_eq_iff o.key p.key).0 name,
              )
        ]
      ]
