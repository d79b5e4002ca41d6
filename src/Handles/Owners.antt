-- ===== src/Handles/Owners.antt =====
-- src/handles.h: Owned, Retire and Count.
use mathlib.Core.Logic.Or
use mathlib.Core.Bool.{Bool-set}
use mathlib.Core.List.{Mem, mem-cons, mem-cons_self, mem-cons_of_mem, not-mem-nil}
use source2root.Base.{
  ℕ, zero, suc, ◌+◌, ◌*◌, ◌^◌, ◌<◌, ◌≡◌, ◌≢◌, refl, ap, ◌∙◌, inl, inr, List, [], ◌∷◌, ◌↔◌, ◌&&◌,
  ◌||◌, ◌==◌, true, not, some, Option-cases, Bool-cases, is_ok, Bool, get_elem?-lt, arith, length,
  get_elem?, Result-cases, All-get_elem?, ==-false_of_ne, sym,
}
use source2root.Base.Text.{ℤ, pos}
use source2root.Handles.Id.{encode, encode_value}
use source2root.Handles.{Entry, check, contains, retire, selected, owned, owned_from, count}
use source2root.Handles.Cases.{Opens, check-Opens, Opens-check, Opens-move}
use source2root.Handles.Invariant.{Inv, IsSound}
use source2root.Handles.Lookup.{encode-Opens}
use source2root.Handles.Stale.{get_elem?-retire, get_elem?-retire-none}

module _ {V : Type 0} (blank : V) where
  abbrev meets : ℕ → ℕ → ℕ → ℕ → Bool
  meets owner type o t = o == owner && (type == 0 || t == type)

  retire_opened :
      (id : ℤ) (o t owner type : ℕ) (es : List (Entry V)) (i : ℕ) (x : Entry V)
      → Opens id o t es i x
      → contains id o t (retire blank owner type es).1 ≡ not (meets owner type o t)
  unfolding contains
  retire_opened id o t owner type es i x p = elim (Bool-cases (meets owner type o t)) [
    | inr missed ↦
        let kept : get_elem? (retire blank owner type es).1 i ≡ some x =
          ground (arith, get_elem?-retire blank owner type es i x p.entry, p.owners, p.types) in
        rw (missed, Opens-check id o t _ i x (Opens-move p kept))
    | inl hit ↦ elim (Result-cases (check id o t (retire blank owner type es).1)) [
      | inr (_, q) ↦ rw (hit, q)
      | inl ((k, y), q) ↦ absurd (gone hit (check-Opens id o t _ k y q))
    ]
  ]
    where
      gone :
          {k : ℕ} {y : Entry V}
          → meets owner type o t ≡ true
          → Opens id o t (retire blank owner type es).1 k y
          → ⊥
      gone {k} {y} hit r =
          let same : k ≡ i = omega (arith, r.slot, p.slot) in
          let here : get_elem? (retire blank owner type es).1 i ≡ some y = rw same at r.entry in
          ground (
            arith,
            here,
            get_elem?-retire blank owner type es i x p.entry,
            p.owners,
            p.types,
            r.owners,
            r.owned,
          )

  retire_unopened :
      (id : ℤ) (o t owner type : ℕ) (es : List (Entry V)) (k : ℕ) (y : Entry V)
      → Opens id o t (retire blank owner type es).1 k y
      → contains id o t es ≡ true
  unfolding contains
  retire_unopened id o t owner type es k y r = elim (Option-cases (get_elem? es k)) [
    | inl gone ↦ absurd (ground (arith, r.entry, get_elem?-retire-none blank owner type es k gone))
    | inr (e, at) ↦
        let same : y ≡ e =
          ground (arith, r.entry, get_elem?-retire blank owner type es k e at, r.owners, r.owned) in
        let at_k : get_elem? es k ≡ some y = rw same at in
        rw (Opens-check id o t es k y (Opens-move r at_k))
  ]

  -- Retire closes the handles of the owner that have the type (all of them for type 0), and no others.
  pub contains-retire :
      (id : ℤ) (o t owner type : ℕ) (es : List (Entry V))
      → contains id o t (retire blank owner type es).1
        ≡ (contains id o t es && not (o == owner && (type == 0 || t == type)))
  unfolding contains
  contains-retire id o t owner type es = elim (Result-cases (check id o t es)) [
    | inl ((i, x), q) ↦
        rw (retire_opened id o t owner type es i x (check-Opens id o t es i x q)) (rw q)
    | inr (f, q) ↦ elim (Result-cases (check id o t (retire blank owner type es).1)) [
      | inr (_, r) ↦ rw (r, q)
      | inl ((k, y), r) ↦
          let opened : is_ok (check id o t es) ≡ true =
            retire_unopened id o t owner type es k y (check-Opens id o t _ k y r) in
          absurd (ground arith)
    ]
  ]

  owned_from-count :
      (owner type i : ℕ) (es : List (Entry V))
      → owner ≢ 0
      → count (retire blank owner type es).1 + length (owned_from owner type i es) ≡ count es
  unfolding count retire owned_from
  owned_from-count owner type i [] h = omega arith
  owned_from-count owner type i (e ∷ es) h =
      ground (arith, owned_from-count owner type (i + 1) es h)

  -- For an owner other than 0, Retire frees as many slots as Owned lists handles.
  pub count-retire :
      (owner type : ℕ) (es : List (Entry V))
      → owner ≢ 0
      → count (retire blank owner type es).1 + length (owned owner type es) ≡ count es
  unfolding owned
  count-retire owner type es h = ground (arith, owned_from-count owner type 0 es h)

module _ {V : Type 0} where
  -- `rest` is the table from index `i` on.
  abbrev From : ℕ → List (Entry V) → List (Entry V) → Type 0
  From i rest es = (k : ℕ) → get_elem? es (i + k) ≡ get_elem? rest k

  From-tail :
      (i : ℕ) (x : Entry V) (rest es : List (Entry V)) → From i (x ∷ rest) es → From (i + 1) rest es
  From-tail i x rest es f k = let next : i + 1 + k ≡ i + suc k = omega arith in rw next (f (suc k))

  From-head :
      (i : ℕ) (x : Entry V) (rest es : List (Entry V))
      → From i (x ∷ rest) es
      → get_elem? es i ≡ some x
  From-head i x rest es f = let here : i + 0 ≡ i = omega arith in rw here at (f 0)

  module _ (es : List (Entry V)) (h : Inv es) (owner type n : ℕ) (o : owner ≢ 0)
      (t : type ≢ 0) where
    listed-contains :
        (i : ℕ) (rest : List (Entry V))
        → From i rest es
        → Mem (pos n) (owned_from owner type i rest)
        → contains (pos n) owner type es ≡ true
    unfolding owned_from contains
    listed-contains i [] f m = absurd (not-mem-nil m)
    listed-contains i (x ∷ rest) f m = elim (Bool-cases (selected owner type x)) [
      | inr other ↦
          listed-contains (i + 1) rest (From-tail i x rest es f) (rw (other, owned_from) at m)
      | inl mine ↦
          Or.elim (Bool-set _ _) (mem-cons.0 (rw (mine, owned_from) at m)) (λ e. opened mine e)
            (listed-contains (i + 1) rest (From-tail i x rest es f))
    ]
      where
        opened :
            selected owner type x ≡ true
            → pos n ≡ encode x.generation i
            → contains (pos n) owner type es ≡ true
        opened mine e =
            let at = From-head i x rest es f in
            let small = (All-get_elem? IsSound es i h.sound at).generations in
            let p =
              encode-Opens x.generation i owner type es x (omega arith)
                (omega (arith, get_elem?-lt es i at, h.capacity)) at o (ground arith) (ground arith)
                refl in
            rw (e, contains, Opens-check (encode x.generation i) owner type es i x p)

    mem-owned_from :
        (i k : ℕ) (rest : List (Entry V)) (x : Entry V)
        → get_elem? rest k ≡ some x
        → x.owner ≡ owner
        → x.type ≡ type
        → Mem (encode x.generation (i + k)) (owned_from owner type i rest)
    unfolding owned_from
    mem-owned_from i k [] x at xo xt = cc
    mem-owned_from i zero (y ∷ rest) x at xo xt =
        let same : y ≡ x = cc at in
        let here : i + 0 ≡ i = omega arith in
        let mine : selected owner type y ≡ true = ground arith in
        rw (here, ← same, mine, owned_from) mem-cons_self
    mem-owned_from i (suc k) (y ∷ rest) x at xo xt =
        let next : i + suc k ≡ i + 1 + k = omega arith in
        let later = mem-owned_from (i + 1) k rest x at xo xt in
        elim (Bool-cases (selected owner type y)) [
          | inl mine ↦ rw (next, mine, owned_from) (mem-cons_of_mem _ later)
          | inr other ↦ rw (next, other, owned_from) later
        ]

    opened-listed :
        (i : ℕ) (x : Entry V)
        → n < 2 ^ 31
        → Opens (pos n) owner type es i x
        → Mem (pos n) (owned_from owner type 0 es)
    opened-listed i x small p =
        let place : i < length es = get_elem?-lt es i p.entry in
        let fits = (All-get_elem? IsSound es i h.sound p.entry).generations in
        let same : n ≡ x.generation * 4096 + i + 1 = omega (arith, p.slot, p.generations) in
        let name : pos n ≡ encode x.generation (0 + i) =
          ap pos same
          ∙ sym (encode_value x.generation i (omega arith) (omega (arith, h.capacity)))
          ∙ ap (encode x.generation) (omega arith) in
        rw name (mem-owned_from 0 i es x p.entry p.owners p.types)

    -- In a well-formed table, for an owner and a type other than 0, Owned lists exactly the positive
    -- int32 identifiers that are open for them.
    pub mem-owned :
        n < 2 ^ 31 → (contains (pos n) owner type es ≡ true) ↔ Mem (pos n) (owned owner type es)
    unfolding owned contains
    mem-owned small = (there, back)
      where
        there : contains (pos n) owner type es ≡ true → Mem (pos n) (owned owner type es)
        there c = elim (Result-cases (check (pos n) owner type es)) [
          | inr (_, q) ↦ absurd (ground arith)
          | inl ((i, x), q) ↦
              rw (==-false_of_ne owner 0 o, owned)
                (opened-listed i x small (check-Opens (pos n) owner type es i x q))
        ]

        back : Mem (pos n) (owned owner type es) → contains (pos n) owner type es ≡ true
        back m =
            listed-contains 0 es (λ k. ap (get_elem? es) (omega arith))
              (rw (==-false_of_ne owner 0 o, owned) at m)
