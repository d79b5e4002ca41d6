-- ===== src/Handles/Stale.antt =====
-- src/handles.h: a handle that was removed stays invalid, whatever is done to the table.
use source2root.Base.{
  ℕ, zero, suc, ◌<◌, ◌≡◌, refl, ◌⊎◌, inl, inr, List, [], ◌∷◌, false, none, some, if◌then◌else◌, ok,
  arith, get_elem?, set, Result-cases, get_elem?-set_self, get_elem?-set_ne, get_elem?-lt,
  get_elem?-append_left, ℕ_discrete,
}
use source2root.Base.Text.{ℤ}
use source2root.Handles.{
  Entry, Call, adds, removes, retires, add, check, contains, remove, retire, selected, cleared,
  after, step, run,
}
use source2root.Handles.Cases.{Added, reused, fresh, add-Added, Opens, check-Opens}

-- Slot `i` has passed generation `g`, or is free at it.
pub data Dead {V : Type 0} (i g : ℕ) (es : List (Entry V)) : Type 0 where
  dead :
      (e : Entry V)
      → get_elem? es i ≡ some e
      → (g < e.generation) ⊎ ((e.generation ≡ g) × (e.owner ≡ 0))
      → Dead i g es

module _ {V : Type 0} (i g : ℕ) where
  -- An entry whose generation grows, or whose owner goes, stays dead.
  Dead-set :
      (es : List (Entry V)) (k : ℕ) (old new : Entry V)
      → get_elem? es k ≡ some old
      → ((old.owner ≡ 0) × (old.generation < new.generation))
        ⊎ ((new.generation ≡ old.generation) × (new.owner ≡ 0))
      → Dead i g es
      → Dead i g (set es k new)
  Dead-set es k old new at change (dead e here d) = elim (ℕ_discrete k i) [
    | yes same ↦
        dead new (rw same (get_elem?-set_self es i new (get_elem?-lt es i here)))
          (moved (rw same at at))
    | no other ↦ dead e (rw (get_elem?-set_ne es {i = k} {j = i} new other) here) d
  ]
    where
      moved :
          get_elem? es i ≡ some old
          → (g < new.generation) ⊎ ((new.generation ≡ g) × (new.owner ≡ 0))
      moved at_i = ground arith

  Added-Dead :
      {owner type : ℕ} {v : V} {es es' : List (Entry V)} {id : ℤ}
      → Added owner type v es id es'
      → Dead i g es
      → Dead i g es'
  Added-Dead {es = es} (reused k e at free left ids sets) d =
      rw sets (Dead-set es k e _ at (inl (free, omega arith)) d)
  Added-Dead {es = es} (fresh room ids sets) (dead e here d) =
      rw sets (dead e (rw (get_elem?-append_left es _ i (get_elem?-lt es i here)) here) d)

module _ {V : Type 0} (blank : V) where
  pub get_elem?-retire :
      (owner type : ℕ) (es : List (Entry V)) (i : ℕ) (e : Entry V)
      → get_elem? es i ≡ some e
      → get_elem? (retire blank owner type es).1 i
        ≡ some (if selected owner type e then cleared blank e else e)
  unfolding retire
  get_elem?-retire owner type [] i e h = cc
  get_elem?-retire owner type (x ∷ es) zero e h = ground arith
  get_elem?-retire owner type (x ∷ es) (suc i) e h =
      ground (arith, get_elem?-retire owner type es i e h)

  pub get_elem?-retire-none :
      (owner type : ℕ) (es : List (Entry V)) (i : ℕ)
      → get_elem? es i ≡ none
      → get_elem? (retire blank owner type es).1 i ≡ none
  unfolding retire
  get_elem?-retire-none owner type [] i h = refl
  get_elem?-retire-none owner type (x ∷ es) zero h = cc
  get_elem?-retire-none owner type (x ∷ es) (suc i) h =
      ground (arith, get_elem?-retire-none owner type es i h)

  retire-Dead :
      (i g owner type : ℕ) (es : List (Entry V))
      → Dead i g es
      → Dead i g (retire blank owner type es).1
  retire-Dead i g owner type es (dead e here d) =
      dead _ (get_elem?-retire owner type es i e here) (ground arith)

  remove-Dead :
      (i g : ℕ) (id : ℤ) (owner type : ℕ) (es : List (Entry V))
      → Dead i g es
      → Dead i g (after es (remove blank id owner type es))
  unfolding remove
  remove-Dead i g id owner type es d = elim (Result-cases (check id owner type es)) [
    | inr (_, e) ↦ rw (e, remove) d
    | inl ((k, x), e) ↦
        rw (e, remove)
          (Dead-set i g es k x _ (check-Opens id owner type es k x e).entry (inr (refl, refl)) d)
  ]

  step-Dead :
      (i g : ℕ) (es : List (Entry V)) (c : Call V) → Dead i g es → Dead i g (step blank es c)
  unfolding step
  step-Dead i g es (adds owner type v) d = elim (Result-cases (add owner type v es)) [
    | inr (_, e) ↦ rw e d
    | inl ((id, es'), e) ↦
        let (_, _, added) = add-Added owner type v es id es' e in rw e (Added-Dead i g added d)
  ]
  step-Dead i g es (removes id owner type) d = remove-Dead i g id owner type es d
  step-Dead i g es (retires owner type) d = retire-Dead i g owner type es d

  run-Dead :
      (i g : ℕ) (es : List (Entry V)) (cs : List (Call V))
      → Dead i g es
      → Dead i g (run blank es cs)
  unfolding run
  run-Dead i g es [] d = d
  run-Dead i g es (c ∷ cs) d = run-Dead i g (step blank es c) cs (step-Dead i g es c d)

  Dead-unopened :
      (id : ℤ) (o t o' t' i : ℕ) (es es' : List (Entry V)) (x : Entry V)
      → Opens id o t es i x
      → Dead i x.generation es'
      → contains id o' t' es' ≡ false
  unfolding contains
  Dead-unopened id o t o' t' i es es' x p (dead e here d) =
      elim (Result-cases (check id o' t' es')) [
        | inr (_, q) ↦ rw q
        | inl ((k, y), q) ↦ absurd (clash (check-Opens id o' t' es' k y q))
      ]
    where
      clash : {k : ℕ} {y : Entry V} → Opens id o' t' es' k y → ⊥
      clash {k} {y} r =
          let same : k ≡ i = omega (arith, r.slot, p.slot) in
          let here_k : get_elem? es' k ≡ some e = rw same here in
          ground (arith, r.entry, here_k, r.generations, p.generations, r.owned, r.owners)

  -- Once Remove has accepted a handle, no later calls, whatever they are, make it valid again for
  -- any owner and type.
  pub removed_stays_invalid :
      (id : ℤ) (owner type o t : ℕ) (v : V) (es es' : List (Entry V)) (cs : List (Call V))
      → remove blank id owner type es ≡ ok (v, es')
      → contains id o t (run blank es' cs) ≡ false
  unfolding remove
  removed_stays_invalid id owner type o t v es es' cs h =
      elim (Result-cases (check id owner type es)) [
        | inr (_, q) ↦ absurd (ground arith)
        | inl ((i, x), q) ↦
            let p = check-Opens id owner type es i x q in
            let removed : es' ≡ set es i (cleared blank x) = ground arith in
            Dead-unopened id owner type o t i es _ x p (
              run-Dead i x.generation es' cs (
                rw removed (
                  dead _ (get_elem?-set_self es i _ (get_elem?-lt es i p.entry))
                    (inr (refl, refl)))))
      ]
