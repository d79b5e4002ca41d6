-- ===== src/Handles/Invariant.antt =====
-- src/handles.h: what every call keeps.
use source2root.Base.{
  ℕ, ◌+◌, ◌≤◌, ◌≡◌, ◌≢◌, refl, inl, inr, List, [], ◌∷◌, arith, length, length-append, length-set,
  All, All-append, All-set, All-get_elem?, Result-cases,
}
use source2root.Base.Text.{ℤ}
use source2root.Handles.{
  Entry, Call, adds, removes, retires, add, check, remove, retire, cleared, after, step, run,
  max_generation,
}
use source2root.Handles.Cases.{new_entry, Added, reused, fresh, add-Added, check-Opens}

-- A slot has been used, its generation fits 19 bits, and what is owned has a type.
pub record IsSound {V : Type 0} (e : Entry V) : Type 0 where
  pub used : 1 ≤ e.generation
  pub generations : e.generation ≤ max_generation
  pub typed : e.owner ≢ 0 → e.type ≢ 0

pub record Inv {V : Type 0} (es : List (Entry V)) : Type 0 where
  pub sound : All IsSound es
  pub capacity : length es ≤ 4095

module _ {V : Type 0} where
  Added-Inv :
      {owner type : ℕ} {v : V} {es es' : List (Entry V)} {id : ℤ}
      → type ≢ 0
      → Added owner type v es id es'
      → Inv es
      → Inv es'
  Added-Inv {owner} {type} {v} {es} t (reused k e at_k free left ids sets) h = rw sets (record {
    sound = All-set IsSound es k _ h.sound (record {
      used = omega arith;
      generations = omega (arith, (All-get_elem? IsSound es k h.sound at_k).generations);
      typed = λ _. t;
    });
    capacity =
        omega (arith, length-set es k (new_entry owner type v (e.generation + 1)), h.capacity);
  })
  Added-Inv {owner} {type} {v} {es} t (fresh room ids sets) h = rw sets (record {
    sound =
        All-append IsSound es _ h.sound
          (record { used = omega arith; generations = omega arith; typed = λ _. t }, tt);
    capacity = omega (arith, length-append es (new_entry owner type v 1 ∷ []));
  })

  add-Inv :
      (owner type : ℕ) (v : V) (es : List (Entry V)) → Inv es → Inv (after es (add owner type v es))
  add-Inv owner type v es h = elim (Result-cases (add owner type v es)) [
    | inr (_, e) ↦ rw e h
    | inl ((id, es'), e) ↦
        let (_, typed, added) = add-Added owner type v es id es' e in rw e (Added-Inv typed added h)
  ]

module _ {V : Type 0} (blank : V) where
  cleared-IsSound : (e : Entry V) → IsSound e → IsSound (cleared blank e)
  cleared-IsSound e h = record {
    used = h.used;
    generations = h.generations;
    typed = λ n. absurd (n refl);
  }

  remove-Inv :
      (id : ℤ) (owner type : ℕ) (es : List (Entry V))
      → Inv es
      → Inv (after es (remove blank id owner type es))
  unfolding remove
  remove-Inv id owner type es h = elim (Result-cases (check id owner type es)) [
    | inr (_, e) ↦ rw (e, remove) h
    | inl ((i, x), e) ↦
        rw (e, remove)
          (record {
            sound = All-set IsSound es i _ h.sound (
                cleared-IsSound x
                  (All-get_elem? IsSound es i h.sound (check-Opens id owner type es i x e).entry));
            capacity = omega (arith, length-set es i (cleared blank x), h.capacity);
          })
  ]

  length-retire :
      (owner type : ℕ) (es : List (Entry V)) → length (retire blank owner type es).1 ≡ length es
  unfolding retire
  length-retire owner type [] = refl
  length-retire owner type (e ∷ es) = ground (arith, length-retire owner type es)

  retire-IsSound :
      (owner type : ℕ) (es : List (Entry V))
      → All IsSound es
      → All IsSound (retire blank owner type es).1
  unfolding retire
  retire-IsSound owner type [] h = tt
  retire-IsSound owner type (e ∷ es) h =
      ground (arith, retire-IsSound owner type es h.1, cleared-IsSound e h.0)

  retire-Inv : (owner type : ℕ) (es : List (Entry V)) → Inv es → Inv (retire blank owner type es).1
  retire-Inv owner type es h = record {
    sound = retire-IsSound owner type es h.sound;
    capacity = omega (arith, length-retire owner type es);
  }

  pub step-Inv : (es : List (Entry V)) (c : Call V) → Inv es → Inv (step blank es c)
  unfolding step
  step-Inv es (adds owner type v) h = add-Inv owner type v es h
  step-Inv es (removes id owner type) h = remove-Inv id owner type es h
  step-Inv es (retires owner type) h = retire-Inv owner type es h

  run_from-Inv : (es : List (Entry V)) (cs : List (Call V)) → Inv es → Inv (run blank es cs)
  unfolding run
  run_from-Inv es [] h = h
  run_from-Inv es (c ∷ cs) h = run_from-Inv (step blank es c) cs (step-Inv es c h)

  -- After any calls on an empty table, in any order and whether they throw or not, at most 4095
  -- slots are in use, every generation lies from 1 to 2^19 - 1, and what is owned has a type.
  pub run-Inv : (cs : List (Call V)) → Inv (run blank [] cs)
  run-Inv cs = run_from-Inv [] cs (record { sound = tt; capacity = omega arith })
