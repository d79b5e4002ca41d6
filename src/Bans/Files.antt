-- ===== src/Bans/Files.antt =====
-- src/bans.cpp, BanStore::AtomicWrite (POSIX): a text goes to a temporary file that takes the place
-- of the ban file.
-- The calls of the operating system answer as given. Where the answers to `write` end, it fails.
use mathlib.Core.List.{append_assoc, append-nil}
use source2root.Base.{
  ℕ, zero, suc, ◌≡◌, refl, sym, ap, subst, ◌∙◌, ◌⊎◌, inl, inr, ◌&&◌, ◌||◌, Bool, true, false, not,
  Option, none, some, List, [], ◌∷◌, ◌++◌, arith, if◌then◌else◌, take, drop, Bool-cases,
}
use source2root.Base.Text.{Bytes}

pub data WriteError : Type 0 where
  no_directory no_temporary save_failed not_opened not_synced : WriteError

pub data WriteAnswer : Type 0 where
  interrupted failed : WriteAnswer
  wrote : ℕ → WriteAnswer

-- What the calls answer: true is success.
pub record System : Type 0 where
  pub creates_directory : Bool
  pub makes_temporary : Bool
  pub writes : List WriteAnswer
  pub syncs : Bool
  pub closes : Bool
  pub renames : Bool
  pub unlinks : Bool
  pub opens_directory : Bool
  pub syncs_directory : Bool
  pub closes_directory : Bool

-- The ban file, and the temporary file of the call
pub record Disk : Type 0 where
  pub file : Option Bytes
  pub temporary : Option Bytes

-- The loop of writes: the bytes that are left, and those that the temporary file has
unfoldable pub write_rounds : List WriteAnswer → Bytes → Bytes → Bool × Bytes
write_rounds answers [] done = (true, done)
write_rounds [] (c ∷ r) done = (false, done)
write_rounds (WriteAnswer.interrupted ∷ answers) (c ∷ r) done = write_rounds answers (c ∷ r) done
write_rounds (WriteAnswer.failed ∷ answers) (c ∷ r) done = (false, done)
write_rounds (WriteAnswer.wrote zero ∷ answers) (c ∷ r) done = (false, done)
write_rounds (WriteAnswer.wrote (suc n) ∷ answers) (c ∷ r) done =
    write_rounds answers (drop n r) (done ++ c ∷ take n r)

-- rename and unlink
abbrev pub rename : Disk → Disk
rename d = record { file = d.temporary; temporary = none }

abbrev pub unlink : System → Disk → Disk
unlink system d = if system.unlinks then record d { temporary = none } else d

-- After the rename: the directory is synchronised.
abbrev pub sync_directory : System → Disk → Disk × Option WriteError
sync_directory system d =
    if not system.opens_directory
    then (d, some WriteError.not_opened)
    else if not system.syncs_directory || not system.closes_directory
    then (d, some WriteError.not_synced)
    else (d, none)

-- After the writes
abbrev pub finish : System → Bool → Disk → Disk × Option WriteError
finish system complete d =
    if not (complete && system.syncs) || not system.closes || not system.renames
    then (unlink system d, some WriteError.save_failed)
    else sync_directory system (rename d)

-- AtomicWrite
unfoldable pub atomic_write : System → Bytes → Disk → Disk × Option WriteError
atomic_write system text d =
    if not system.creates_directory
    then (d, some WriteError.no_directory)
    else if not system.makes_temporary
    then (d, some WriteError.no_temporary)
    else let written = write_rounds system.writes text [] in
      finish system written.0 (record d { temporary = some written.1 })

take-append_drop : (n : ℕ) (l : Bytes) → take n l ++ drop n l ≡ l
take-append_drop zero l = refl
take-append_drop (suc n) [] = refl
take-append_drop (suc n) (c ∷ l) = ap (λ r. c ∷ r) (take-append_drop n l)

-- Where the writes succeed, the temporary file has all of the text, in whatever pieces.
write_rounds-whole :
    (answers : List WriteAnswer) (text done : Bytes)
    → (write_rounds answers text done).0 ≡ true
    → (write_rounds answers text done).1 ≡ done ++ text
unfolding write_rounds
write_rounds-whole answers [] done h = sym (append-nil done)
write_rounds-whole [] (c ∷ r) done h = absurd (cc h)
write_rounds-whole (WriteAnswer.interrupted ∷ answers) (c ∷ r) done h =
    write_rounds-whole answers (c ∷ r) done h
write_rounds-whole (WriteAnswer.failed ∷ answers) (c ∷ r) done h = absurd (cc h)
write_rounds-whole (WriteAnswer.wrote zero ∷ answers) (c ∷ r) done h = absurd (cc h)
write_rounds-whole (WriteAnswer.wrote (suc n) ∷ answers) (c ∷ r) done h =
    write_rounds-whole answers (drop n r) (done ++ c ∷ take n r) h
    ∙ append_assoc done (c ∷ take n r) (drop n r)
    ∙ ap (λ l. done ++ c ∷ l) (take-append_drop n r)

-- Errors that are told once the file is replaced
abbrev pub is_late : Option WriteError → Bool
is_late none = true
is_late (some WriteError.no_directory) = false
is_late (some WriteError.no_temporary) = false
is_late (some WriteError.save_failed) = false
is_late (some WriteError.not_opened) = true
is_late (some WriteError.not_synced) = true

-- The ban file is as it was, or has all of the text, and the error says which.
abbrev pub Whole : Bytes → Disk → Disk × Option WriteError → Type 0
Whole text d (after, e) =
    ((after.file ≡ d.file) × (is_late e ≡ false)) ⊎ ((after.file ≡ some text) × (is_late e ≡ true))

sync_directory-late :
    (system : System) (d : Disk)
    → ((sync_directory system d).0 ≡ d) × (is_late (sync_directory system d).1 ≡ true)
sync_directory-late system d = elim (Bool-cases system.opens_directory) [
  | inr q ↦ rw q (refl, refl)
  | inl q ↦ elim (Bool-cases (not system.syncs_directory || not system.closes_directory)) [
    | inl p ↦ rw (q, p) (refl, refl)
    | inr p ↦ rw (q, p) (refl, refl)
  ]
]

finish-Whole :
    (system : System) (text done : Bytes) (complete : Bool) (d : Disk)
    → (complete ≡ true → done ≡ text)
    → Whole text d (finish system complete (record d { temporary = some done }))
finish-Whole system text done complete d h = elim (Bool-cases failed) [
  | inl q ↦ rw q (kept (Bool-cases system.unlinks))
  | inr q ↦ rw q (inr (ap (λ d. d.file) late.0 ∙ ap some (h (ground arith)), late.1))
]
  where
    failed : Bool
    failed = not (complete && system.syncs) || not system.closes || not system.renames

    late :
        ((sync_directory system (record { file = some done; temporary = none })).0
          ≡ record { file = some done; temporary = none })
        × (is_late (sync_directory system (record { file = some done; temporary = none })).1 ≡ true)
    late = sync_directory-late system (record { file = some done; temporary = none })

    kept :
        (system.unlinks ≡ true) ⊎ (system.unlinks ≡ false)
        → Whole text d
            (unlink system (record d { temporary = some done }), some WriteError.save_failed)
    kept (inl q) = rw q (inl (refl, refl))
    kept (inr q) = rw q (inl (refl, refl))

pub atomic_write-Whole :
    (system : System) (text : Bytes) (d : Disk) → Whole text d (atomic_write system text d)
unfolding atomic_write
atomic_write-Whole system text d = elim (Bool-cases system.creates_directory) [
  | inr q ↦ rw q (inl (refl, refl))
  | inl q ↦ elim (Bool-cases system.makes_temporary) [
    | inr p ↦ rw (q, p) (inl (refl, refl))
    | inl p ↦
        rw (q, p)
          (finish-Whole system text written.1 written.0 d
            (write_rounds-whole system.writes text []))
  ]
]
  where
    written : Bool × Bytes
    written = write_rounds system.writes text []

-- A call without an error has put all of the text in place.
pub atomic_write_done :
    (system : System) (text : Bytes) (d after : Disk)
    → atomic_write system text d ≡ (after, none)
    → after.file ≡ some text
atomic_write_done system text d after e =
    go (subst (Whole text d) e (atomic_write-Whole system text d))
  where
    go : Whole text d (after, none) → after.file ≡ some text
    go (inl (same, late)) = absurd (cc late)
    go (inr (whole, late)) = whole
