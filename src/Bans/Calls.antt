-- ===== src/Bans/Calls.antt =====
-- src/bans.cpp: the store after AddBan and RemoveBan, and the file beside it.
use source2root.Base.{
  ℕ, ◌≡◌, refl, sym, ◌∙◌, subst, ◌⊎◌, inl, inr, none, some, Option, true, Result, Result-cases, ok,
  err, ◌>>=◌, ltb, length, Bool-cases,
}
use source2root.Base.Text.{Bytes, ℤ}
use source2root.Base.Table.{put, has, without, nat_key}
use source2root.Identity.{valid_steam_identity}
use source2root.Bans.Files.{
  WriteError, System, Disk, atomic_write, is_late, Whole, atomic_write-Whole,
}
use source2root.Bans.Store.{
  BanError, Ban, Bans, Json, BanStore, Answers, Outcome, new_text, new_ban, known_contents,
  save_bans, stored, store_text, load, add_new, add_ban, remove_ban, max_bans,
}
use source2root.Bans.Coherent.{known_contents_held}
use source2root.Bans.Reload.{>>=_left}

module _ (json : Json) (a : Answers) (old : Bytes) where
  -- The file has all of the text that SaveBans makes of some bans.
  abbrev pub IsSaved : Option Bytes → Type 0
  IsSaved file = (c : Bans) × (text : Bytes) × (file ≡ some text) × (new_text json old c ≡ ok text)

  abbrev pub Unconfirmed : BanError → Type 0
  Unconfirmed e =
      (e ≡ BanError.unwritten WriteError.not_opened)
      ⊎ (e ≡ BanError.unwritten WriteError.not_synced)

  -- What an error leaves of a loaded store
  abbrev Keeps : BanStore → Outcome → Type 0
  Keeps s (r, none) = Unit
  Keeps s (r, some e) =
      (r.bans ≡ s.bans)
      × (r.contents ≡ s.contents)
      × ((r.file ≡ s.file) ⊎ (Unconfirmed e × IsSaved r.file))

  late-Unconfirmed : (e : WriteError) → is_late (some e) ≡ true → Unconfirmed (BanError.unwritten e)
  late-Unconfirmed WriteError.no_directory h = absurd (cc h)
  late-Unconfirmed WriteError.no_temporary h = absurd (cc h)
  late-Unconfirmed WriteError.save_failed h = absurd (cc h)
  late-Unconfirmed WriteError.not_opened h = inl refl
  late-Unconfirmed WriteError.not_synced h = inr refl

  store_text-Keeps :
      (system : System) (text : Bytes) (c : Bans) (s : BanStore)
      → new_text json old c ≡ ok text
      → Keeps s (store_text system text c s)
  store_text-Keeps system text c s made =
      go (atomic_write system text disk) (atomic_write-Whole system text disk)
    where
      disk : Disk
      disk = record { file = s.file; temporary = none }

      go : (o : Disk × Option WriteError) → Whole text disk o → Keeps s (stored text c s o)
      go (d, none) h = tt
      go (d, some e) (inl (same, early)) = (refl, refl, inl same)
      go (d, some e) (inr (whole, late)) =
          (refl, refl, inr (late-Unconfirmed e late, (c, text, whole, made)))

  save_bans-Keeps :
      (c : Bans) (s : BanStore) → s.contents ≡ some old → Keeps s (save_bans json a c s)
  unfolding save_bans
  save_bans-Keeps c s h = elim (Result-cases made) [
    | inl (text, q) ↦
        (let (known, found, fresh) =
            >>=_left (known_contents json a s) (λ t. new_text json t c) q in
          let same : known ≡ old = cc (sym (known_contents_held json a s known found) ∙ h) in
          rw q (
            store_text-Keeps a.writing text c s
              (subst (λ t. new_text json t c ≡ ok text) same fresh)))
    | inr (e, q) ↦ rw q (refl, refl, inl refl)
  ]
    where
      made : Result BanError Bytes
      made = known_contents json a s >>= λ t. new_text json t c

  loaded_already : (s : BanStore) → s.contents ≡ some old → load json a s ≡ (s, none)
  unfolding load
  loaded_already s h = rw h refl

  add_ban-Keeps :
      (s : BanStore) (account minutes : ℕ) (reason actor : Bytes) (now : ℤ)
      → s.contents ≡ some old
      → Keeps s (add_ban json a account minutes reason actor now s)
  unfolding add_ban
  add_ban-Keeps s account minutes reason actor now h =
      rw (loaded_already s h) (go (new_ban json account minutes reason actor now))
    where
      go : (b : Result BanError Ban) → Keeps s (add_new json a s b)
      go (err e) = (refl, refl, inl refl)
      go (ok b) = elim (Bool-cases (ltb max_bans (length (put b.account b s.bans)))) [
        | inl q ↦ rw q (refl, refl, inl refl)
        | inr q ↦ rw q (save_bans-Keeps (put b.account b s.bans) s h)
      ]

  remove_ban-Keeps :
      (s : BanStore) (account : ℕ) → s.contents ≡ some old → Keeps s (remove_ban json a account s)
  unfolding remove_ban
  remove_ban-Keeps s account h =
      rw (loaded_already s h) (elim (Bool-cases (valid_steam_identity account)) [
        | inr q ↦ rw q (refl, refl, inl refl)
        | inl q ↦ elim (Bool-cases (has account s.bans)) [
          | inl p ↦ rw (q, p) (save_bans-Keeps (without account s.bans) s h)
          | inr p ↦ rw (q, p) tt
        ]
      ])

  -- A call of AddBan or RemoveBan on a loaded store that returns an error leaves the bans and the
  -- contents in memory as they were. It leaves the file as well, whichever call of the system fails,
  -- unless the error is that the directory of the file, already replaced, could not be opened or
  -- synchronised; then the file has all of a text that SaveBans makes.
  pub failed_call-Keeps :
      (s r : BanStore) (e : BanError) (account minutes : ℕ) (reason actor : Bytes) (now : ℤ)
      → s.contents ≡ some old
      → (add_ban json a account minutes reason actor now s ≡ (r, some e))
        ⊎ (remove_ban json a account s ≡ (r, some e))
      → (r.bans ≡ s.bans)
        × (r.contents ≡ s.contents)
        × ((r.file ≡ s.file) ⊎ (Unconfirmed e × IsSaved r.file))
  failed_call-Keeps s r e account minutes reason actor now h (inl q) =
      subst (Keeps s) q (add_ban-Keeps s account minutes reason actor now h)
  failed_call-Keeps s r e account minutes reason actor now h (inr q) =
      subst (Keeps s) q (remove_ban-Keeps s account h)
