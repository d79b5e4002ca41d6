-- ===== src/Bans/Fresh.antt =====
-- src/bans.cpp: a store, and another one that loads its file.
use source2root.Base.{
  ℕ, ◌≡◌, refl, sym, ap, subst, ◌∙◌, ◌⊎◌, inl, inr, ◌||◌, true, false, not, Option, none, some, [],
  Result, ok, err, ◌>>=◌, throw_if, arith, Result-cases, if◌then◌else◌, ltb, ◌==◌, length,
  Bool-cases, ltb-false→le,
}
use source2root.Base.Text.{Bytes, ℤ, pos, negsuc}
use source2root.Base.Table.{put, nat_key}
use source2root.Identity.{valid_steam_identity}
use source2root.Bans.Utc.{utc}
use source2root.Bans.Files.{WriteError, System, Disk, atomic_write, atomic_write_done}
use source2root.Bans.Store.{
  BanError, Ban, Bans, Json, BanStore, Answers, Outcome, safe_text, is_actor, ends_early, text_or,
  expiry, is_far, parse_bans, new_text, new_ban, known_contents, save_bans, stored, store_text,
  read_file, load, load_text, load_found, load_file, load_from, add_new, add_ban, after_load,
  max_bytes, max_bans, is_shallow, new_contents, read_bans,
}
use source2root.Bans.Reload.{IsBan, >>=_left, parse_bans-new_text}
use source2root.Bans.Coherent.{
  parse_bans-IsTable, known_contents_held, throw_if_passed, IsTable-put,
}

-- A new ban holds under its account.
starts_before :
    (json : Json) (minutes : ℕ) (now : ℤ) → ends_early (expiry json minutes now) now ≡ false
starts_before json minutes (negsuc n) = refl
starts_before json minutes (pos now) = elim (Bool-cases (minutes == 0)) [
  | inl q ↦ rw q refl
  | inr q ↦ rw q (ground arith)
]

new_ban-IsBan :
    (account minutes : ℕ) (reason actor : Bytes) (now : ℤ) (json : Json) (b : Ban)
    → new_ban json account minutes reason actor now ≡ ok b
    → IsBan b.account b
unfolding new_ban
new_ban-IsBan account minutes reason actor now json b q =
    let (u, fine, q1) =
      >>=_left
        (throw_if
          (not (valid_steam_identity account)
            || ltb 5256000 minutes
            || not (safe_text reason 256)
            || not (is_actor actor))
          BanError.invalid_ban)
        _ q in
    let (text, w, q2) = >>=_left (text_or (utc now)) _ q1 in
    let (u1, near, q3) =
      >>=_left (throw_if (is_far json minutes now) BanError.outside_years) _ q2 in
    let same : record {
      account = account;
      created = now;
      expires = expiry json minutes now;
      reason = reason;
      actor = actor;
    }
        ≡ b =
      cc q3 in
    let tests = throw_if_passed BanError.invalid_ban _ fine in
    subst (λ (b : Ban). IsBan b.account b) same
      (record {
        own = refl;
        individual = ground (arith, tests);
        fields = rw (starts_before json minutes now) (ground (arith, tests));
      })

module _ (json : Json) where
  -- A store that is not loaded, or that holds what its contents say
  abbrev Loaded : BanStore → Type 0
  Loaded s = (text : Bytes) × (s.contents ≡ some text) × (parse_bans json text ≡ ok s.bans)

  abbrev Sound : BanStore → Type 0
  Sound s = (s.contents ≡ none) ⊎ Loaded s

  -- A text that is read has no more bytes than Read takes.
  parse_bans-small :
      (text : Bytes) (bans : Bans)
      → parse_bans json text ≡ ok bans
      → ltb max_bytes (length text) ≡ false
  unfolding parse_bans
  parse_bans-small text bans q =
      let (u, w, q1) = >>=_left (throw_if (ltb max_bytes (length text)) BanError.too_large) _ q in
      throw_if_passed BanError.too_large _ w

  parse_bans_empty :
      (text : Bytes)
      → ltb max_bytes (length text) ≡ false
      → is_shallow text false false 0 ≡ true
      → json.decode text ≡ some []
      → parse_bans json text ≡ ok []
  unfolding parse_bans read_bans
  parse_bans_empty text small shallow decoded = rw (small, shallow, decoded) refl

  parse_bans-new_contents : parse_bans json new_contents ≡ ok []
  unfolding is_shallow
  parse_bans-new_contents = parse_bans_empty new_contents refl refl json.decode_new

  store_text_lem :
      (system : System) (text : Bytes) (c : Bans) (s r : BanStore)
      → store_text system text c s ≡ (r, none)
      → record { bans = c; contents = some text; file = some text } ≡ r
  store_text_lem system text c s r e = go (atomic_write system text disk) refl e
    where
      disk : Disk
      disk = record { file = s.file; temporary = none }

      go :
          (o : Disk × Option WriteError)
          → atomic_write system text disk ≡ o
          → stored text c s o ≡ (r, none)
          → record { bans = c; contents = some text; file = some text } ≡ r
      go (d, none) q e =
          ap (λ f. record { bans = c; contents = some text; file = f })
            (sym (atomic_write_done system text disk d q))
          ∙ ap (λ o. o.0) e
      go (d, some x) q e = absurd (let f = ap (λ o. o.1) e in cc f)

  load_found-Loaded :
      (a : Answers) (s r : BanStore) (file : Option Bytes)
      → load_found json a s file ≡ (r, none)
      → Loaded r
  load_found-Loaded a s r none e =
      subst Loaded (store_text_lem a.creating new_contents [] s r e)
        (new_contents, refl, parse_bans-new_contents)
  load_found-Loaded a s r (some text) e = opened (read_file a.reads (some text)) e
    where
      opened : (m : Result BanError Bytes) → load_text json s m ≡ (r, none) → Loaded r
      opened (err x) e = absurd (let f = ap (λ o. o.1) e in cc f)
      opened (ok t) e = elim (Result-cases (parse_bans json t)) [
        | inl (bans, q) ↦
            (let e' = rw q at e in
              let same : record { bans = bans; contents = some t; file = s.file } ≡ r =
                ap (λ o. o.0) e' in
              subst Loaded same (t, refl, q))
        | inr (x, q) ↦ absurd (let e' = rw q at e in let f = ap (λ o. o.1) e' in cc f)
      ]

  load-Loaded : (a : Answers) (s r : BanStore) → Sound s → load json a s ≡ (r, none) → Loaded r
  unfolding load
  load-Loaded a s r (inr (text, held, known)) e =
      let same : s ≡ r = ap (λ o. o.0) (sym (ap (load_from json a s) held) ∙ e) in
      subst Loaded same (text, held, known)
  load-Loaded a s r (inl empty) e =
      opened (Bool-cases a.inspects) (sym (ap (load_from json a s) empty) ∙ e)
    where
      opened :
          (a.inspects ≡ true) ⊎ (a.inspects ≡ false) → load_file json a s ≡ (r, none) → Loaded r
      opened (inl q) e = load_found-Loaded a s r s.file (rw q at e)
      opened (inr q) e = absurd (let e' = rw q at e in let f = ap (λ o. o.1) e' in cc f)

  -- What SaveBans has done where it returns no error.
  save_bans-saved :
      (a : Answers) (c : Bans) (s r : BanStore)
      → save_bans json a c s ≡ (r, none)
      → (old : Bytes) × (text : Bytes) × (s.contents ≡ some old)
        × (new_text json old c ≡ ok text)
        × (record { bans = c; contents = some text; file = some text } ≡ r)
  unfolding save_bans
  save_bans-saved a c s r e =
      elim (Result-cases (known_contents json a s >>= λ old. new_text json old c)) [
        | inl (text, q) ↦
            (let (old, known, fresh) =
                >>=_left (known_contents json a s) (λ old. new_text json old c) q in
              let saved : store_text a.writing text c s ≡ (r, none) = rw q at e in
              (
                old,
                text,
                known_contents_held json a s old known,
                fresh,
                store_text_lem a.writing text c s r saved,
              ))
        | inr (x, q) ↦ absurd (let e' = rw q at e in let f = ap (λ o. o.1) e' in cc f)
      ]

  -- The file of the store is the text of its bans.
  abbrev Filed : BanStore → Type 0
  Filed r =
      (text : Bytes) × (r.contents ≡ some text)
      × (r.file ≡ some text)
      × (parse_bans json text ≡ ok r.bans)

  add_new-Filed :
      (a : Answers) (s r : BanStore) (b : Result BanError Ban)
      → Loaded s
      → ((ban : Ban) → b ≡ ok ban → IsBan ban.account ban)
      → add_new json a s b ≡ (r, none)
      → Filed r
  add_new-Filed a s r (err x) h new e = absurd (let f = ap (λ o. o.1) e in cc f)
  add_new-Filed a s r (ok ban) (now, held, known) new e =
      fits (Bool-cases (ltb max_bans (length candidate))) e
    where
      candidate : Bans
      candidate = put ban.account ban s.bans

      fits :
          (ltb max_bans (length candidate) ≡ true) ⊎ (ltb max_bans (length candidate) ≡ false)
          → (if ltb max_bans (length candidate)
              then (s, some BanError.too_many)
              else save_bans json a candidate s)
            ≡ (r, none)
          → Filed r
      fits (inl q) e = absurd (let e' = rw q at e in let f = ap (λ o. o.1) e' in cc f)
      fits (inr q) e =
          let (old, text, had, fresh, made) = save_bans-saved a candidate s r (rw q at e) in
          let same : now ≡ old = cc (sym held ∙ had) in
          let (table, few, shallow) = parse_bans-IsTable json now s.bans known in
          subst Filed made (
            text,
            refl,
            refl,
            parse_bans-new_text json old text candidate
                (subst (λ t. is_shallow t false false 0 ≡ true) same shallow)
                (ltb-false→le max_bans (length candidate) q)
                (IsTable-put ban.account ban s.bans (new ban refl) table) fresh,
          )

  Filed-reloads :
      (r : BanStore) (b : Answers)
      → Filed r
      → b.inspects ≡ true
      → b.reads ≡ true
      → load json b (record { bans = []; contents = none; file = r.file }) ≡ (r, none)
  unfolding load
  Filed-reloads r b (text, held, filed, known) inspects reads =
      rw (inspects, filed, reads, parse_bans-small text r.bans known, known)
        (ap (λ o. (record { bans = r.bans; contents = o; file = o }, none)) (sym held)
          ∙ ap (λ o. (record r { file = o }, none)) held)

  -- Where AddBan returns no error on a store that is not loaded, or that holds the bans its contents
  -- spell, a store that loads the file after it has the same bans, contents and file.
  pub add_ban-reloads :
      (a b : Answers) (account minutes : ℕ) (reason actor : Bytes) (now : ℤ) (s r : BanStore)
      → Sound s
      → b.inspects ≡ true
      → b.reads ≡ true
      → add_ban json a account minutes reason actor now s ≡ (r, none)
      → load json b (record { bans = []; contents = none; file = r.file }) ≡ (r, none)
  unfolding add_ban
  add_ban-reloads a b account minutes reason actor now s r h inspects reads e =
      Filed-reloads r b (after (load json a s) refl e) inspects reads
    where
      after :
          (o : Outcome)
          → load json a s ≡ o
          → after_load json
              (λ s. add_new json a s (new_ban json account minutes reason actor now))
              o
            ≡ (r, none)
          → Filed r
      after (l, some x) q e = absurd (let f = ap (λ o. o.1) e in cc f)
      after (l, none) q e =
          add_new-Filed a l r (new_ban json account minutes reason actor now)
            (load-Loaded a s l h q)
            (λ ban made. new_ban-IsBan account minutes reason actor now json ban made) e
