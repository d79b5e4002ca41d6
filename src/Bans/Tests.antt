-- ===== src/Bans/Tests.antt =====
-- src/bans.cpp: a leap day as a text, and a ban that is made, filed and read back.
use source2root.Base.{
  ◌≡◌, refl, sym, ap, ◌∙◌, ok, inl, inr, none, some, Option, List, [], ◌∷◌, true, false, Bool, ◌+◌,
  ◌*◌, ◌⊎◌, ◌&&◌, if◌then◌else◌, Bool-cases, arith,
}
use source2root.Base.Text.{ℤ, pos, codes, Bytes, bytes_eq, bytes_eq-eq, to_string}
use source2root.Bans.Calendar.{
  from_days, year_rounds, month_rounds, days_in_year, days_in_month, year_start, month_start,
}
use source2root.Bans.Utc.{utc, parse_utc, parse_utc-utc}
use source2root.Bans.Files.{
  System, wrote, interrupted, failed, WriteError, atomic_write, write_rounds,
}
use source2root.Bans.Store.{
  Answers, BanStore, Json, Entry, BanError, is_shallow, load, add_ban, remove_ban, save_bans,
  new_ban, entries, ban_entry, new_contents,
}
use source2root.Bans.Calls.{failed_call-Keeps, IsSaved, Unconfirmed}
use source2root.Bans.Fresh.{add_ban-reloads}

-- 2024-02-29, at 23:59:58
abbrev leap_day : ℤ
leap_day = pos (19782 * 86400 + 86398)

written : utc leap_day ≡ ok (codes "2024-02-29T23:59:58Z")
unfolding utc from_days year_rounds month_rounds days_in_year days_in_month year_start month_start
written = refl

parse_utc-utc_example : parse_utc (codes "2024-02-29T23:59:58Z") ≡ ok leap_day
parse_utc-utc_example = parse_utc-utc leap_day written

-- A JSON library that knows a file with no entry and a file with one.
abbrev first : Entry
first = record {
  steamid = codes "76561198000000001";
  created_utc = codes "2024-02-29T23:59:58Z";
  expires_utc = none;
  reason = codes "spam";
  actor = codes "server";
}

abbrev first_text : Bytes
first_text =
    codes
      "{\"bans\": [{\"steamid\": \"76561198000000001\", \"created_utc\": \"2024-02-29T23:59:58Z\", \"expires_utc\": null, \"reason\": \"spam\", \"actor\": \"server\"}], \"schema\": 1}"

abbrev is_none : Option Bytes → Bool
is_none none = true
is_none (some t) = false

abbrev is_first : Entry → Bool
is_first e =
    bytes_eq e.steamid first.steamid
    && bytes_eq e.created_utc first.created_utc
    && is_none e.expires_utc
    && bytes_eq e.reason first.reason
    && bytes_eq e.actor first.actor

is_none-eq : (o : Option Bytes) → is_none o ≡ true → o ≡ none
is_none-eq none h = refl
is_none-eq (some t) h = absurd (cc h)

is_first-eq : (e : Entry) → is_first e ≡ true → e ≡ first
is_first-eq e h =
    let a = bytes_eq-eq e.steamid first.steamid (ground (arith, h)) in
    let b = bytes_eq-eq e.created_utc first.created_utc (ground (arith, h)) in
    let c = is_none-eq e.expires_utc (ground (arith, h)) in
    let d = bytes_eq-eq e.reason first.reason (ground (arith, h)) in
    let f = bytes_eq-eq e.actor first.actor (ground (arith, h)) in
    rw (sym a, sym b, sym c, sym d, sym f) refl

abbrev decode_first : Bytes → Option (List Entry)
decode_first text =
    if bytes_eq text new_contents
    then some []
    else if bytes_eq text first_text
    then some (first ∷ [])
    else none

abbrev encode_first : Bytes → List Entry → Option Bytes
encode_first old [] = some new_contents
encode_first old (e ∷ []) = if is_first e then some first_text else none
encode_first old (e ∷ f ∷ l) = none

read_first : decode_first first_text ≡ some (first ∷ [])
unfolding bytes_eq
read_first = refl

shallow_first : is_shallow first_text false false 0 ≡ true
unfolding is_shallow
shallow_first = refl

decode_first-encode_first :
    (old text : Bytes) (l : List Entry)
    → encode_first old l ≡ some text
    → (decode_first text ≡ some l) × (is_shallow text false false 0 ≡ true)
unfolding bytes_eq is_shallow
decode_first-encode_first old text [] w =
    let same : new_contents ≡ text = cc w in rw (sym same) (refl, refl)
decode_first-encode_first old text (e ∷ []) w = elim (Bool-cases (is_first e)) [
  | inl q ↦
      (let w' = rw q at w in
        let same : first_text ≡ text = cc w' in
        (
          ap decode_first (sym same) ∙ read_first ∙ ap (λ e. some (e ∷ [])) (sym (is_first-eq e q)),
          ap (λ t. is_shallow t false false 0) (sym same) ∙ shallow_first,
        ))
  | inr q ↦ absurd (let w' = rw q at w in cc w')
]
decode_first-encode_first old text (e ∷ f ∷ l) w = absurd (cc w)

abbrev json : Json
json = record {
  decode = decode_first;
  encode = encode_first;
  decode_encode = λ old text l w. (decode_first-encode_first old text l w).0;
  shallow_encode = λ old text l shallow w. (decode_first-encode_first old text l w).1;
  decode_new = (decode_first-encode_first [] new_contents [] refl).0;
}

-- Writes in two pieces, with an interruption between
abbrev sound : System
sound = record {
  creates_directory = true;
  makes_temporary = true;
  writes = wrote 7 ∷ interrupted ∷ wrote 2000 ∷ [];
  syncs = true;
  closes = true;
  renames = true;
  unlinks = true;
  opens_directory = true;
  syncs_directory = true;
  closes_directory = true;
}

abbrev fine : Answers
fine = record { inspects = true; reads = true; creating = sound; writing = sound }

-- The directory cannot be synchronised.
abbrev unsure : Answers
unsure = record fine { writing = record sound { syncs_directory = false } }

-- The disk is full after seven bytes.
abbrev full : Answers
full = record fine { writing = record sound { writes = wrote 7 ∷ failed ∷ [] } }

abbrev empty : BanStore
empty = record { bans = []; contents = none; file = none }

abbrev with_ban : BanStore
with_ban = record {
  bans =
      (
        76561198000000001,
        record {
          account = 76561198000000001;
          created = leap_day;
          expires = none;
          reason = codes "spam";
          actor = codes "server";
        },
      )
      ∷ [];
  contents = some first_text;
  file = some first_text;
}

added :
    add_ban json fine 76561198000000001 0 (codes "spam") (codes "server") leap_day empty
    ≡ (with_ban, none)
unfolding add_ban load save_bans atomic_write write_rounds new_ban entries ban_entry bytes_eq
    to_string utc from_days year_rounds month_rounds days_in_year days_in_month year_start
    month_start
added = refl

add_ban-reloads_example :
    load json fine (record { bans = []; contents = none; file = some first_text })
    ≡ (with_ban, none)
add_ban-reloads_example =
    add_ban-reloads json fine fine 76561198000000001 0 (codes "spam") (codes "server") leap_day
      empty with_ban (inl refl) refl refl added

-- A removal whose text does not fit the disk leaves the file.
removed_full :
    remove_ban json full 76561198000000001 with_ban
    ≡ (with_ban, some (BanError.unwritten WriteError.save_failed))
unfolding remove_ban load save_bans entries bytes_eq atomic_write write_rounds
removed_full = refl

-- A removal that replaces the file and is not confirmed
removed : remove_ban json unsure 76561198000000001 with_ban ≡ (
  record with_ban { file = some new_contents },
  some (BanError.unwritten WriteError.not_synced),
)
unfolding remove_ban load save_bans entries bytes_eq atomic_write write_rounds
removed = refl

failed_call-Keeps_example :
    (with_ban.bans ≡ with_ban.bans)
    × (with_ban.contents ≡ with_ban.contents)
    × ((some first_text ≡ some first_text)
        ⊎ (Unconfirmed json full first_text (BanError.unwritten WriteError.save_failed)
            × IsSaved json full first_text (some first_text)))
failed_call-Keeps_example =
    failed_call-Keeps json full first_text with_ban with_ban
      (BanError.unwritten WriteError.save_failed) 76561198000000001 0 (codes "spam")
      (codes "server") leap_day refl (inr removed_full)
