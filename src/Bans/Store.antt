-- ===== src/Bans/Store.antt =====
-- src/bans.cpp: the store of bans, in memory and in its file.
-- An operation gets what the file system will answer, and gives the store it leaves with the error it
-- returns, if any. The JSON library is a parameter. A file that cannot be read counts as there.
use source2root.Base.{
  ℕ, suc, ◌+◌, ◌-◌, ◌*◌, ◌≡◌, ◌&&◌, ◌||◌, Bool, true, false, not, Option, none, some, List, [], ◌∷◌,
  Result, ok, err, ◌>>=◌, ◌>>◌, throw_if, or_throw, is_ok, if◌then◌else◌, ltb, leb, ◌==◌, is_nil,
  length, any,
}
use source2root.Base.Text.{Bytes, ℤ, pos, negsuc, int_le, codes, bytes_eq, to_string, is_control}
use source2root.Base.Table.{lookup, has, put, without, nat_key}
use source2root.Identity.{IdentityError, parse_steam_identity, valid_steam_identity}
use source2root.Bans.Calendar.{to_days}
use source2root.Bans.Files.{WriteError, System, Disk, atomic_write}
use source2root.Bans.Utc.{UtcError, utc, parse_utc, seconds_in_day}

pub data BanError : Type 0 where
  invalid_json too_large too_deep too_many duplicate_account invalid_account : BanError
  invalid_time invalid_fields invalid_ban outside_years cannot_encode : BanError
  cannot_inspect cannot_read changed_outside not_loaded : BanError
  unwritten : WriteError → BanError

-- SafeText
abbrev pub safe_text : Bytes → ℕ → Bool
safe_text text maximum = not (is_nil text) && leb (length text) maximum && not (any is_control text)

pub record Ban : Type 0 where
  pub account : ℕ
  pub created : ℤ
  pub expires : Option ℤ
  pub reason : Bytes
  pub actor : Bytes

-- Ban::Active
unfoldable pub is_active : ℤ → Ban → Bool
is_active now ban = elim ban.expires [ none ↦ true | some t ↦ not (int_le t now) ]

-- An entry of the file
pub record Entry : Type 0 where
  pub steamid : Bytes
  pub created_utc : Bytes
  pub expires_utc : Option Bytes
  pub reason : Bytes
  pub actor : Bytes

-- ParseJson's loop over the bytes: whether no place is nested more than 16 deep
abbrev pub next_quoted : ℕ → Bool → Bool → Bool
next_quoted c quoted escaped = if quoted then escaped || not (c == 34) else c == 34

abbrev pub next_escaped : ℕ → Bool → Bool → Bool
next_escaped c quoted escaped = if quoted then not escaped && c == 92 else escaped

abbrev pub next_nesting : ℕ → Bool → ℕ → ℕ
next_nesting c quoted nesting =
    if quoted
    then nesting
    else if c == 123 || c == 91
    then suc nesting
    else if c == 125 || c == 93
    then nesting - 1
    else nesting

unfoldable pub is_shallow : Bytes → Bool → Bool → ℕ → Bool
is_shallow [] quoted escaped nesting = true
is_shallow (c ∷ r) quoted escaped nesting =
    let rest =
      is_shallow r (next_quoted c quoted escaped) (next_escaped c quoted escaped)
        (next_nesting c quoted nesting) in
    if not quoted && (c == 123 || c == 91) && ltb 15 nesting then false else rest

-- Load: the text of a new file
abbrev pub new_contents : Bytes
new_contents = codes "{\n  \"bans\": [],\n  \"schema\": 1\n}\n"

-- nlohmann::json: `decode` gives the entries of a text that has the schema and the types, and
-- `encode` a text with other entries in it, or none where it throws. It reads back what it wrote,
-- which is nested no deeper than what was there, and a new file has no entries.
pub record Json : Type 0 where
  pub decode : Bytes → Option (List Entry)
  pub encode : Bytes → List Entry → Option Bytes
  pub decode_encode :
      (old text : Bytes) (l : List Entry) → encode old l ≡ some text → decode text ≡ some l
  pub shallow_encode :
      (old text : Bytes) (l : List Entry)
      → is_shallow old false false 0 ≡ true
      → encode old l ≡ some text
      → is_shallow text false false 0 ≡ true
  pub decode_new : decode new_contents ≡ some []

abbrev pub Bans : Type 0
Bans = List (ℕ × Ban)

abbrev pub max_bytes : ℕ
max_bytes = 1048576

abbrev pub max_bans : ℕ
max_bans = 4096

-- ParseSteamId, and what it takes for an actor
abbrev pub is_actor : Bytes → Bool
is_actor actor = bytes_eq actor (codes "server") || is_ok (parse_steam_identity actor)

abbrev pub time_or : BanError → Result UtcError ℤ → Result BanError ℤ
time_or e (ok t) = ok t
time_or e (err x) = err e

abbrev pub read_expiry : Option Bytes → Result BanError (Option ℤ)
read_expiry none = ok none
read_expiry (some text) = time_or BanError.invalid_time (parse_utc text) >>= λ t. ok (some t)

abbrev pub ends_early : Option ℤ → ℤ → Bool
ends_early none created = false
ends_early (some t) created = int_le t created

abbrev pub account_or : Result IdentityError ℕ → Result BanError ℕ
account_or (ok id) = ok id
account_or (err x) = err BanError.invalid_account

-- ParseBans, one entry
unfoldable pub entry_ban : Entry → Result BanError Ban
entry_ban e = account_or (parse_steam_identity e.steamid) >>= λ id.
    time_or BanError.invalid_time (parse_utc e.created_utc) >>= λ created.
    read_expiry e.expires_utc >>= λ expires.
    throw_if (ends_early expires created || not (safe_text e.reason 256) || not (is_actor e.actor))
      BanError.invalid_fields
    >> ok (record {
      account = id;
      created = created;
      expires = expires;
      reason = e.reason;
      actor = e.actor;
    })

unfoldable pub read_bans : List Entry → Bans → Result BanError Bans
read_bans [] t = ok t
read_bans (e ∷ rest) t = entry_ban e >>= λ b.
    throw_if (has b.account t) BanError.duplicate_account >> read_bans rest (put b.account b t)

-- SaveBans, one entry
abbrev pub text_or : Result UtcError Bytes → Result BanError Bytes
text_or (ok t) = ok t
text_or (err x) = err BanError.outside_years

abbrev pub write_expiry : Option ℤ → Result BanError (Option Bytes)
write_expiry none = ok none
write_expiry (some t) = text_or (utc t) >>= λ text. ok (some text)

unfoldable pub ban_entry : ℕ → Ban → Result BanError Entry
ban_entry id b = text_or (utc b.created) >>= λ created. write_expiry b.expires >>= λ expires.
    ok (record {
      steamid = to_string id;
      created_utc = created;
      expires_utc = expires;
      reason = b.reason;
      actor = b.actor;
    })

unfoldable pub entries : Bans → Result BanError (List Entry)
entries [] = ok []
entries ((id, b) ∷ rest) = ban_entry id b >>= λ e. entries rest >>= λ l. ok (e ∷ l)

pub record BanStore : Type 0 where
  pub bans : Bans
  pub contents : Option Bytes
  pub file : Option Bytes

pub record Answers : Type 0 where
  pub inspects : Bool
  pub reads : Bool
  pub creating : System
  pub writing : System

abbrev pub Outcome : Type 0
Outcome = BanStore × Option BanError

-- Read
abbrev pub read_file : Bool → Option Bytes → Result BanError Bytes
read_file reads none = err BanError.cannot_read
read_file reads (some text) =
    throw_if (not reads || ltb max_bytes (length text)) BanError.cannot_read >> ok text

-- What follows AtomicWrite in SaveBans and Load
abbrev pub stored : Bytes → Bans → BanStore → Disk × Option WriteError → Outcome
stored text bans s (d, none) = (record { bans = bans; contents = some text; file = d.file }, none)
stored text bans s (d, some e) = (record s { file = d.file }, some (BanError.unwritten e))

abbrev pub store_text : System → Bytes → Bans → BanStore → Outcome
store_text system text bans s =
    stored text bans s (atomic_write system text (record { file = s.file; temporary = none }))

module _ (json : Json) where
  -- ParseBans
  unfoldable pub parse_bans : Bytes → Result BanError Bans
  parse_bans text =
      throw_if (ltb max_bytes (length text)) BanError.too_large
      >> (throw_if (not (is_shallow text false false 0)) BanError.too_deep
          >> (or_throw (json.decode text) BanError.invalid_json >>= λ l.
              throw_if (ltb max_bans (length l)) BanError.too_many >> read_bans l []))

  abbrev pub loaded : Bytes → BanStore → Result BanError Bans → Outcome
  loaded text s (ok bans) = (record s { bans = bans; contents = some text }, none)
  loaded text s (err e) = (s, some e)

  abbrev pub load_text : BanStore → Result BanError Bytes → Outcome
  load_text s (err e) = (s, some e)
  load_text s (ok text) = loaded text s (parse_bans text)

  -- Load, where the file is there or not
  abbrev pub load_found : Answers → BanStore → Option Bytes → Outcome
  load_found a s none = store_text a.creating new_contents [] s
  load_found a s (some text) = load_text s (read_file a.reads (some text))

  abbrev pub load_file : Answers → BanStore → Outcome
  load_file a s = if a.inspects then load_found a s s.file else (s, some BanError.cannot_inspect)

  abbrev pub load_from : Answers → BanStore → Option Bytes → Outcome
  load_from a s (some text) = (s, none)
  load_from a s none = load_file a s

  -- Load
  unfoldable pub load : Answers → BanStore → Outcome
  load a s = load_from a s s.contents

  -- SaveBans
  abbrev pub new_text : Bytes → Bans → Result BanError Bytes
  new_text old candidate = entries candidate >>= λ l.
      or_throw (json.encode old l) BanError.cannot_encode >>= λ text.
      throw_if (ltb max_bytes (length text)) BanError.too_large >> ok text

  abbrev pub save_text : Answers → Bans → BanStore → Result BanError Bytes → Outcome
  save_text a candidate s (err e) = (s, some e)
  save_text a candidate s (ok text) = store_text a.writing text candidate s

  abbrev pub known_contents : Answers → BanStore → Result BanError Bytes
  known_contents a s = or_throw s.contents BanError.not_loaded >>= λ old.
      read_file a.reads s.file >>= λ previous.
      throw_if (not (bytes_eq previous old)) BanError.changed_outside >> ok old

  unfoldable pub save_bans : Answers → Bans → BanStore → Outcome
  save_bans a candidate s =
      save_text a candidate s (known_contents a s >>= λ old. new_text old candidate)

  -- AddBan after Load: the ban, or the error
  abbrev pub last_second : ℕ
  last_second = to_days 9999 12 31 * seconds_in_day + 86399

  abbrev pub expiry : ℕ → ℤ → Option ℤ
  expiry minutes (pos now) = if minutes == 0 then none else some (pos (now + minutes * 60))
  expiry minutes (negsuc n) = none

  abbrev pub is_far : ℕ → ℤ → Bool
  is_far minutes (pos now) = not (minutes == 0) && ltb (last_second - now) (minutes * 60)
  is_far minutes (negsuc n) = false

  unfoldable pub new_ban : ℕ → ℕ → Bytes → Bytes → ℤ → Result BanError Ban
  new_ban account minutes reason actor now =
      throw_if
        (not (valid_steam_identity account)
          || ltb 5256000 minutes
          || not (safe_text reason 256)
          || not (is_actor actor))
        BanError.invalid_ban
      >> (text_or (utc now) >>= λ text.
          throw_if (is_far minutes now) BanError.outside_years
          >> ok (record {
            account = account;
            created = now;
            expires = expiry minutes now;
            reason = reason;
            actor = actor;
          }))

  abbrev pub add_new : Answers → BanStore → Result BanError Ban → Outcome
  add_new a s (err e) = (s, some e)
  add_new a s (ok ban) =
      let candidate = put ban.account ban s.bans in
      if ltb max_bans (length candidate)
      then (s, some BanError.too_many)
      else save_bans a candidate s

  abbrev pub after_load : (BanStore → Outcome) → Outcome → Outcome
  after_load f (s, some e) = (s, some e)
  after_load f (s, none) = f s

  -- AddBan
  unfoldable pub add_ban : Answers → ℕ → ℕ → Bytes → Bytes → ℤ → BanStore → Outcome
  add_ban a account minutes reason actor now s =
      after_load (λ s. add_new a s (new_ban account minutes reason actor now)) (load a s)

  -- RemoveBan
  abbrev pub remove_loaded : Answers → ℕ → BanStore → Outcome
  remove_loaded a account s =
      if not (valid_steam_identity account)
      then (s, some BanError.invalid_account)
      else if has account s.bans
      then save_bans a (without account s.bans) s
      else (s, none)

  unfoldable pub remove_ban : Answers → ℕ → BanStore → Outcome
  remove_ban a account s = after_load (remove_loaded a account) (load a s)

-- ActiveBan
unfoldable pub active_ban : ℕ → ℤ → BanStore → Option Ban
active_ban account now s = elim (lookup account s.bans) [
  | none ↦ none
  | some ban ↦ if is_active now ban then some ban else none
]
