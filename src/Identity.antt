-- ===== src/Identity.antt =====
-- src/identity.cpp: Steam identities, identifiers and permission names.
pub mod Parse
pub mod Names
mod Tests
use source2root.Base.{
  ℕ, ◌+◌, ◌-◌, ◌*◌, ◌/◌, ◌&&◌, ◌||◌, Bool, true, false, not, none, some, [], ◌∷◌, Result, ok, err,
  ◌>>=◌, ◌>>◌, throw_if, if◌then◌else◌, ◌==◌, ltb, leb, length, get_or, drop, any,
}
use source2root.Base.Text.{
  Bytes, codes, starts_with, ends_with, substr, from_chars_unsigned, u64_max, u32_max, is_lower,
  is_digit,
}

pub data IdentityError : Type 0 where
  invalid_number expected_steam expected_account account_overflow not_individual : IdentityError

-- IndividualBase
abbrev pub individual_base : ℕ
individual_base = 76561197960265728

-- Number: a whole text that is an unsigned 64-bit number
unfoldable pub number : Bytes → Result IdentityError ℕ
number value = elim (from_chars_unsigned u64_max value) [
  | none ↦ err invalid_number
  | some (result, rest) ↦ elim rest [ [] ↦ ok result | _ ↦ err invalid_number ]
]

-- ValidSteamIdentity
abbrev pub valid_steam_identity : ℕ → Bool
valid_steam_identity value = ltb individual_base value && leb value (individual_base + u32_max)

abbrev byte_at : Bytes → ℕ → ℕ
byte_at text i = get_or text i 0

pub steam_spelling : Bytes → Result IdentityError ℕ
steam_spelling text = do
  throw_if
      (ltb (length text) 11
        || (not (byte_at text 6 == b'0') && not (byte_at text 6 == b'1'))
        || not (byte_at text 7 == b':')
        || (not (byte_at text 8 == b'0') && not (byte_at text 8 == b'1'))
        || not (byte_at text 9 == b':'))
      expected_steam
  half ← number (drop 10 text)
  throw_if (ltb (u32_max / 2) half) account_overflow
  ok (individual_base + half * 2 + (byte_at text 8 - b'0'))

unfoldable pub account_spelling : Bytes → Result IdentityError ℕ
account_spelling text = do
  throw_if (not (starts_with (codes "[U:1:") text) || not (ends_with b']' text)) expected_account
  account ← number (substr 5 (length text - 6) text)
  throw_if (ltb u32_max account) account_overflow
  ok (individual_base + account)

-- ParseSteamIdentity
unfoldable pub parse_steam_identity : Bytes → Result IdentityError ℕ
parse_steam_identity text = do
  result ←
      if starts_with (codes "STEAM_") text
      then steam_spelling text
      else if starts_with (codes "[U:") text
      then account_spelling text
      else number text
  throw_if (not (valid_steam_identity result)) not_individual
  ok result

abbrev pub is_identifier_byte : ℕ → Bool
is_identifier_byte c = is_lower c || is_digit c || c == b'_' || c == b'-'

-- ValidIdentifier
pub valid_identifier : Bytes → Bool
valid_identifier [] = false
valid_identifier (c ∷ r) =
    if ltb 64 (length (c ∷ r)) then false else not (any (λ b. not (is_identifier_byte b)) (c ∷ r))

-- text.back(), where the text is not empty
abbrev pub back : ℕ → Bytes → ℕ
back c [] = c
back c (b ∷ r) = back b r

-- The loop of ValidPermission: `dot` tells that the byte before was a dot.
unfoldable pub permission_bytes : Bool → Bytes → Bool
permission_bytes dot [] = true
permission_bytes dot (c ∷ r) =
    let rest = permission_bytes (c == b'.') r in
    if not (is_identifier_byte c || c == b'.')
    then false
    else if c == b'.' && dot
    then false
    else rest

-- ValidPermission
unfoldable pub valid_permission : Bytes → Bool
valid_permission [] = true
valid_permission (c ∷ r) =
    if ltb 96 (length (c ∷ r))
    then false
    else if c == b'.' || back c r == b'.'
    then false
    else permission_bytes false (c ∷ r)
