-- ===== src/Identity/Tests.antt =====
-- src/identity.cpp at concrete texts.
use source2root.Base.{
  ◌+◌, ◌/◌, ◌%◌, ◌≡◌, refl, ◌&&◌, [], ◌∷◌, ◌++◌, ok, err, arith, leb, length, all,
}
use source2root.Base.Text.{
  codes, to_string, from_chars_unsigned, scan_digits, starts_with, ends_with,
}
use source2root.Identity.{
  parse_steam_identity, steam_spelling, account_spelling, number, individual_base, valid_permission,
  expected_steam, account_overflow, not_individual,
}
use source2root.Identity.Parse.{parse_steam_identity-spellings, steam_text}
use source2root.Identity.Names.{valid_permission-words, is_word, words}

parse_account : parse_steam_identity (codes "[U:1:123]") ≡ ok 76561197960265851
unfolding parse_steam_identity account_spelling number from_chars_unsigned scan_digits starts_with
    ends_with
parse_account = refl

parse_errors :
    (parse_steam_identity (codes "STEAM_2:1:1") ≡ err expected_steam)
    × (parse_steam_identity (codes "[U:1:4294967296]") ≡ err account_overflow)
    × (parse_steam_identity (codes "[U:1:0]") ≡ err not_individual)
unfolding parse_steam_identity account_spelling steam_spelling number from_chars_unsigned
    scan_digits starts_with ends_with
parse_errors = (refl, refl, refl)

parse_steam_identity-spellings_example :
    (parse_steam_identity (to_string (individual_base + 123)) ≡ ok (individual_base + 123))
    × (parse_steam_identity (codes "[U:1:" ++ to_string 123 ++ b']' ∷ [])
        ≡ ok (individual_base + 123))
    × (parse_steam_identity (steam_text 1 (123 % 2) (123 / 2)) ≡ ok (individual_base + 123))
parse_steam_identity-spellings_example =
    parse_steam_identity-spellings 1 123 (omega arith) (omega arith) (omega arith)

valid_permission-words_example :
    valid_permission (codes "admin.kick")
    ≡ (leb (length (codes "admin.kick")) 96 && all is_word (words (codes "admin.kick")))
valid_permission-words_example = valid_permission-words b'a' (codes "dmin.kick")
