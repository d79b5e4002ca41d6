-- ===== src/Config/Tests.antt =====
-- src/config.cpp at concrete settings and lines.
use source2root.Base.{◌≡◌, refl, arith, [], ◌∷◌, ◌++◌, ok, err, Ensures}
use source2root.Base.Text.{codes, bytes_eq, to_string}
use source2root.Config.Line.{
  ConfigError, parse_line, skip_blanks, word_at, one_word, word_bytes, at_gap, at_comment,
  word_rounds,
}
use source2root.Config.{CoreSettings, set_all, read, ConfigFile}
use source2root.Config.Valid.{IsValid, read-IsValid}
use source2root.Config.Copy.{set_all-values}
use source2root.Config.Words.{parse_line-printed}

-- The settings before any file is read
abbrev initial : CoreSettings
initial = record {
  activity = 13;
  debug = 0;
  public_trigger = codes "!";
  silent_trigger = codes "/";
}

abbrev other : CoreSettings
other = record { activity = 0; debug = 1; public_trigger = codes "/"; silent_trigger = codes "." }

initial-IsValid : IsValid initial
unfolding bytes_eq
initial-IsValid = ((omega arith, omega arith, (omega arith, refl), (omega arith, refl)), refl)

quoted_line : parse_line (codes "sr_debug \"1\" // on") ≡ ok (codes "sr_debug" ∷ codes "1" ∷ [])
unfolding parse_line skip_blanks word_at one_word word_bytes at_gap at_comment word_rounds
quoted_line = refl

one_bare_word : parse_line (codes "  sr_debug") ≡ err ConfigError.expected_pair
unfolding parse_line skip_blanks word_at one_word word_bytes at_gap at_comment word_rounds
one_bare_word = refl

read-IsValid_example : Ensures IsValid (read (ConfigFile.holding (codes "sr_debug 1")) initial)
read-IsValid_example =
    read-IsValid (ConfigFile.holding (codes "sr_debug 1")) initial initial-IsValid

set_all-values_example :
    set_all (to_string 13) (codes "!") (codes "/") (to_string 0) other ≡ ok initial
set_all-values_example = set_all-values initial other initial-IsValid

parse_line-printed_example :
    parse_line ((b'a' ∷ codes "b") ++ 32 ∷ b'"' ∷ (codes "1 2" ++ b'"' ∷ []))
    ≡ ok ((b'a' ∷ codes "b") ∷ codes "1 2" ∷ [])
parse_line-printed_example =
    parse_line-printed b'a' (codes "b") (codes "1 2") (ground arith) (ground arith)
