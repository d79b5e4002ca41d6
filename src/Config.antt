-- ===== src/Config.antt =====
-- src/config.cpp: the core settings, their spelling, and the lines of source2root.cfg.
pub mod Line
pub mod Valid
pub mod Copy
pub mod Words
mod Tests
use source2root.Base.{
  ℕ, ◌&&◌, ◌||◌, Bool, true, false, not, Option, none, some, List, [], ◌∷◌, Result, ok, err, ◌>>=◌,
  ◌>>◌, throw_if, if◌then◌else◌, ltb, leb, ◌==◌, is_nil, length, any, ◌+◌,
}
use source2root.Base.Text.{Bytes, codes, bytes_eq, to_string, from_chars_int, ℤ, pos, negsuc}
use source2root.Config.Line.{ConfigError, parse_line, get_lines}

-- CoreSettings; the two numbers are never negative.
pub record CoreSettings : Type 0 where
  pub activity : ℕ
  pub debug : ℕ
  pub public_trigger : Bytes
  pub silent_trigger : Bytes

abbrev pub show_activity_name : Bytes
show_activity_name = codes "sr_show_activity"

abbrev pub public_trigger_name : Bytes
public_trigger_name = codes "sr_chat_public_trigger"

abbrev pub silent_trigger_name : Bytes
silent_trigger_name = codes "sr_chat_silent_trigger"

abbrev pub debug_name : Bytes
debug_name = codes "sr_debug"

-- CoreSettings::Value
unfoldable pub value : Bytes → CoreSettings → Result ConfigError Bytes
value name s =
    if bytes_eq name show_activity_name
    then ok (to_string s.activity)
    else if bytes_eq name public_trigger_name
    then ok s.public_trigger
    else if bytes_eq name silent_trigger_name
    then ok s.silent_trigger
    else if bytes_eq name debug_name
    then ok (to_string s.debug)
    else err ConfigError.unknown_setting

abbrev pub bad_trigger_byte : ℕ → Bool
bad_trigger_byte c = leb c 32 || leb 127 c || c == b'"' || c == b';' || c == b'\\'

unfoldable pub trigger_field : Bytes → Result ConfigError Bytes
trigger_field v = do
  throw_if (ltb 8 (length v)) ConfigError.trigger_length
  throw_if (any bad_trigger_byte v) ConfigError.trigger_bytes
  ok v

abbrev pub in_range : ℕ → Option (ℤ × Bytes) → Result ConfigError ℕ
in_range maximum none = err ConfigError.not_in_range
in_range maximum (some (pos n, [])) = if ltb maximum n then err ConfigError.not_in_range else ok n
in_range maximum (some (pos n, c ∷ r)) = err ConfigError.not_in_range
in_range maximum (some (negsuc n, r)) = err ConfigError.not_in_range

-- The whole text is a number from 0 to the maximum.
unfoldable pub number_field : ℕ → Bytes → Result ConfigError ℕ
number_field maximum v = in_range maximum (from_chars_int v)

-- CoreSettings::SetField
unfoldable pub set_field : Bytes → Bytes → CoreSettings → Result ConfigError CoreSettings
set_field name v s =
    if bytes_eq name public_trigger_name
    then (trigger_field v >>= λ t. ok (record s { public_trigger = t }))
    else if bytes_eq name silent_trigger_name
    then (trigger_field v >>= λ t. ok (record s { silent_trigger = t }))
    else if bytes_eq name show_activity_name
    then (number_field 15 v >>= λ n. ok (record s { activity = n }))
    else if bytes_eq name debug_name
    then (number_field 1 v >>= λ n. ok (record s { debug = n }))
    else err ConfigError.unknown_setting

-- CoreSettings::Validate
abbrev pub same_triggers : CoreSettings → Bool
same_triggers s = not (is_nil s.public_trigger) && bytes_eq s.public_trigger s.silent_trigger

abbrev pub validated : CoreSettings → Result ConfigError CoreSettings
validated s = throw_if (same_triggers s) ConfigError.equal_triggers >> ok s

-- CoreSettings::Set: the candidate replaces the settings, which stay where it throws.
unfoldable pub set_value : Bytes → Bytes → CoreSettings → Result ConfigError CoreSettings
set_value name v s = set_field name v s >>= validated

-- CoreSettings::SetAll, the values in the order of Names
unfoldable pub set_all :
    Bytes → Bytes → Bytes → Bytes → CoreSettings → Result ConfigError CoreSettings
set_all activity public_trigger silent_trigger debug s = do
  s1 ← set_field show_activity_name activity s
  s2 ← set_field public_trigger_name public_trigger s1
  s3 ← set_field silent_trigger_name silent_trigger s2
  s4 ← set_field debug_name debug s3
  validated s4

-- One line of the file
unfoldable pub read_line : Bytes → CoreSettings → Result ConfigError CoreSettings
read_line line s = do
  words ← parse_line line
  elim words [ name ∷ v ∷ rest ↦ set_field name v s | _ ↦ ok s ]

-- The exception of a line is thrown again with the line's number.
abbrev pub at_line : ℕ → Result ConfigError CoreSettings → Result (ℕ × ConfigError) CoreSettings
at_line number (ok s) = ok s
at_line number (err e) = err (number, e)

unfoldable pub read_lines : ℕ → List Bytes → CoreSettings → Result (ℕ × ConfigError) CoreSettings
read_lines number [] s = ok s
read_lines number (line ∷ rest) s =
    at_line (number + 1) (read_line line s) >>= read_lines (number + 1) rest

-- What the file system answers: no such file, more than the 65,536 bytes that are read, a read
-- that fails or that finds the file changed, or the bytes.
pub data ConfigFile : Type 0 where
  absent too_large unreadable : ConfigFile
  holding : Bytes → ConfigFile

-- CoreSettings::Read; an exception of the file or of Validate has no line, 0.
unfoldable pub read : ConfigFile → CoreSettings → Result (ℕ × ConfigError) CoreSettings
read ConfigFile.absent initial = ok initial
read ConfigFile.too_large initial = err (0, ConfigError.file)
read ConfigFile.unreadable initial = err (0, ConfigError.file)
read (ConfigFile.holding source) initial =
    if ltb 65536 (length source)
    then err (0, ConfigError.file)
    else read_lines 0 (get_lines source) initial >>= λ s. at_line 0 (validated s)
