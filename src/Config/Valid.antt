-- ===== src/Config/Valid.antt =====
-- src/config.cpp: the settings stay in range, whatever is set or read.
use source2root.Base.{
  ℕ, ◌+◌, ◌≤◌, ◌≡◌, false, Option, none, some, List, [], ◌∷◌, Result, ok, err, ◌>>=◌, ltb, length,
  any, Ensures, >>=-Ensures, throw_if-Ensures, Ensures-ok, if-either, ltb-false→le,
}
use source2root.Base.Text.{Bytes, bytes_eq, from_chars_int, ℤ, pos, negsuc}
use source2root.Config.Line.{ConfigError, parse_line, get_lines}
use source2root.Config.{
  CoreSettings, bad_trigger_byte, trigger_field, in_range, number_field, set_field, same_triggers,
  validated, set_value, set_all, read_line, at_line, read_lines, ConfigFile, read,
  show_activity_name, public_trigger_name, silent_trigger_name, debug_name,
}

abbrev pub IsTrigger : Bytes → Type 0
IsTrigger t = (length t ≤ 8) × (any bad_trigger_byte t ≡ false)

-- Every field has a value that SetField accepts.
abbrev pub InRange : CoreSettings → Type 0
InRange s =
    (s.activity ≤ 15) × (s.debug ≤ 1) × IsTrigger s.public_trigger × IsTrigger s.silent_trigger

-- Validate passes, too.
abbrev pub IsValid : CoreSettings → Type 0
IsValid s = InRange s × (same_triggers s ≡ false)

trigger_field-IsTrigger : (v : Bytes) → Ensures IsTrigger (trigger_field v)
unfolding trigger_field
trigger_field-IsTrigger v = throw_if-Ensures IsTrigger (ltb 8 (length v)) _ _ λ short.
    throw_if-Ensures IsTrigger (any bad_trigger_byte v) _ _
      λ good. (ltb-false→le 8 (length v) short, good)

in_range-le :
    (maximum : ℕ) (o : Option (ℤ × Bytes)) → Ensures (λ n. n ≤ maximum) (in_range maximum o)
in_range-le maximum none = tt
in_range-le maximum (some (pos n, [])) =
    if-either (Ensures (λ n. n ≤ maximum)) (ltb maximum n) (λ e. tt) (λ e. ltb-false→le maximum n e)
in_range-le maximum (some (pos n, c ∷ r)) = tt
in_range-le maximum (some (negsuc n, r)) = tt

number_field-le : (maximum : ℕ) (v : Bytes) → Ensures (λ n. n ≤ maximum) (number_field maximum v)
unfolding number_field
number_field-le maximum v = in_range-le maximum (from_chars_int v)

set_field-InRange :
    (name v : Bytes) (s : CoreSettings) → InRange s → Ensures InRange (set_field name v s)
unfolding set_field
set_field-InRange name v s h =
    if-either (Ensures InRange) (bytes_eq name public_trigger_name)
      (λ _. >>=-Ensures InRange (trigger_field v) _ λ t e.
        let (a, d, p, q) = h in
        (a, d, Ensures-ok IsTrigger (trigger_field v) (trigger_field-IsTrigger v) e, q))
      λ _.
        if-either (Ensures InRange) (bytes_eq name silent_trigger_name)
          (λ _. >>=-Ensures InRange (trigger_field v) _ λ t e.
            let (a, d, p, q) = h in
            (a, d, p, Ensures-ok IsTrigger (trigger_field v) (trigger_field-IsTrigger v) e))
          λ _.
            if-either (Ensures InRange) (bytes_eq name show_activity_name)
              (λ _. >>=-Ensures InRange (number_field 15 v) _ λ n e.
                let (a, d, p, q) = h in
                (Ensures-ok (λ n. n ≤ 15) (number_field 15 v) (number_field-le 15 v) e, d, p, q))
              λ _.
                if-either (Ensures InRange) (bytes_eq name debug_name)
                  (λ _. >>=-Ensures InRange (number_field 1 v) _ λ n e.
                    let (a, d, p, q) = h in
                    (a, Ensures-ok (λ n. n ≤ 1) (number_field 1 v) (number_field-le 1 v) e, p, q))
                  λ _. tt

validated-IsValid : (s : CoreSettings) → InRange s → Ensures IsValid (validated s)
validated-IsValid s h = throw_if-Ensures IsValid (same_triggers s) _ _ λ e. (h, e)

-- What SetField gives, given to a rest that keeps a property of the result
set_field-then :
    (P : CoreSettings → Type 0) (name v : Bytes) (s : CoreSettings)
    (f : CoreSettings → Result ConfigError CoreSettings)
    → InRange s
    → ((s' : CoreSettings) → InRange s' → Ensures P (f s'))
    → Ensures P (set_field name v s >>= f)
set_field-then P name v s f h rest =
    >>=-Ensures P (set_field name v s) f
      λ s' e. rest s' (Ensures-ok InRange (set_field name v s) (set_field-InRange name v s h) e)

-- Set gives settings that are in range and whose triggers differ, or throws, whatever the name and
-- the value, from settings in range.
pub set_value-IsValid :
    (name v : Bytes) (s : CoreSettings) → InRange s → Ensures IsValid (set_value name v s)
unfolding set_value
set_value-IsValid name v s h = set_field-then IsValid name v s validated h validated-IsValid

-- SetAll gives settings that are in range and whose triggers differ, or throws, whatever the values,
-- from settings in range.
pub set_all-IsValid :
    (a p q d : Bytes) (s : CoreSettings) → InRange s → Ensures IsValid (set_all a p q d s)
unfolding set_all
set_all-IsValid a p q d s h = set_field-then IsValid show_activity_name a s _ h λ s1 h1.
    set_field-then IsValid public_trigger_name p s1 _ h1 λ s2 h2.
      set_field-then IsValid silent_trigger_name q s2 _ h2
        λ s3 h3. set_field-then IsValid debug_name d s3 validated h3 validated-IsValid

read_line-InRange :
    (line : Bytes) (s : CoreSettings) → InRange s → Ensures InRange (read_line line s)
unfolding read_line
read_line-InRange line s h = >>=-Ensures InRange (parse_line line) _ λ words e. go words
  where
    go :
        (words : List Bytes)
        → Ensures InRange (elim words [ name ∷ v ∷ rest ↦ set_field name v s | _ ↦ ok s ])
    go [] = h
    go (name ∷ []) = h
    go (name ∷ v ∷ rest) = set_field-InRange name v s h

at_line-Ensures :
    (P : CoreSettings → Type 0) (number : ℕ) (r : Result ConfigError CoreSettings)
    → Ensures P r
    → Ensures P (at_line number r)
at_line-Ensures P number (ok s) h = h
at_line-Ensures P number (err e) h = tt

read_lines-InRange :
    (number : ℕ) (lines : List Bytes) (s : CoreSettings)
    → InRange s
    → Ensures InRange (read_lines number lines s)
unfolding read_lines
read_lines-InRange number [] s h = h
read_lines-InRange number (line ∷ rest) s h =
    >>=-Ensures InRange (at_line (number + 1) (read_line line s)) _ λ s' e.
      read_lines-InRange (number + 1) rest s' (
        Ensures-ok InRange (at_line (number + 1) (read_line line s))
          (at_line-Ensures InRange (number + 1) (read_line line s) (read_line-InRange line s h)) e)

-- Read gives valid settings from valid ones, whatever the file holds: numbers in range, triggers of at
-- most 8 allowed bytes, and not the same trigger twice, though both may be empty.
pub read-IsValid :
    (file : ConfigFile) (s : CoreSettings) → IsValid s → Ensures IsValid (read file s)
unfolding read
read-IsValid ConfigFile.absent s h = h
read-IsValid ConfigFile.too_large s h = tt
read-IsValid ConfigFile.unreadable s h = tt
read-IsValid (ConfigFile.holding source) s h =
    if-either (Ensures IsValid) (ltb 65536 (length source)) (λ _. tt)
      λ _. >>=-Ensures IsValid (read_lines 0 (get_lines source) s) _ λ s' e.
        at_line-Ensures IsValid 0 (validated s') (
          validated-IsValid s' (
            Ensures-ok InRange (read_lines 0 (get_lines source) s)
              (read_lines-InRange 0 (get_lines source) s h.0) e))
