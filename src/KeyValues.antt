-- ===== src/KeyValues.antt =====
-- src/keyvalues.cpp: the reader of brace-structured configuration files. `position_` is the rest of
-- the source; a failure keeps the rest at which it arose, and its line is counted from there.
pub mod Token
pub mod Space
pub mod Rounds
pub mod Print
mod Tests
use source2root.Base.{
  ℕ, zero, suc, ◌+◌, ◌-◌, ◌*◌, ◌||◌, ◌&&◌, Bool, true, false, not, [], ◌∷◌, Result, ok, err, ◌>>=◌,
  ◌>>◌, if◌then◌else◌, ◌==◌, ltb, leb, length, take, drop, throw_if, Option, some, none, is_nil,
}
use source2root.Base.Text.{Bytes, codes, starts_with, is_control}

-- struct KeyValue: `object` tells which of `value` and `children` is used.
mutual
  pub data KeyValue : Type 0 where
    scalar : Bytes → Bytes → KeyValue
    object : Bytes → Entries → KeyValue

  pub data Entries : Type 0 where
    nil : Entries
    cons : KeyValue → Entries → Entries

abbrev pub name : KeyValue → Bytes
name (scalar n v) = n
name (object n es) = n

pub data Problem : Type 0 where
  nested_too_deeply unexpected_closing_brace empty_key too_many_entries no_value
        missing_closing_brace unterminated_comment expected_token invalid_character
        unterminated_escape unsupported_escape token_too_long unterminated_string out_of_fuel :
      Problem

abbrev pub Failure : Type 0
Failure = Problem × Bytes

abbrev pub is_space : ℕ → Bool
is_space c = c == b' ' || c == 9 || c == 13 || c == 10

-- The rest from the first newline on.
unfoldable pub line_end : Bytes → Bytes
line_end [] = []
line_end (c ∷ r) = let rest = line_end r in if c == 10 then c ∷ r else rest

-- The rest behind the first "*/".
unfoldable pub comment_end : Bytes → Option Bytes
comment_end [] = none
comment_end (c ∷ r) =
    let rest = comment_end r in
    if starts_with (codes "*/") (c ∷ r) then some (drop 2 (c ∷ r)) else rest

-- The rounds of Skip; [] is its result false.
unfoldable pub skip_rounds : ℕ → Bytes → Result Failure Bytes
skip_rounds zero r = err (out_of_fuel, r)
skip_rounds (suc f) [] = ok []
skip_rounds (suc f) (c ∷ r) =
    let next = skip_rounds f r in
    let after_line = skip_rounds f (line_end (c ∷ r)) in
    let after_comment : Result Failure Bytes = elim (comment_end (drop 2 (c ∷ r))) [
      | none ↦ err (unterminated_comment, c ∷ r)
      | some rest ↦ skip_rounds f rest
    ] in
    if is_space c
    then next
    else if starts_with (codes "//") (c ∷ r)
    then after_line
    else if starts_with (codes "/*") (c ∷ r)
    then after_comment
    else ok (c ∷ r)

-- Skip
unfoldable pub skip : Bytes → Result Failure Bytes
skip r = skip_rounds (suc (length r)) r

-- The byte that a letter behind a backslash stands for.
unfoldable pub escaped : ℕ → Option ℕ
escaped c =
    if c == b'n'
    then some 10
    else if c == b'r'
    then some 13
    else if c == b't'
    then some 9
    else if c == b'"' || c == b'\\'
    then some c
    else none

-- What is added to a token of `n` bytes so far, and the bound on the result.
abbrev push : ℕ → ℕ → Bytes → (Result Failure (Bytes × Bytes)) → Result Failure (Bytes × Bytes)
push c n rest more =
    if leb 4096 n then err (token_too_long, rest) else do (text, after) ← more; ok (c ∷ text, after)

-- The loop of Token inside quotes; `n` is text.size().
unfoldable pub quoted : ℕ → Bytes → Result Failure (Bytes × Bytes)
quoted n [] = err (unterminated_string, [])
quoted n (c ∷ []) =
    if c == b'"'
    then ok ([], [])
    else if is_control c
    then err (invalid_character, c ∷ [])
    else if c == b'\\'
    then err (unterminated_escape, [])
    else push c n [] (err (unterminated_string, []))
quoted n (c ∷ d ∷ r) =
    let plain = push c n (d ∷ r) (quoted (n + 1) (d ∷ r)) in
    let letter : Result Failure (Bytes × Bytes) = elim (escaped d) [
      | none ↦ err (unsupported_escape, r)
      | some e ↦ push e n r (quoted (n + 1) r)
    ] in
    if c == b'"'
    then ok ([], d ∷ r)
    else if is_control c
    then err (invalid_character, c ∷ d ∷ r)
    else if c == b'\\'
    then letter
    else plain

-- The end of an unquoted token.
abbrev ends_bare : Bytes → Bool
ends_bare [] = true
ends_bare (c ∷ r) =
    is_space c
    || c == b'{'
    || c == b'}'
    || starts_with (codes "//") (c ∷ r)
    || starts_with (codes "/*") (c ∷ r)

-- The loop of Token outside quotes.
unfoldable pub bare : ℕ → Bytes → Result Failure (Bytes × Bytes)
bare n [] = ok ([], [])
bare n (c ∷ r) =
    let more = push c n r (bare (n + 1) r) in
    if ends_bare (c ∷ r)
    then ok ([], c ∷ r)
    else if is_control c || c == b'"'
    then err (invalid_character, c ∷ r)
    else more

-- Token
unfoldable pub token : Bytes → Result Failure (Bytes × Bytes)
token [] = err (expected_token, [])
token (c ∷ r) =
    let unquoted : Result Failure (Bytes × Bytes) = do
      (text, rest) ← bare 0 (c ∷ r)
      if is_nil text then err (expected_token, rest) else ok (text, rest)
    in if c == b'{' || c == b'}'
      then err (expected_token, c ∷ r)
      else if c == b'"'
      then quoted 0 r
      else unquoted

abbrev pub Parsed : Type 0
Parsed = Result Failure (Entries × ℕ × Bytes)

-- An object's children, then the entries behind it. `deeper` and `same` are the calls of Parse for
-- the next depth and for the rest of this one, from the entry count and the position.
nested_entry : (ℕ → Bytes → Parsed) → (ℕ → Bytes → Parsed) → Bytes → ℕ → Bytes → Parsed
nested_entry deeper same key count r = do
  (children, inner, after) ← deeper count r
  (others, total, last) ← same inner after
  ok (cons (object key children) others, total, last)

plain_entry : (ℕ → Bytes → Parsed) → Bytes → ℕ → Bytes → Parsed
plain_entry same key count r = do
  (value, after) ← token r
  (others, total, last) ← same count after
  ok (cons (scalar key value) others, total, last)

-- One key and its value, in the loop of Parse.
unfoldable pub entry : (ℕ → Bytes → Parsed) → (ℕ → Bytes → Parsed) → ℕ → Bytes → Parsed
unfolding nested_entry plain_entry
entry deeper same count r = do
  (key, after_key) ← token r
  throw_if (is_nil key) (empty_key, after_key)
  throw_if (ltb 65536 (count + 1)) (too_many_entries, after_key)
  at_value ← skip after_key
  throw_if (is_nil at_value) (no_value, at_value)
  (if starts_with (codes "{") at_value
      then nested_entry deeper same key (count + 1) (drop 1 at_value)
      else plain_entry same key (count + 1) at_value)

-- Where Skip has stopped: the end, a closing brace, or an entry.
unfoldable pub at_rest : ℕ → ℕ → Parsed → Bytes → Parsed
at_rest depth count more [] =
    if depth == 0 then ok (nil, count, []) else err (missing_closing_brace, [])
at_rest depth count more (c ∷ r) =
    if c == b'}'
    then (if depth == 0 then err (unexpected_closing_brace, c ∷ r) else ok (nil, count, r))
    else more

-- Parse: `count` is entries_. One round is spent on each entry and on each level.
unfoldable pub parse_rounds : ℕ → ℕ → ℕ → Bytes → Parsed
parse_rounds zero depth count r = err (out_of_fuel, r)
parse_rounds (suc f) depth count r = do
  throw_if (ltb 16 depth) (nested_too_deeply, r)
  rest ← skip r
  at_rest depth count (entry (parse_rounds f (depth + 1)) (parse_rounds f depth) count rest) rest

-- The constructor of Parser skips a byte order mark.
abbrev without_mark : Bytes → Bytes
without_mark source = if starts_with (0xef ∷ 0xbb ∷ 0xbf ∷ []) source then drop 3 source else source

newlines : Bytes → ℕ
newlines [] = 0
newlines (c ∷ r) = let rest = newlines r in if c == 10 then rest + 1 else rest

-- The line that Error reports: one more than the newlines before the position.
pub line : Bytes → Bytes → ℕ
line source rest = 1 + newlines (take (length source - length rest) source)

pub data FileError : Type 0 where
  too_large : FileError
  at_line : ℕ → Problem → FileError

-- ReadKeyValues, once the file is read whole: Parser(source).Parse()
unfoldable pub read_key_values : Bytes → Result FileError Entries
read_key_values source =
    if ltb (1024 * 1024) (length source)
    then err too_large
    else elim (parse_rounds (suc (length source)) 0 0 (without_mark source)) [
      | ok (entries, _, _) ↦ ok entries
      | err (problem, rest) ↦ err (at_line (line source rest) problem)
    ]
