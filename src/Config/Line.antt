-- ===== src/Config/Line.antt =====
-- src/config.cpp, CoreSettings::ParseLine: a line of source2root.cfg as words.
use source2root.Base.{
  ℕ, zero, suc, ◌+◌, ◌&&◌, ◌||◌, Bool, true, false, not, List, [], ◌∷◌, ◌++◌, Result, ok, err,
  ◌>>=◌, ◌>>◌, throw_if, if◌then◌else◌, ltb, ◌==◌, length,
}
use source2root.Base.Text.{Bytes}

pub data ConfigError : Type 0 where
  unknown_setting trigger_length trigger_bytes not_in_range equal_triggers : ConfigError
  syntax unterminated space_expected expected_pair file out_of_rounds : ConfigError

-- ' ', '\t' or '\r'
abbrev pub is_blank : ℕ → Bool
is_blank c = c == 32 || c == 9 || c == 13

unfoldable pub skip_blanks : Bytes → Bytes
skip_blanks [] = []
skip_blanks (c ∷ r) = let rest = skip_blanks r in if is_blank c then rest else c ∷ r

-- line.compare(position, 2, "//") == 0
unfoldable pub at_comment : Bytes → Bool
at_comment [] = false
at_comment (c ∷ []) = false
at_comment (c ∷ d ∷ r) = c == b'/' && d == b'/'

-- The loop over one word: the word, whether it was closed, and the rest of the line.
unfoldable pub word_bytes : Bool → Bytes → Bytes → Result ConfigError (Bytes × Bool × Bytes)
word_bytes quoted word [] = ok (word, not quoted, [])
word_bytes quoted word (c ∷ r) =
    let rest = word_bytes quoted (word ++ c ∷ []) r in
    if quoted && c == b'"'
    then ok (word, true, r)
    else if not quoted && (is_blank c || at_comment (c ∷ r))
    then ok (word, true, c ∷ r)
    else if c == b';' || ltb c 32 || c == b'"'
    then err ConfigError.syntax
    else rest

-- What may follow a quoted value
unfoldable pub at_gap : Bytes → Bool
at_gap [] = true
at_gap (c ∷ r) = is_blank c || at_comment (c ∷ r)

unfoldable pub one_word : Bool → Bytes → Result ConfigError (Bytes × Bytes)
one_word quoted text = do
  (word, closed, rest) ← word_bytes quoted [] text
  throw_if (not closed) ConfigError.unterminated
  throw_if (quoted && not (at_gap rest)) ConfigError.space_expected
  ok (word, rest)

-- The word that begins here, quoted or bare
unfoldable pub word_at : ℕ → Bytes → Result ConfigError (Bytes × Bytes)
word_at c r = if c == b'"' then one_word true r else one_word false (c ∷ r)

-- One round where the blanks are skipped: the end, a comment, or a word and the rounds `again`.
abbrev pub at_word :
    (List Bytes → Bytes → Result ConfigError (List Bytes))
    → List Bytes
    → Bytes
    → Result ConfigError (List Bytes)
at_word again words [] = ok words
at_word again words (c ∷ r) = if at_comment (c ∷ r) then ok words else do
  (word, rest) ← word_at c r
  throw_if (ltb 2 (length words + 1)) ConfigError.expected_pair
  again (words ++ word ∷ []) rest

-- The outer loop, a word a round; a third word throws, so three rounds are enough.
unfoldable pub word_rounds : ℕ → List Bytes → Bytes → Result ConfigError (List Bytes)
word_rounds zero words text = err ConfigError.out_of_rounds
word_rounds (suc f) words text = at_word (word_rounds f) words (skip_blanks text)

-- CoreSettings::ParseLine
unfoldable pub parse_line : Bytes → Result ConfigError (List Bytes)
parse_line line = do
  words ← word_rounds 3 [] line
  throw_if (not (length words == 0) && not (length words == 2)) ConfigError.expected_pair
  ok words

-- std::getline until the end: a last line without its newline counts where it is not empty.
unfoldable pub lines_from : Bytes → Bytes → List Bytes
lines_from line [] = if length line == 0 then [] else line ∷ []
lines_from line (c ∷ r) =
    let next = lines_from [] r in
    let longer = lines_from (line ++ c ∷ []) r in if c == 10 then line ∷ next else longer

abbrev pub get_lines : Bytes → List Bytes
get_lines source = lines_from [] source
