-- ===== src/Arguments.antt =====
-- src/text.cpp: the arguments of a command's text, and what scripts read of them.
pub mod Bounds
pub mod Quote
pub mod Numbers
mod Tests
use source2root.Base.{
  ℕ, zero, suc, ◌+◌, ◌&&◌, ◌||◌, Bool, true, false, not, Option, none, some, List, [], ◌∷◌, ◌++◌,
  Result, ok, err, ◌>>=◌, ◌>>◌, throw_if, if◌then◌else◌, ltb, leb, ◌==◌, length, any, drop,
}
use source2root.Base.Text.{Bytes, is_control, ℤ, pos, negsuc, int_le, from_chars_int}

pub data TextError : Type 0 where
  bad_syntax too_many misplaced_quote too_long unterminated out_of_rounds : TextError
  out_of_range buffer_too_small invalid_bounds expected_integer : TextError

unfoldable pub skip_spaces : Bytes → Bytes
skip_spaces [] = []
skip_spaces (c ∷ r) = let rest = skip_spaces r in if c == 32 then rest else c ∷ r

-- At the end, or at a space
abbrev pub at_space : Bytes → Bool
at_space [] = true
at_space (c ∷ r) = c == 32

-- token += c, with the bytes after it; the token has at most 256 bytes.
abbrev pub pushed :
    Bytes → Result TextError (Bytes × Bool × Bytes) → Result TextError (Bytes × Bool × Bytes)
pushed token rest = if ltb 256 (length token) then err TextError.too_long else rest

-- The loop over one argument: its bytes, whether it was closed, and the text after it.
unfoldable pub token_bytes : Bool → Bytes → Bytes → Result TextError (Bytes × Bool × Bytes)
token_bytes quoted token [] = ok (token, not quoted, [])
token_bytes quoted token (c ∷ []) =
    if c == b'"'
    then (if not quoted then err TextError.misplaced_quote else ok (token, true, []))
    else if not quoted && c == 32
    then ok (token, true, [])
    else pushed (token ++ c ∷ []) (ok (token ++ c ∷ [], not quoted, []))
token_bytes quoted token (c ∷ d ∷ r) =
    let escaped = pushed (token ++ d ∷ []) (token_bytes quoted (token ++ d ∷ []) r) in
    let plain = pushed (token ++ c ∷ []) (token_bytes quoted (token ++ c ∷ []) (d ∷ r)) in
    if c == b'"'
    then (if not quoted || not (d == 32)
        then err TextError.misplaced_quote
        else ok (token, true, d ∷ r))
    else if not quoted && c == 32
    then ok (token, true, d ∷ r)
    else if c == b'\\' && (d == b'\\' || d == b'"')
    then escaped
    else plain

-- One argument that begins here, and the text after it
unfoldable pub one_argument : ℕ → Bytes → Result TextError (Bytes × Bytes)
one_argument c r = do
  (token, closed, rest) ← if c == b'"' then token_bytes true [] r else token_bytes false [] (c ∷ r)
  throw_if (not closed) TextError.unterminated
  ok (token, rest)

-- One round behind the spaces: the end, or an argument and the rounds `again`
abbrev pub at_argument :
    (List Bytes → Bytes → Result TextError (List Bytes))
    → List Bytes
    → Bytes
    → Result TextError (List Bytes)
at_argument again result [] = ok result
at_argument again result (c ∷ r) = do
  throw_if (length result == 32) TextError.too_many
  (token, rest) ← one_argument c r
  again (result ++ token ∷ []) rest

-- The outer loop, an argument a round; the 33rd throws, so 33 rounds are enough.
unfoldable pub argument_rounds : ℕ → List Bytes → Bytes → Result TextError (List Bytes)
argument_rounds zero result text = err TextError.out_of_rounds
argument_rounds (suc f) result text = at_argument (argument_rounds f) result (skip_spaces text)

-- ParseArguments
unfoldable pub parse_arguments : Bytes → Result TextError (List Bytes)
parse_arguments text = do
  throw_if (ltb 1024 (length text) || any (λ c. is_control c || c == b';') text)
      TextError.bad_syntax
  argument_rounds 33 [] text

-- The arguments with a space between two
abbrev pub join : List Bytes → Bytes
join [] = []
join (a ∷ []) = a
join (a ∷ b ∷ r) = a ++ (32 ∷ join (b ∷ r))

abbrev pub first : List Bytes → Bytes
first [] = []
first (a ∷ r) = a

-- GetArgument and GetRemainingArguments (`remaining`), on a buffer of `capacity` bytes
unfoldable pub bind_argument : Bool → Bytes → ℤ → ℕ → Result TextError Bytes
bind_argument remaining text (negsuc n) capacity = do
  values ← parse_arguments text
  err TextError.out_of_range
bind_argument remaining text (pos index) capacity = do
  values ← parse_arguments text
  throw_if (ltb (length values) index || (not remaining && index == length values))
      TextError.out_of_range
  (let output = if remaining then join (drop index values) else first (drop index values) in
      if leb capacity (length output) then err TextError.buffer_too_small else ok output)

abbrev pub whole_int : Option (ℤ × Bytes) → Option ℤ
whole_int none = none
whole_int (some (v, [])) = some v
whole_int (some (v, c ∷ r)) = none

abbrev pub in_bounds : ℤ → ℤ → Option ℤ → Result TextError ℤ
in_bounds low high none = err TextError.expected_integer
in_bounds low high (some v) =
    if int_le low v && int_le v high then ok v else err TextError.expected_integer

-- ParseInt
unfoldable pub parse_int : Bytes → ℤ → ℤ → Result TextError ℤ
parse_int text low high = do
  throw_if (not (int_le low high)) TextError.invalid_bounds
  in_bounds low high (whole_int (from_chars_int text))
