-- ===== src/Arguments/Quote.antt =====
-- src/text.cpp, ParseArguments: quoted arguments are read back.
use source2root.Base.{
  ℕ, zero, suc, ◌+◌, ◌≤◌, ◌<◌, ◌≡◌, refl, ap, sym, ◌∙◌, inl, inr, arith, ◌||◌, Bool, true, false,
  List, [], ◌∷◌, ◌++◌, ok, if◌then◌else◌, ◌==◌, length, length-append, All, any, any-append,
  Bool-cases, le→ltb-false,
}
use mathlib.Core.List.{append_assoc, append-nil}
use source2root.Base.Text.{Bytes, is_control}
use source2root.Arguments.{
  skip_spaces, at_space, token_bytes, one_argument, argument_rounds, parse_arguments,
}

-- A backslash goes before each quote and backslash.
abbrev pub escape_quote : ℕ → Bytes
escape_quote c = if c == b'"' || c == b'\\' then b'\\' ∷ c ∷ [] else c ∷ []

abbrev pub escape_quotes : Bytes → Bytes
escape_quotes [] = []
escape_quotes (c ∷ r) = escape_quote c ++ escape_quotes r

-- The argument in quotes, and the text after it
abbrev pub quote : Bytes → Bytes → Bytes
quote a rest = b'"' ∷ (escape_quotes a ++ b'"' ∷ rest)

-- All the arguments in quotes, a space before each but the first
abbrev pub print_more : List Bytes → Bytes
print_more [] = []
print_more (a ∷ r) = 32 ∷ quote a (print_more r)

abbrev pub print_arguments : List Bytes → Bytes
print_arguments [] = []
print_arguments (a ∷ r) = quote a (print_more r)

token_bytes-end :
    (token rest : Bytes)
    → at_space rest ≡ true
    → token_bytes true token (b'"' ∷ rest) ≡ ok (token, true, rest)
unfolding token_bytes
token_bytes-end token [] h = refl
token_bytes-end token (d ∷ r) h = rw h

token_bytes-plain :
    (token : Bytes) (c : ℕ) (t : Bytes)
    → (c == b'"' || c == b'\\') ≡ false
    → length (token ++ c ∷ []) ≤ 256
    → token_bytes true token (c ∷ t) ≡ token_bytes true (token ++ c ∷ []) t
unfolding token_bytes
token_bytes-plain token c t h k = go t
  where
    not_quote : (c == b'"') ≡ false
    not_quote = ground arith

    not_backslash : (c == b'\\') ≡ false
    not_backslash = ground arith

    go : (t : Bytes) → token_bytes true token (c ∷ t) ≡ token_bytes true (token ++ c ∷ []) t
    go [] = rw (not_quote, le→ltb-false 256 (length (token ++ c ∷ [])) k)
    go (d ∷ r) = rw (not_quote, not_backslash, le→ltb-false 256 (length (token ++ c ∷ [])) k)

token_bytes-escaped :
    (token : Bytes) (c : ℕ) (r : Bytes)
    → (c == b'"' || c == b'\\') ≡ true
    → length (token ++ c ∷ []) ≤ 256
    → token_bytes true token (b'\\' ∷ c ∷ r) ≡ token_bytes true (token ++ c ∷ []) r
unfolding token_bytes
token_bytes-escaped token c r h k =
    let either : (c == b'\\' || c == b'"') ≡ true = ground arith in
    rw (either, le→ltb-false 256 (length (token ++ c ∷ [])) k)

token_bytes-escape :
    (token a rest : Bytes)
    → length token + length a ≤ 256
    → at_space rest ≡ true
    → token_bytes true token (escape_quotes a ++ b'"' ∷ rest) ≡ ok (token ++ a, true, rest)
token_bytes-escape token [] rest h s =
    token_bytes-end token rest s ∙ ap (λ t. ok (t, true, rest)) (sym (append-nil token))
token_bytes-escape token (c ∷ a) rest h s =
    let fits : length (token ++ c ∷ []) ≡ length token + 1 = length-append token (c ∷ []) in
    let tail =
      token_bytes-escape (token ++ c ∷ []) a rest (omega (arith, fits)) s
      ∙ ap (λ t. ok (t, true, rest)) (append_assoc token (c ∷ []) a) in
    elim (Bool-cases (c == b'"' || c == b'\\')) [
      | inl e ↦ rw e (
          token_bytes-escaped token c (escape_quotes a ++ b'"' ∷ rest) e (omega (arith, fits))
          ∙ tail)
      | inr e ↦ rw e (
          token_bytes-plain token c (escape_quotes a ++ b'"' ∷ rest) e (omega (arith, fits)) ∙ tail)
    ]

one_argument-quote :
    (a rest : Bytes)
    → length a ≤ 256
    → at_space rest ≡ true
    → one_argument b'"' (escape_quotes a ++ b'"' ∷ rest) ≡ ok (a, rest)
unfolding one_argument
one_argument-quote a rest h s = rw (token_bytes-escape [] a rest (omega arith) s) refl

-- One quoted argument takes one round.
round-quote :
    (f : ℕ) (result : List Bytes) (a rest text : Bytes)
    → skip_spaces text ≡ quote a rest
    → length a ≤ 256
    → at_space rest ≡ true
    → length result ≤ 31
    → argument_rounds (suc f) result text ≡ argument_rounds f (result ++ a ∷ []) rest
unfolding argument_rounds
round-quote f result a rest text e h s few =
    let room : (length result == 32) ≡ false = ground arith in
    rw (e, room, one_argument-quote a rest h s) refl

skip_spaces-quote : (a rest : Bytes) → skip_spaces (quote a rest) ≡ quote a rest
unfolding skip_spaces
skip_spaces-quote a rest = refl

skip_spaces-space : (t : Bytes) → skip_spaces (32 ∷ t) ≡ skip_spaces t
unfolding skip_spaces
skip_spaces-space t = refl

argument_rounds-end : (f : ℕ) (result : List Bytes) → argument_rounds (suc f) result [] ≡ ok result
unfolding argument_rounds skip_spaces
argument_rounds-end f result = refl

at_space-print_more : (args : List Bytes) → at_space (print_more args) ≡ true
at_space-print_more [] = refl
at_space-print_more (a ∷ r) = refl

argument_rounds-print :
    (f : ℕ) (result args : List Bytes)
    → length args < f
    → length result + length args ≤ 32
    → All (λ a. length a ≤ 256) args
    → argument_rounds f result (print_more args) ≡ ok (result ++ args)
argument_rounds-print zero result args h k fit = absurd (omega arith)
argument_rounds-print (suc f) result [] h k fit =
    argument_rounds-end f result ∙ ap ok (sym (append-nil result))
argument_rounds-print (suc f) result (a ∷ r) h k fit =
    let longer : length (result ++ a ∷ []) ≡ length result + 1 = length-append result (a ∷ []) in
    round-quote f result a (print_more r) (print_more (a ∷ r))
      (skip_spaces-space (quote a (print_more r)) ∙ skip_spaces-quote a (print_more r)) fit.0
      (at_space-print_more r) (omega arith)
    ∙ argument_rounds-print f (result ++ a ∷ []) r (omega arith) (omega (arith, longer)) fit.1
    ∙ ap ok (append_assoc result (a ∷ []) r)

abbrev pub is_refused : ℕ → Bool
is_refused c = is_control c || c == b';'

abbrev pub HasNone : Bytes → Type 0
HasNone t = any is_refused t ≡ false

escape_quotes-HasNone : (a : Bytes) → HasNone a → HasNone (escape_quotes a)
escape_quotes-HasNone [] h = refl
escape_quotes-HasNone (c ∷ r) h =
    rw (any-append is_refused (escape_quote c) (escape_quotes r))
      (ground (arith, escape_quotes-HasNone r))

quote-HasNone : (a rest : Bytes) → HasNone a → HasNone rest → HasNone (quote a rest)
quote-HasNone a rest h k =
    rw (any-append is_refused (escape_quotes a) (b'"' ∷ rest), escape_quotes-HasNone a h, k) refl

print_more-HasNone : (args : List Bytes) → All HasNone args → HasNone (print_more args)
print_more-HasNone [] h = refl
print_more-HasNone (a ∷ r) h = quote-HasNone a (print_more r) h.0 (print_more-HasNone r h.1)

print_arguments-HasNone : (args : List Bytes) → All HasNone args → HasNone (print_arguments args)
print_arguments-HasNone [] h = refl
print_arguments-HasNone (a ∷ r) h = quote-HasNone a (print_more r) h.0 (print_more-HasNone r h.1)

-- At most 32 arguments of at most 256 bytes without control characters and semicolons, in quotes and
-- with a space between two, are read back as they are, where the text has at most 1,024 bytes.
pub parse_arguments-print :
    (args : List Bytes)
    → length args ≤ 32
    → All (λ a. length a ≤ 256) args
    → All HasNone args
    → length (print_arguments args) ≤ 1024
    → parse_arguments (print_arguments args) ≡ ok args
unfolding parse_arguments
parse_arguments-print args h fit clean short =
    rw (le→ltb-false 1024 (length (print_arguments args)) short, print_arguments-HasNone args clean)
      (go args h fit)
  where
    go :
        (args : List Bytes)
        → length args ≤ 32
        → All (λ a. length a ≤ 256) args
        → argument_rounds 33 [] (print_arguments args) ≡ ok args
    go [] h fit = argument_rounds-end 32 []
    go (a ∷ r) h fit =
        round-quote 32 [] a (print_more r) (quote a (print_more r))
          (skip_spaces-quote a (print_more r)) fit.0 (at_space-print_more r) (omega arith)
        ∙ argument_rounds-print 32 (a ∷ []) r (omega arith) (omega arith) fit.1
