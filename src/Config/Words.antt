-- ===== src/Config/Words.antt =====
-- src/config.cpp, CoreSettings::ParseLine: it always answers, and reads a printed setting back.
use source2root.Base.{
  ℕ, zero, suc, ◌+◌, ◌≤◌, ◌<◌, ◌≡◌, ◌≢◌, refl, arith, ap, ◌∙◌, ◌&&◌, ◌||◌, Bool, true, false, not,
  List, [], ◌∷◌, ◌++◌, Result, ok, err, ◌>>=◌, ◌>>◌, throw_if, ltb, ◌==◌, length, if-either,
  length-append, ltb-false→le, le→ltb-false, All,
}
use mathlib.Core.List.{append_assoc, append-nil}
use source2root.Base.Text.{Bytes}
use source2root.Config.Line.{
  ConfigError, is_blank, skip_blanks, at_comment, word_bytes, at_gap, one_word, word_at, at_word,
  word_rounds, parse_line,
}

abbrev IsReported : ConfigError → Type 0
IsReported ConfigError.out_of_rounds = ⊥
IsReported _ = Unit

abbrev Answers {ℓ} : {A : Type ℓ} → Result ConfigError A → Type 0
Answers (ok a) = Unit
Answers (err e) = IsReported e

throw_if-Answers {ℓ} :
    {A : Type ℓ} (b : Bool) (e : ConfigError) (m : Result ConfigError A)
    → IsReported e
    → (b ≡ false → Answers m)
    → Answers (throw_if b e >> m)
throw_if-Answers true e m h k = h
throw_if-Answers false e m h k = k refl

word_bytes-Answers : (quoted : Bool) (word text : Bytes) → Answers (word_bytes quoted word text)
unfolding word_bytes
word_bytes-Answers quoted word [] = tt
word_bytes-Answers quoted word (c ∷ r) =
    if-either Answers (quoted && c == b'"') (λ _. tt)
      λ _.
        if-either Answers (not quoted && (is_blank c || at_comment (c ∷ r))) (λ _. tt)
          λ _.
            if-either Answers (c == b';' || ltb c 32 || c == b'"') (λ _. tt)
              λ _. word_bytes-Answers quoted (word ++ c ∷ []) r

-- A failure of the first step is the failure of the chain.
Answers-chain {ℓ κ} :
    {A : Type ℓ} {B : Type κ} (m : Result ConfigError A) (f : A → Result ConfigError B)
    → Answers m
    → ((a : A) → Answers (f a))
    → Answers (m >>= f)
Answers-chain (ok a) f h k = k a
Answers-chain (err e) f h k = h

one_word-Answers : (quoted : Bool) (text : Bytes) → Answers (one_word quoted text)
unfolding one_word
one_word-Answers quoted text =
    Answers-chain (word_bytes quoted [] text) _ (word_bytes-Answers quoted [] text)
      λ (word, closed, rest).
        throw_if-Answers (not closed) _ _ tt
          λ _. throw_if-Answers (quoted && not (at_gap rest)) _ _ tt λ _. tt

word_at-Answers : (c : ℕ) (r : Bytes) → Answers (word_at c r)
unfolding word_at
word_at-Answers c r =
    if-either Answers (c == b'"') (λ _. one_word-Answers true r)
      (λ _. one_word-Answers false (c ∷ r))

at_word-Answers :
    (again : List Bytes → Bytes → Result ConfigError (List Bytes)) (words : List Bytes)
    (text : Bytes)
    → (length words + 1 ≤ 2 → (word rest : Bytes) → Answers (again (words ++ word ∷ []) rest))
    → Answers (at_word again words text)
at_word-Answers again words [] h = tt
at_word-Answers again words (c ∷ r) h =
    if-either Answers (at_comment (c ∷ r)) (λ _. tt)
      λ _. Answers-chain (word_at c r) _ (word_at-Answers c r) λ (word, rest).
        throw_if-Answers (ltb 2 (length words + 1)) _ _ tt
          λ few. h (ltb-false→le 2 (length words + 1) few) word rest

word_rounds-Answers :
    (f : ℕ) (words : List Bytes) (text : Bytes)
    → 3 ≤ f + length words
    → length words ≤ 2
    → Answers (word_rounds f words text)
unfolding word_rounds
word_rounds-Answers zero words text h k = absurd (omega arith)
word_rounds-Answers (suc f) words text h k =
    at_word-Answers (word_rounds f) words (skip_blanks text) λ few word rest.
      let longer = length-append words (word ∷ []) in
      word_rounds-Answers f (words ++ word ∷ []) rest (omega (arith, longer))
        (omega (arith, longer))

parse_line-Answers : (line : Bytes) → Answers (parse_line line)
unfolding parse_line
parse_line-Answers line =
    Answers-chain (word_rounds 3 [] line) _
      (word_rounds-Answers 3 [] line (omega arith) (omega arith))
      λ words. throw_if-Answers (not (length words == 0) && not (length words == 2)) _ _ tt λ _. tt

-- ParseLine always answers: three rounds are enough for every line.
pub parse_line_total : (line : Bytes) → parse_line line ≢ err ConfigError.out_of_rounds
parse_line_total line h = rw h at (parse_line-Answers line)

-- A byte of a name: above 32, and no quote, semicolon or slash
abbrev pub IsNameByte : ℕ → Type 0
IsNameByte c = (32 < c) × (c ≢ b'"') × (c ≢ b';') × (c ≢ b'/')

abbrev pub IsValueByte : ℕ → Type 0
IsValueByte c = (32 ≤ c) × (c ≢ b'"') × (c ≢ b';')

at_comment-slash : (c : ℕ) (r : Bytes) → c ≢ b'/' → at_comment (c ∷ r) ≡ false
unfolding at_comment
at_comment-slash c [] h = refl
at_comment-slash c (d ∷ r) h = ground arith

word_bytes-bare :
    (word name rest : Bytes)
    → All IsNameByte name
    → word_bytes false word (name ++ 32 ∷ rest) ≡ ok (word ++ name, true, 32 ∷ rest)
unfolding word_bytes
word_bytes-bare word [] rest h = rw (append-nil word) refl
word_bytes-bare word (c ∷ r) rest h =
    let plain : is_blank c ≡ false = ground arith in
    let allowed : (c == b';' || ltb c 32 || c == b'"') ≡ false = ground arith in
    rw (plain, at_comment-slash c (r ++ 32 ∷ rest) h.0.3, allowed)
      (word_bytes-bare (word ++ c ∷ []) r rest h.1
        ∙ ap (λ w. ok (w, true, 32 ∷ rest)) (append_assoc word (c ∷ []) r))

word_bytes-quoted :
    (word value rest : Bytes)
    → All IsValueByte value
    → word_bytes true word (value ++ b'"' ∷ rest) ≡ ok (word ++ value, true, rest)
unfolding word_bytes
word_bytes-quoted word [] rest h = rw (append-nil word) refl
word_bytes-quoted word (c ∷ r) rest h =
    let allowed : (c == b';' || ltb c 32 || c == b'"') ≡ false = ground arith in
    let quote : (c == b'"') ≡ false = ground arith in
    rw (allowed, quote)
      (word_bytes-quoted (word ++ c ∷ []) r rest h.1
        ∙ ap (λ w. ok (w, true, rest)) (append_assoc word (c ∷ []) r))

word_at-name :
    (c : ℕ) (name rest : Bytes)
    → All IsNameByte (c ∷ name)
    → word_at c (name ++ 32 ∷ rest) ≡ ok (c ∷ name, 32 ∷ rest)
unfolding word_at one_word
word_at-name c name rest h =
    let bare : (c == b'"') ≡ false = ground arith in
    rw (bare, word_bytes-bare [] (c ∷ name) rest h) refl

word_at-value :
    (value : Bytes) → All IsValueByte value → word_at b'"' (value ++ b'"' ∷ []) ≡ ok (value, [])
unfolding word_at one_word at_gap
word_at-value value h = rw (word_bytes-quoted [] value [] h) refl

name_begins : (c : ℕ) (r : Bytes) → IsNameByte c → skip_blanks (c ∷ r) ≡ c ∷ r
unfolding skip_blanks
name_begins c r h = let plain : is_blank c ≡ false = ground arith in rw plain

round-word :
    (f : ℕ) (words : List Bytes) (text word rest : Bytes) (c : ℕ) (r : Bytes)
    → skip_blanks text ≡ c ∷ r
    → at_comment (c ∷ r) ≡ false
    → word_at c r ≡ ok (word, rest)
    → length words ≤ 1
    → word_rounds (suc f) words text ≡ word_rounds f (words ++ word ∷ []) rest
unfolding word_rounds
round-word f words text word rest c r e n w h =
    rw (e, n, w, le→ltb-false 2 (length words + 1) (omega arith))

blank_skipped : (r : Bytes) → skip_blanks (32 ∷ b'"' ∷ r) ≡ b'"' ∷ r
unfolding skip_blanks
blank_skipped r = refl

word_rounds-nil : (f : ℕ) (words : List Bytes) → word_rounds (suc f) words [] ≡ ok words
unfolding word_rounds skip_blanks
word_rounds-nil f words = refl

-- A name of one byte or more, all above 32 and no quote, semicolon or slash, then a space and a value
-- in quotes, without quotes, semicolons and bytes below 32, are read as these two words.
pub parse_line-printed :
    (c : ℕ) (name value : Bytes)
    → All IsNameByte (c ∷ name)
    → All IsValueByte value
    → parse_line ((c ∷ name) ++ 32 ∷ b'"' ∷ (value ++ b'"' ∷ [])) ≡ ok ((c ∷ name) ∷ value ∷ [])
unfolding parse_line
parse_line-printed c name value h k = rw words_read refl
  where
    quoted_value : Bytes
    quoted_value = b'"' ∷ (value ++ b'"' ∷ [])

    first :
        word_rounds 3 [] (c ∷ (name ++ 32 ∷ quoted_value))
        ≡ word_rounds 2 ((c ∷ name) ∷ []) (32 ∷ quoted_value)
    first =
        round-word 2 [] (c ∷ (name ++ 32 ∷ quoted_value)) (c ∷ name) (32 ∷ quoted_value) c
          (name ++ 32 ∷ quoted_value) (name_begins c (name ++ 32 ∷ quoted_value) h.0)
          (at_comment-slash c (name ++ 32 ∷ quoted_value) h.0.3)
          (word_at-name c name quoted_value h) (omega arith)

    second :
        word_rounds 2 ((c ∷ name) ∷ []) (32 ∷ quoted_value)
        ≡ word_rounds 1 ((c ∷ name) ∷ value ∷ []) []
    second =
        round-word 1 ((c ∷ name) ∷ []) (32 ∷ quoted_value) value [] b'"' (value ++ b'"' ∷ [])
          (blank_skipped (value ++ b'"' ∷ []))
          (at_comment-slash b'"' (value ++ b'"' ∷ []) (λ e. absurd (omega arith)))
          (word_at-value value k) (omega arith)

    words_read : word_rounds 3 [] (c ∷ (name ++ 32 ∷ quoted_value)) ≡ ok ((c ∷ name) ∷ value ∷ [])
    words_read = first ∙ second ∙ word_rounds-nil 0 ((c ∷ name) ∷ value ∷ [])
