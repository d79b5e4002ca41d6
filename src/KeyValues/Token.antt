-- ===== src/KeyValues/Token.antt =====
-- src/keyvalues.cpp: Token takes at least one byte, and reads back a quoted text.
use mathlib.Core.List.{append_assoc}
use source2root.Base.{
  ℕ, suc, ◌+◌, ◌≤◌, ◌<◌, ◌≡◌, refl, inl, inr, ◌||◌, Bool, true, false, not, [], ◌∷◌, ◌++◌, arith,
  Result, ok, err, some, none, Option-cases, length, All, ◌==◌, if◌then◌else◌, if-either, is_nil,
  lt→leb-false, ==_iff, Result-cases, ◌>>=◌,
}
use source2root.Base.Text.{Bytes, is_control}
use source2root.KeyValues.{
  Failure, quoted, bare, ends_bare, push, token, escaped, unsupported_escape, expected_token,
}
use source2root.KeyValues.Space.{IsReported}

-- A token leaves less than it was given.
abbrev pub Taken : ℕ → Result Failure (Bytes × Bytes) → Type 0
Taken n (ok done) = length done.1 ≤ n
Taken n (err f) = IsReported f.0

push-Taken :
    (c n m : ℕ) (rest : Bytes) (more : Result Failure (Bytes × Bytes))
    → Taken m more
    → Taken m (push c n rest more)
push-Taken c n m rest (ok done) h = ground arith
push-Taken c n m rest (err f) h = ground arith

quoted-Taken : (n m : ℕ) (r : Bytes) → length r ≤ suc m → Taken m (quoted n r)
unfolding quoted
quoted-Taken n m [] h = tt
quoted-Taken n m (c ∷ []) h = ground arith
quoted-Taken n m (c ∷ d ∷ r) h =
    if-either (Taken m) (c == b'"') (λ _. omega arith)
      (λ _.
        if-either (Taken m) (is_control c) (λ _. tt)
          (λ _.
            if-either (Taken m) (c == b'\\') (λ _. letter (quoted-Taken (n + 1) m r (omega arith)))
              (λ _. push-Taken c n m (d ∷ r) _ (quoted-Taken (n + 1) m (d ∷ r) (omega arith)))))
  where
    letter :
        Taken m (quoted (n + 1) r)
        → Taken m (elim (escaped d) as (λ _. Result Failure (Bytes × Bytes)) [
          | none ↦ err (unsupported_escape, r)
          | some e ↦ push e n r (quoted (n + 1) r)
        ])
    letter rec = elim (Option-cases (escaped d)) [
      | inl e ↦ rw e tt
      | inr (b, e) ↦ rw e (push-Taken b n m r _ rec)
    ]

bare-Taken : (n m : ℕ) (r : Bytes) → length r ≤ m → Taken m (bare n r)
unfolding bare
bare-Taken n m [] h = omega arith
bare-Taken n m (c ∷ r) h =
    if-either (Taken m) (ends_bare (c ∷ r)) (λ _. h)
      (λ _.
        if-either (Taken m) (is_control c || c == b'"') (λ _. tt)
          (λ _. push-Taken c n m r _ (bare-Taken (n + 1) m r (omega arith))))

-- A nonempty unquoted text has taken its bytes.
bare-nonempty :
    (n m : ℕ) (r : Bytes) {t rest : Bytes}
    → length r ≤ suc m
    → bare n r ≡ ok (t, rest)
    → is_nil t ≡ false
    → length rest ≤ m
unfolding bare
bare-nonempty n m [] h e k = ground arith
bare-nonempty n m (c ∷ r) {t} {rest} h e k = elim (Result-cases (bare (n + 1) r)) [
  | inr (f, q) ↦ absurd (ground arith)
  | inl ((t', rest'), q) ↦
      let less : length rest' ≤ m = rw q at (bare-Taken (n + 1) m r (omega arith)) in ground arith
]

pub token-Taken : (m : ℕ) (r : Bytes) → length r ≤ suc m → Taken m (token r)
unfolding token
token-Taken m [] h = tt
token-Taken m (c ∷ r) h =
    if-either (Taken m) (c == b'{' || c == b'}') (λ _. tt)
      (λ _. if-either (Taken m) (c == b'"') (λ _. quoted-Taken 0 m r (omega arith)) (λ _. unquoted))
  where
    unquoted : Taken m (
        bare 0 (c ∷ r) >>= λ done.
        if is_nil done.0 then err (expected_token, done.1) else ok (done.0, done.1))
    unquoted = elim (Result-cases (bare 0 (c ∷ r))) [
      | inr (f, q) ↦
          let reported : IsReported f.0 = rw q at (bare-Taken 0 (suc m) (c ∷ r) h) in rw q reported
      | inl ((t, rest), q) ↦
          rw q (if-either (Taken m) (is_nil t) (λ _. tt) (λ k. bare-nonempty 0 m (c ∷ r) h q k))
    ]

-- The reference: a text between quotes, with backslashes where the reader needs them.
unfoldable pub escape : Bytes → Bytes
escape [] = []
escape (c ∷ r) =
    let rest = escape r in
    if c == b'"' || c == b'\\'
    then b'\\' ∷ c ∷ rest
    else if c == 10
    then b'\\' ∷ b'n' ∷ rest
    else if c == 13
    then b'\\' ∷ b'r' ∷ rest
    else if c == 9
    then b'\\' ∷ b't' ∷ rest
    else c ∷ rest

abbrev pub is_text : ℕ → Bool
is_text c = not (is_control c) || c == 9 || c == 10 || c == 13

quoted-byte :
    (n c : ℕ) (t : Bytes) {w rest : Bytes}
    → n < 4096
    → (c == b'"') ≡ false
    → is_control c ≡ false
    → (c == b'\\') ≡ false
    → quoted (n + 1) t ≡ ok (w, rest)
    → quoted n (c ∷ t) ≡ ok (c ∷ w, rest)
unfolding quoted
quoted-byte n c [] h q k b e = cc
quoted-byte n c (d ∷ t) h q k b e = rw (q, k, b, lt→leb-false 4096 n h, e)

quoted-letter :
    (n d b : ℕ) (t : Bytes) {w rest : Bytes}
    → n < 4096
    → escaped d ≡ some b
    → quoted (n + 1) t ≡ ok (w, rest)
    → quoted n (b'\\' ∷ d ∷ t) ≡ ok (b ∷ w, rest)
unfolding quoted
quoted-letter n d b t h e q = rw (e, lt→leb-false 4096 n h, q)

quoted-escape :
    (n : ℕ) (w rest : Bytes)
    → n + length w ≤ 4096
    → All (λ c. is_text c ≡ true) w
    → quoted n (escape w ++ b'"' ∷ rest) ≡ ok (w, rest)
unfolding quoted escape escaped
quoted-escape n [] [] h t = refl
quoted-escape n [] (d ∷ rest) h t = refl
quoted-escape n (c ∷ w) rest h t =
    let later = quoted-escape (n + 1) w rest (omega arith) t.1 in
    let Reads : Bytes → Type 0 = λ x. quoted n (x ++ b'"' ∷ rest) ≡ ok (c ∷ w, rest) in
    if-either Reads (c == b'"' || c == b'\\')
      (λ q. quoted-letter n c c _ (omega arith) (ground arith) later)
      (λ q.
        if-either Reads (c == 10)
          (λ e. rw ((==_iff c 10).0 e) (quoted-letter n b'n' 10 _ (omega arith) refl later))
          (λ k.
            if-either Reads (c == 13)
              (λ e. rw ((==_iff c 13).0 e) (quoted-letter n b'r' 13 _ (omega arith) refl later))
              (λ l.
                if-either Reads (c == 9)
                  (λ e. rw ((==_iff c 9).0 e) (quoted-letter n b't' 9 _ (omega arith) refl later))
                  (λ m.
                    quoted-byte n c _ (omega arith) (ground arith) (ground (arith, t.0))
                      (ground arith) later))))

-- A printed token is read back, with what follows it left over.
unfoldable pub quote : Bytes → Bytes
quote w = b'"' ∷ escape w ++ b'"' ∷ []

pub token-quote :
    (w rest : Bytes)
    → length w ≤ 4096
    → All (λ c. is_text c ≡ true) w
    → token (quote w ++ rest) ≡ ok (w, rest)
unfolding token quote
token-quote w rest h t =
    rw (append_assoc (escape w) (b'"' ∷ []) rest) (quoted-escape 0 w rest (omega arith) t)
