-- ===== src/KeyValues/Space.antt =====
-- src/keyvalues.cpp: Skip ends, and stops at once at a quote or a brace.
use source2root.Base.{
  ℕ, zero, suc, ◌≤◌, ◌<◌, ◌≡◌, inl, inr, true, false, [], ◌∷◌, arith, Result, ok, err, some, none,
  Option-cases, length, drop, ◌==◌, if-either,
}
use source2root.Base.Text.{Bytes, codes, starts_with}
use source2root.KeyValues.{
  Problem, Failure, out_of_fuel, unterminated_comment, line_end, comment_end, is_space, skip,
  skip_rounds,
}

-- A problem other than the model's own.
abbrev pub IsReported : Problem → Type 0
IsReported out_of_fuel = ⊥
IsReported _ = Unit

length-line_end : (r : Bytes) → length (line_end r) ≤ length r
unfolding line_end
length-line_end [] = omega arith
length-line_end (c ∷ r) = ground (arith, length-line_end r)

line_end-cons :
    (c : ℕ) (r : Bytes) → starts_with (codes "//") (c ∷ r) ≡ true → line_end (c ∷ r) ≡ line_end r
unfolding line_end starts_with
line_end-cons c r h = ground arith

pub length-drop-le : (n : ℕ) (r : Bytes) → length (drop n r) ≤ length r
length-drop-le zero r = omega arith
length-drop-le (suc n) [] = omega arith
length-drop-le (suc n) (c ∷ r) = omega (arith, length-drop-le n r)

length-comment_end : (r rest : Bytes) → comment_end r ≡ some rest → length rest ≤ length r
unfolding comment_end
length-comment_end [] rest h = cc
length-comment_end (c ∷ r) rest h =
    ground (arith, length-comment_end r rest, length-drop-le 2 (c ∷ r))

-- The text does not grow, and no failure is a lack of rounds.
abbrev pub Shorter : ℕ → Result Failure Bytes → Type 0
Shorter n (ok rest) = length rest ≤ n
Shorter n (err f) = IsReported f.0

skip_rounds-Shorter :
    (f n : ℕ) (r : Bytes) → length r < f → length r ≤ n → Shorter n (skip_rounds f r)
unfolding skip_rounds
skip_rounds-Shorter zero n r h k = absurd (omega arith)
skip_rounds-Shorter (suc f) n [] h k = omega arith
skip_rounds-Shorter (suc f) n (c ∷ r) h k =
    if-either (Shorter n) (is_space c) (λ _. skip_rounds-Shorter f n r (omega arith) (omega arith))
      (λ _.
        if-either (Shorter n) (starts_with (codes "//") (c ∷ r))
          (line_case (skip_rounds-Shorter f n))
          (λ _.
            if-either (Shorter n) (starts_with (codes "/*") (c ∷ r))
              (λ _. comment_case (skip_rounds-Shorter f n)) (λ _. k)))
  where
    Calls : Type 0
    Calls = (rest : Bytes) → length rest < f → length rest ≤ n → Shorter n (skip_rounds f rest)

    line_case :
        Calls
        → starts_with (codes "//") (c ∷ r) ≡ true
        → Shorter n (skip_rounds f (line_end (c ∷ r)))
    line_case rec slash =
        rw (line_end-cons c r slash)
          (rec (line_end r) (omega (arith, length-line_end r)) (omega (arith, length-line_end r)))

    comment_case :
        Calls
        → Shorter n (elim (comment_end (drop 2 (c ∷ r))) as (λ _. Result Failure Bytes) [
          | none ↦ err (unterminated_comment, c ∷ r)
          | some rest ↦ skip_rounds f rest
        ])
    comment_case rec = elim (Option-cases (comment_end (drop 1 r))) [
      | inl e ↦ rw e tt
      | inr (rest, e) ↦
          let less : length rest ≤ length r =
            omega (arith, length-comment_end (drop 1 r) rest e, length-drop-le 1 r) in
          rw e (rec rest (omega arith) (omega arith))
    ]

pub skip-Shorter : (r : Bytes) → Shorter (length r) (skip r)
unfolding skip
skip-Shorter r = skip_rounds-Shorter (suc (length r)) (length r) r (omega arith) (omega arith)

-- A quote or a brace is no space.
pub skip-stops :
    (c : ℕ) (r : Bytes) → is_space c ≡ false → (c == b'/') ≡ false → skip (c ∷ r) ≡ ok (c ∷ r)
unfolding skip skip_rounds starts_with
skip-stops c r h k = ground arith
