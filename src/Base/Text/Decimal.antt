-- ===== src/Base/Text/Decimal.antt =====
-- std::to_string against std::from_chars.
use Prim.Native.Nat.{ℕ, zero, suc, ◌+◌, ◌-◌, ◌*◌, ◌/◌, ◌%◌, ◌≤◌}
use mathlib.Core.Path.{◌≡◌, refl, ap, ◌∙◌}
use mathlib.Core.Bool.{true, false}
use mathlib.Core.Logic.{inl, inr}
use mathlib.Core.Option.{some}
use mathlib.Core.List.{[], ◌∷◌, ◌++◌, append_assoc}
use native.Mathlib.Omega.{arith}
use source2root.Base.Tests.{ltb, ◌==◌, Bool-cases, le→leb}
use source2root.Base.Lists.{All, All-append}
use source2root.Base.Text.{
  Bytes, is_digit, scan_digits, from_chars_unsigned, decimal_rounds, to_string, from_chars_int,
  int_max, pos,
}

-- The number ends here.
abbrev pub Stops : Bytes → Type 0
Stops [] = Unit
Stops (c ∷ r) = is_digit c ≡ false

pub scan_digits-Stops : (v : ℕ) (rest : Bytes) → Stops rest → scan_digits v rest ≡ (v, rest)
unfolding scan_digits
scan_digits-Stops v [] h = refl
scan_digits-Stops v (c ∷ r) h = rw h

pub scan_digits-cons :
    (v c : ℕ) (r : Bytes)
    → is_digit c ≡ true
    → scan_digits v (c ∷ r) ≡ scan_digits (v * 10 + (c - 48)) r
unfolding scan_digits
scan_digits-cons v c r h = rw h

scan_digits-decimal_rounds :
    (f n : ℕ) (rest : Bytes)
    → n ≤ f
    → scan_digits 0 (decimal_rounds f n ++ rest) ≡ scan_digits n rest
unfolding decimal_rounds
scan_digits-decimal_rounds zero n rest h =
    scan_digits-cons 0 (48 + n) rest (ground arith) ∙ ap (λ v. scan_digits v rest) (omega arith)
scan_digits-decimal_rounds (suc f) n rest h = elim (Bool-cases (ltb n 10)) [
  | inl small ↦
      rw small (
        scan_digits-cons 0 (48 + n) rest (ground arith)
        ∙ ap (λ v. scan_digits v rest) (omega arith))
  | inr large ↦
      rw (large, append_assoc)
        (scan_digits-decimal_rounds f (n / 10) ((48 + n % 10) ∷ rest) (ground arith)
          ∙ scan_digits-cons (n / 10) (48 + n % 10) rest (ground arith)
          ∙ ap (λ v. scan_digits v rest) (omega arith))
]

abbrev pub BeginsDigit : Bytes → Type 0
BeginsDigit [] = ⊥
BeginsDigit (c ∷ r) = is_digit c ≡ true

BeginsDigit-decimal_rounds :
    (f n : ℕ) (rest : Bytes) → n ≤ f → BeginsDigit (decimal_rounds f n ++ rest)
unfolding decimal_rounds
BeginsDigit-decimal_rounds zero n rest h = ground arith
BeginsDigit-decimal_rounds (suc f) n rest h = elim (Bool-cases (ltb n 10)) [
  | inl small ↦ rw small (ground arith)
  | inr large ↦
      rw (large, append_assoc)
        (BeginsDigit-decimal_rounds f (n / 10) ((48 + n % 10) ∷ rest) (ground arith))
]

pub from_chars_unsigned-scan :
    (limit n : ℕ) (text rest : Bytes)
    → BeginsDigit text
    → scan_digits 0 text ≡ (n, rest)
    → n ≤ limit
    → from_chars_unsigned limit text ≡ some (n, rest)
unfolding from_chars_unsigned
from_chars_unsigned-scan limit n [] rest b e h = absurd b
from_chars_unsigned-scan limit n (c ∷ r) rest b e h = rw (b, e, le→leb n limit h)

-- A printed number is read back, up to whatever ends it.
pub from_chars_unsigned-to_string :
    (limit n : ℕ) (rest : Bytes)
    → n ≤ limit
    → Stops rest
    → from_chars_unsigned limit (to_string n ++ rest) ≡ some (n, rest)
unfolding to_string
from_chars_unsigned-to_string limit n rest h s =
    from_chars_unsigned-scan limit n (decimal_rounds n n ++ rest) rest
      (BeginsDigit-decimal_rounds n n rest (omega arith))
      (scan_digits-decimal_rounds n n rest (omega arith) ∙ scan_digits-Stops n rest s) h

IsDigits-decimal_rounds : (f n : ℕ) → n ≤ f → All (λ c. is_digit c ≡ true) (decimal_rounds f n)
unfolding decimal_rounds
IsDigits-decimal_rounds zero n h = ground arith
IsDigits-decimal_rounds (suc f) n h = elim (Bool-cases (ltb n 10)) [
  | inl small ↦ rw small (ground arith)
  | inr large ↦ rw large (
      All-append (λ c. is_digit c ≡ true) (decimal_rounds f (n / 10)) ((48 + n % 10) ∷ [])
        (IsDigits-decimal_rounds f (n / 10) (ground arith)) (ground arith))
]

pub IsDigits-to_string : (n : ℕ) → All (λ c. is_digit c ≡ true) (to_string n)
unfolding to_string
IsDigits-to_string n = IsDigits-decimal_rounds n n (omega arith)

pub BeginsDigit-to_string : (n : ℕ) (rest : Bytes) → BeginsDigit (to_string n ++ rest)
unfolding to_string
BeginsDigit-to_string n rest = BeginsDigit-decimal_rounds n n rest (omega arith)

-- A nonnegative int is read back.
pub from_chars_int-to_string :
    (n : ℕ) (rest : Bytes)
    → n ≤ int_max
    → Stops rest
    → from_chars_int (to_string n ++ rest) ≡ some (pos n, rest)
from_chars_int-to_string n rest h s =
    go (to_string n ++ rest) (BeginsDigit-to_string n rest)
      (from_chars_unsigned-to_string int_max n rest h s)
  where
    go :
        (t : Bytes)
        → BeginsDigit t
        → from_chars_unsigned int_max t ≡ some (n, rest)
        → from_chars_int t ≡ some (pos n, rest)
    go [] b e = absurd b
    go (c ∷ r) b e =
        let minus : (c == b'-') ≡ false = ground arith in unfold from_chars_int in rw (minus, e)
