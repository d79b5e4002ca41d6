-- ===== src/Base/Bits.antt =====
-- `|` of a shifted field and a field below it, as a sum. The native operations have no laws at
-- variables but the recursion on binary digits that they stand for.
use Prim.Native.Nat.{
  ℕ, zero, suc, ◌+◌, ◌*◌, ◌/◌, ◌%◌, ◌^◌, ◌≤◌, ◌<◌, max, bit_or, digits, bit_or-bitwise,
}
use mathlib.Core.Path.{◌≡◌, refl}
use native.Mathlib.Omega.{arith}
use native.Mathlib.Nat.{pow-suc}

abbrev or_digits : ℕ → ℕ → ℕ → ℕ
or_digits rounds a b = digits (λ y. y) max rounds a b

-- Rounds beyond the first number do not matter.
or_digits_rounds : (m n a b : ℕ) → a ≤ m → a ≤ n → or_digits m a b ≡ or_digits n a b
or_digits_rounds zero zero zero b hm hn = refl
or_digits_rounds zero (suc n) zero b hm hn = refl
or_digits_rounds (suc m) zero zero b hm hn = refl
or_digits_rounds (suc m) (suc n) zero b hm hn = refl
or_digits_rounds zero n (suc a) b hm hn = absurd (omega arith)
or_digits_rounds (suc m) zero (suc a) b hm hn = absurd (omega arith)
or_digits_rounds (suc m) (suc n) (suc a) b hm hn =
    omega (arith, or_digits_rounds m n (suc a / 2) (b / 2) (omega arith) (omega arith))

or_zero_left : (b : ℕ) → bit_or 0 b ≡ b
or_zero_left b = bit_or-bitwise 0 b

-- The lowest digit, where the first number is not 0.
bit_or_digit :
    (a b : ℕ) → bit_or (suc a) b ≡ bit_or (suc a / 2) (b / 2) * 2 + max (suc a % 2) (b % 2)
bit_or_digit a b = omega (
  arith,
  bit_or-bitwise (suc a) b,
  bit_or-bitwise (suc a / 2) (b / 2),
  or_digits_rounds a (suc a / 2) (suc a / 2) (b / 2) (omega arith) (omega arith),
)

or_zero_right_rounds : (n a : ℕ) → a ≤ n → bit_or a 0 ≡ a
or_zero_right_rounds n zero h = or_zero_left 0
or_zero_right_rounds zero (suc a) h = absurd (omega arith)
or_zero_right_rounds (suc n) (suc a) h =
    omega (arith, bit_or_digit a 0, or_zero_right_rounds n (suc a / 2) (omega arith))

even_or : (a b : ℕ) → bit_or (a * 2) b ≡ bit_or a (b / 2) * 2 + b % 2
even_or zero b = omega (arith, or_zero_left b, or_zero_left (b / 2))
even_or (suc a) b =
    let next : suc a * 2 ≡ suc (a * 2 + 1) = omega arith in
    let half : suc (a * 2 + 1) / 2 ≡ suc a = omega arith in
    let step : bit_or (suc (a * 2 + 1)) b
        ≡ bit_or (suc a) (b / 2) * 2 + max (suc (a * 2 + 1) % 2) (b % 2) =
      rw half at (bit_or_digit (a * 2 + 1) b) in
    rw next (omega (arith, step))

-- `(q << k) | r` is a sum where `r` fits below the shifted field.
pub shift_or : (k q r : ℕ) → r < 2 ^ k → bit_or (q * 2 ^ k) r ≡ q * 2 ^ k + r
shift_or zero q zero h =
    let one : q * 2 ^ 0 ≡ q = omega arith in
    rw one (omega (arith, or_zero_right_rounds q q (omega arith)))
shift_or zero q (suc r) h = absurd (omega arith)
shift_or (suc k) q r h =
    let twice : q * 2 ^ suc k ≡ q * 2 ^ k * 2 = simp pow-suc (omega arith) in
    let small : r < 2 ^ k * 2 = rw pow-suc at h in
    rw twice (omega (arith, even_or (q * 2 ^ k) r, shift_or k q (r / 2) (omega arith)))
