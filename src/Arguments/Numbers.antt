-- ===== src/Arguments/Numbers.antt =====
-- src/text.cpp, ParseInt.
use source2root.Base.{
  suc, ◌+◌, ◌^◌, ◌≤◌, ◌≡◌, refl, ap, sym, ◌∙◌, arith, ◌&&◌, true, Option, none, some, [], ok, err,
  if◌then◌else◌,
}
use mathlib.Core.List.{append-nil}
use source2root.Base.Text.{
  Bytes, ℤ, pos, negsuc, int_le, neg_ℕ, from_chars_int, from_chars_unsigned, to_string,
  to_string_int, int_max,
}
use source2root.Base.Text.Decimal.{from_chars_int-to_string, from_chars_unsigned-to_string}
use source2root.Arguments.{TextError, whole_int, in_bounds, parse_int}

-- A number that fits 32 bits with a sign
abbrev pub IsInt : ℤ → Type 0
IsInt (pos n) = n ≤ int_max
IsInt (negsuc n) = n ≤ int_max

from_chars_int_whole : (v : ℤ) → IsInt v → from_chars_int (to_string_int v) ≡ some (v, [])
unfolding from_chars_int to_string_int
from_chars_int_whole (pos n) h =
    ap from_chars_int (sym (append-nil (to_string n))) ∙ from_chars_int-to_string n [] h tt
from_chars_int_whole (negsuc n) h = rw digits (ap (λ m. some (neg_ℕ m, [])) next)
  where
    next : n + 1 ≡ suc n
    next = omega arith

    digits : from_chars_unsigned (2 ^ 31) (to_string (n + 1)) ≡ some (n + 1, [])
    digits =
        ap (from_chars_unsigned (2 ^ 31)) (sym (append-nil (to_string (n + 1))))
        ∙ from_chars_unsigned-to_string (2 ^ 31) (n + 1) [] (omega arith) tt

-- ParseInt reads back each printed 32-bit number that is within the bounds, and refuses each that is
-- not, where the bounds are in order.
pub parse_int-to_string_int :
    (v low high : ℤ)
    → IsInt v
    → int_le low high ≡ true
    → parse_int (to_string_int v) low high
      ≡ (if int_le low v && int_le v high then ok v else err TextError.expected_integer)
unfolding parse_int
parse_int-to_string_int v low high h k = rw (k, from_chars_int_whole v h) refl

in_bounds-inside :
    (low high : ℤ) (o : Option ℤ) (v : ℤ)
    → in_bounds low high o ≡ ok v
    → (int_le low v && int_le v high) ≡ true
in_bounds-inside low high none v e = cc
in_bounds-inside low high (some w) v e = ground arith

-- A number that ParseInt gives is within the bounds.
pub parse_int-inside :
    (text : Bytes) (low high v : ℤ)
    → parse_int text low high ≡ ok v
    → (int_le low v ≡ true) × (int_le v high ≡ true)
unfolding parse_int
parse_int-inside text low high v e =
    let inside = in_bounds-inside low high (whole_int (from_chars_int text)) v in
    ground (arith, e, inside)
