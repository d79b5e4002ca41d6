-- ===== src/Base/Text.antt =====
-- Texts as lists of bytes, decimal numbers, and what the sources use of std::from_chars and
-- std::to_string.
pub mod Decimal
use Prim.Native.Nat.{ℕ, zero, suc, ◌+◌, ◌-◌, ◌*◌, ◌/◌, ◌%◌, ◌^◌}
use Prim.Native.Char.{code}
use Prim.Native.String.{String}
use mathlib.Core.Path.{◌≡◌, refl}
use mathlib.Core.Logic.{◌↔◌}
use mathlib.Core.Bool.{Bool, true, false, ◌&&◌, ◌||◌}
use mathlib.Core.Option.{Option, none, some}
use mathlib.Core.List.{List, [], ◌∷◌, ◌++◌}
use native.Mathlib.Omega.{arith}
use source2root.Base.Lists.{take, drop}
use source2root.Base.Tests.{ltb, leb, ◌==◌, if◌then◌else◌}

abbrev pub Bytes : Type 0
Bytes = List ℕ

-- The bytes of an ASCII literal. `String` has its own `[]` and `∷`.
abbrev pub codes : String → Bytes
codes String.[] = []
codes (String.◌∷◌ c s) = code c ∷ codes s

-- ==
unfoldable pub bytes_eq : Bytes → Bytes → Bool
bytes_eq [] [] = true
bytes_eq [] (b ∷ t) = false
bytes_eq (a ∷ s) [] = false
bytes_eq (a ∷ s) (b ∷ t) = a == b && bytes_eq s t

pub bytes_eq-eq : (s t : Bytes) → bytes_eq s t ≡ true → s ≡ t
unfolding bytes_eq
bytes_eq-eq [] [] h = refl
bytes_eq-eq [] (b ∷ t) h = cc
bytes_eq-eq (a ∷ s) [] h = cc
bytes_eq-eq (a ∷ s) (b ∷ t) h = ground (arith, bytes_eq-eq s t)

pub bytes_eq_refl : (s : Bytes) → bytes_eq s s ≡ true
unfolding bytes_eq
bytes_eq_refl [] = refl
bytes_eq_refl (a ∷ s) = ground (arith, bytes_eq_refl s)

pub bytes_eq_iff : (s t : Bytes) → (bytes_eq s t ≡ true) ↔ (s ≡ t)
bytes_eq_iff s t = (bytes_eq-eq s t, λ e. rw e (bytes_eq_refl t))

-- text.starts_with(prefix)
unfoldable pub starts_with : Bytes → Bytes → Bool
starts_with [] t = true
starts_with (a ∷ p) [] = false
starts_with (a ∷ p) (b ∷ t) = a == b && starts_with p t

-- text.ends_with(c) for a character
unfoldable pub ends_with : ℕ → Bytes → Bool
ends_with c [] = false
ends_with c (b ∷ []) = b == c
ends_with c (b ∷ b' ∷ t) = ends_with c (b' ∷ t)

-- text.substr(pos, count)
abbrev pub substr : ℕ → ℕ → Bytes → Bytes
substr pos count t = take count (drop pos t)

abbrev pub is_digit : ℕ → Bool
is_digit c = leb 48 c && leb c 57

abbrev pub is_lower : ℕ → Bool
is_lower c = leb b'a' c && leb c b'z'

abbrev pub is_upper : ℕ → Bool
is_upper c = leb b'A' c && leb c b'Z'

-- c < 32 || c == 127
abbrev pub is_control : ℕ → Bool
is_control c = ltb c 32 || c == 127

abbrev pub u64_max : ℕ
u64_max = 2 ^ 64 - 1

abbrev pub u32_max : ℕ
u32_max = 2 ^ 32 - 1

abbrev pub int_max : ℕ
int_max = 2 ^ 31 - 1

-- The longest run of digits, as a number after those already read, and what follows it.
unfoldable pub scan_digits : ℕ → Bytes → ℕ × Bytes
scan_digits v [] = (v, [])
scan_digits v (c ∷ r) =
    let rest = scan_digits (v * 10 + (c - 48)) r in if is_digit c then rest else (v, c ∷ r)

-- std::from_chars into an unsigned type with the largest value `limit`: no sign is accepted.
unfoldable pub from_chars_unsigned : ℕ → Bytes → Option (ℕ × Bytes)
from_chars_unsigned limit [] = none
from_chars_unsigned limit (c ∷ r) =
    let (v, rest) = scan_digits 0 (c ∷ r) in
    if is_digit c then (if leb v limit then some (v, rest) else none) else none

-- `negsuc n` is -(n + 1).
pub data ℤ : Type 0 where
  pos : ℕ → ℤ
  negsuc : ℕ → ℤ

-- a <= b, on ints
abbrev pub int_le : ℤ → ℤ → Bool
int_le (pos a) (pos b) = leb a b
int_le (pos a) (negsuc b) = false
int_le (negsuc a) (pos b) = true
int_le (negsuc a) (negsuc b) = leb b a

abbrev pub neg_ℕ : ℕ → ℤ
neg_ℕ zero = pos 0
neg_ℕ (suc n) = negsuc n

-- std::from_chars into int (32 bits): a minus sign is accepted, a plus sign is not.
unfoldable pub from_chars_int : Bytes → Option (ℤ × Bytes)
from_chars_int [] = none
from_chars_int (c ∷ r) =
    let negative : Option (ℤ × Bytes) = elim (from_chars_unsigned (2 ^ 31) r) [
      | none ↦ none
      | some (v, rest) ↦ some (neg_ℕ v, rest)
    ] in
    let positive : Option (ℤ × Bytes) = elim (from_chars_unsigned int_max (c ∷ r)) [
      | none ↦ none
      | some (v, rest) ↦ some (pos v, rest)
    ] in
    if c == b'-' then negative else positive

-- std::to_string of an unsigned value; `n` rounds are enough for `n`.
decimal_rounds : ℕ → ℕ → Bytes
decimal_rounds zero n = (48 + n) ∷ []
decimal_rounds (suc f) n =
    let rest = decimal_rounds f (n / 10) in
    if ltb n 10 then (48 + n) ∷ [] else rest ++ (48 + n % 10) ∷ []

unfoldable pub to_string : ℕ → Bytes
unfolding decimal_rounds
to_string n = decimal_rounds n n

-- std::to_string of an int
unfoldable pub to_string_int : ℤ → Bytes
to_string_int (pos n) = to_string n
to_string_int (negsuc n) = b'-' ∷ to_string (n + 1)
