-- ===== src/Handles/Id.antt =====
-- src/handles.h: handle identifiers, `int32_t` values with the generation above a 12-bit slot number.
use Prim.Native.Nat.{bit_or}
use source2root.Base.{
  ℕ, ◌+◌, ◌-◌, ◌*◌, ◌/◌, ◌%◌, ◌^◌, ◌<◌, ◌≡◌, Bool, false, arith, ltb, if◌then◌else◌,
}
use source2root.Base.Text.{ℤ, pos, negsuc}
use source2root.Base.Bits.{shift_or}

-- static_cast<Id> of an unsigned value
abbrev pub to_id : ℕ → ℤ
to_id n =
    let bits = n % 2 ^ 32 in if ltb bits (2 ^ 31) then pos bits else negsuc (2 ^ 32 - bits - 1)

-- static_cast<std::uint32_t>(id)
abbrev pub raw : ℤ → ℕ
raw (pos n) = n % 2 ^ 32
raw (negsuc n) = 2 ^ 32 - 1 - n % 2 ^ 32

-- !(id <= 0)
abbrev pub is_positive : ℤ → Bool
is_positive (pos n) = ltb 0 n
is_positive (negsuc n) = false

-- raw & 4095u and raw >> 12
abbrev pub slot_bits : ℕ → ℕ
slot_bits r = r % 2 ^ 12

abbrev pub generation_bits : ℕ → ℕ
generation_bits r = r / 2 ^ 12

-- static_cast<Id>((generation << 12) | (i + 1)), the shift on 32 bits
unfoldable pub encode : ℕ → ℕ → ℤ
encode generation i = to_id (bit_or (generation * 2 ^ 12 % 2 ^ 32) (i + 1))

pub encode_value : (g i : ℕ) → g < 2 ^ 19 → i < 4095 → encode g i ≡ pos (g * 4096 + i + 1)
unfolding encode
encode_value g i hg hi =
    let small : g * 2 ^ 12 % 2 ^ 32 ≡ g * 2 ^ 12 = omega arith in
    rw (small, shift_or 12 g (i + 1) (omega arith)) (ground arith)
