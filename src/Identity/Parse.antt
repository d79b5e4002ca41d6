-- ===== src/Identity/Parse.antt =====
-- src/identity.cpp: the three spellings of a Steam identity.
use mathlib.Core.List.{append-nil}
use source2root.Base.{
  ℕ, ◌+◌, ◌/◌, ◌%◌, ◌≤◌, ◌<◌, ◌-◌, ◌≡◌, refl, true, false, [], ◌∷◌, ◌++◌, arith, ok, some, length,
  length-append, take-length_append, take,
}
use source2root.Base.Text.{
  Bytes, codes, to_string, u64_max, u32_max, from_chars_unsigned, is_digit, starts_with, ends_with,
}
use source2root.Base.Text.Decimal.{
  from_chars_unsigned-to_string, BeginsDigit, BeginsDigit-to_string,
}
use source2root.Identity.{
  number, individual_base, steam_spelling, account_spelling, parse_steam_identity,
}

-- What is accepted is an individual account: the base and a nonzero 32-bit account number.
pub parse_steam_identity-range :
    (text : Bytes) (v : ℕ)
    → parse_steam_identity text ≡ ok v
    → (individual_base < v) × (v ≤ individual_base + u32_max)
unfolding parse_steam_identity
parse_steam_identity-range text v h = ground arith

number-to_string : (n : ℕ) → n ≤ u64_max → number (to_string n) ≡ ok n
unfolding number
number-to_string n h =
    let read : from_chars_unsigned u64_max (to_string n) ≡ some (n, []) =
      rw append-nil at (from_chars_unsigned-to_string u64_max n [] h tt) in
    rw (read, number)

ends_with-append : (c : ℕ) (t : Bytes) → ends_with c (t ++ c ∷ []) ≡ true
unfolding ends_with
ends_with-append c [] = ground arith
ends_with-append c (b ∷ []) = ground arith
ends_with-append c (b ∷ b' ∷ t) = ends_with-append c (b' ∷ t)

not_spelled :
    (c p : ℕ) (prefix t : Bytes)
    → is_digit c ≡ true
    → is_digit p ≡ false
    → starts_with (p ∷ prefix) (c ∷ t) ≡ false
unfolding starts_with
not_spelled c p prefix t h k = ground arith

decimal_spelling :
    (a : ℕ)
    → 1 ≤ a
    → a ≤ u32_max
    → parse_steam_identity (to_string (individual_base + a)) ≡ ok (individual_base + a)
decimal_spelling a lo hi =
    let digits = BeginsDigit-to_string (individual_base + a) [] in
    let plain : BeginsDigit (to_string (individual_base + a)) = rw append-nil at digits in
    let whole = number-to_string (individual_base + a) (omega arith) in
    by_number (to_string (individual_base + a)) plain (whole)
  where
    by_number :
        (t : Bytes)
        → BeginsDigit t
        → number t ≡ ok (individual_base + a)
        → parse_steam_identity t ≡ ok (individual_base + a)
    by_number [] b e = absurd b
    by_number (c ∷ r) b e =
        unfold parse_steam_identity in
        rw
          (not_spelled c b'S' (codes "TEAM_") r b refl, not_spelled c b'[' (codes "U:") r b refl, e)
          (ground arith)

bracket_spelling :
    (a : ℕ)
    → 1 ≤ a
    → a ≤ u32_max
    → parse_steam_identity (codes "[U:1:" ++ to_string a ++ b']' ∷ []) ≡ ok (individual_base + a)
unfolding parse_steam_identity account_spelling starts_with
bracket_spelling a lo hi =
    let size : length (codes "[U:1:" ++ to_string a ++ b']' ∷ []) - 6 ≡ length (to_string a) =
      omega (arith, length-append (to_string a) (b']' ∷ [])) in
    let body : take (length (to_string a)) (to_string a ++ b']' ∷ []) ≡ to_string a =
      take-length_append (to_string a) (b']' ∷ []) in
    rw
      (
        ends_with-append b']' (codes "[U:1:" ++ to_string a),
        size,
        body,
        number-to_string a (omega arith),
      )
      (ground arith)

some_byte : (t : Bytes) → BeginsDigit t → 1 ≤ length t
some_byte [] b = absurd b
some_byte (c ∷ r) b = omega arith

abbrev pub steam_text : ℕ → ℕ → ℕ → Bytes
steam_text x y z = codes "STEAM_" ++ (48 + x) ∷ b':' ∷ (48 + y) ∷ b':' ∷ to_string z

steam_spelling_lem :
    (x a : ℕ)
    → x ≤ 1
    → 1 ≤ a
    → a ≤ u32_max
    → parse_steam_identity (steam_text x (a % 2) (a / 2)) ≡ ok (individual_base + a)
unfolding parse_steam_identity steam_spelling starts_with
steam_spelling_lem x a hx lo hi = rw (number-to_string (a / 2) (omega arith)) (
    ground (
      arith,
      some_byte (to_string (a / 2) ++ []) (BeginsDigit-to_string (a / 2) []),
      append-nil (to_string (a / 2)),
    ))

-- Every account number has three spellings, and each is read as the same 64-bit identity: the
-- number itself, [U:1:account], and STEAM_x:y:z with x either 0 or 1, y the parity and z the half.
pub parse_steam_identity-spellings :
    (x a : ℕ)
    → x ≤ 1
    → 1 ≤ a
    → a ≤ u32_max
    → (parse_steam_identity (to_string (individual_base + a)) ≡ ok (individual_base + a))
      × (parse_steam_identity (codes "[U:1:" ++ to_string a ++ b']' ∷ [])
          ≡ ok (individual_base + a))
      × (parse_steam_identity (steam_text x (a % 2) (a / 2)) ≡ ok (individual_base + a))
parse_steam_identity-spellings x a hx lo hi =
    (decimal_spelling a lo hi, bracket_spelling a lo hi, steam_spelling_lem x a hx lo hi)
