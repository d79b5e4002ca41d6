-- ===== src/Bans/Utc.antt =====
-- src/bans.cpp: Utc and ParseUtc, the times of the ban database.
use source2root.Base.{
  ℕ, ◌+◌, ◌-◌, ◌*◌, ◌/◌, ◌%◌, ◌^◌, ◌≤◌, ◌<◌, ◌≡◌, refl, sym, ap, ◌∙◌, inl, inr, ◌⊎◌, ◌&&◌, Bool,
  true, false, not, Option, none, some, [], ◌∷◌, ◌++◌, Result, ok, err, ◌>>=◌, ◌>>◌, throw_if,
  or_throw, arith, if◌then◌else◌, ltb, leb, ◌==◌, is_nil, length, get_or, take, drop, Bool-cases,
  ltb-false→le, le→leb,
}
use source2root.Base.Text.{Bytes, ℤ, pos, negsuc, from_chars_unsigned, is_digit, scan_digits}
use source2root.Base.Text.Decimal.{from_chars_unsigned-scan, scan_digits-cons, scan_digits-Stops}
use source2root.Bans.Calendar.{
  Date, from_days, to_days, is_date, date_days, year_start, days_in_month, date_days-from_days,
  is_date-from_days, from_days-year, to_days_last,
}

pub data UtcError : Type 0 where
  outside_years invalid_form invalid_timestamp invalid_date : UtcError

-- A number with leading zeros. The month, the day, the hours, minutes and seconds have no more than
-- two digits, and the year has four.
abbrev pub two : ℕ → Bytes
two n = (48 + n / 10) ∷ (48 + n % 10) ∷ []

abbrev pub four : ℕ → Bytes
four n = (48 + n / 1000) ∷ (48 + n / 100 % 10) ∷ (48 + n / 10 % 10) ∷ (48 + n % 10) ∷ []

abbrev pub seconds_in_day : ℕ
seconds_in_day = 86400

abbrev pub date_text : Date → Bytes → Bytes
date_text d rest = four d.year ++ 45 ∷ (two d.month ++ 45 ∷ (two d.day ++ 84 ∷ rest))

abbrev pub clock_text : ℕ → Bytes
clock_text s = two (s / 3600) ++ 58 ∷ (two (s / 60 % 60) ++ 58 ∷ (two (s % 60) ++ 90 ∷ []))

-- Utc. A time is its seconds since 1970.
unfoldable pub utc : ℤ → Result UtcError Bytes
utc (negsuc n) = err UtcError.outside_years
utc (pos s) =
    throw_if (ltb (to_days 9999 12 31) (s / seconds_in_day)) UtcError.outside_years
    >> ok (date_text (from_days (s / seconds_in_day)) (clock_text (s % seconds_in_day)))

-- Unsigned
abbrev pub bounded : ℕ → Option (ℕ × Bytes) → Option ℕ
bounded maximum none = none
bounded maximum (some (v, rest)) = if is_nil rest && leb v maximum then some v else none

unfoldable pub unsigned : Bytes → ℕ → Option ℕ
unsigned text maximum = bounded maximum (from_chars_unsigned (2 ^ 64 - 1) text)

abbrev pub field : Bytes → ℕ → ℕ → ℕ → Result UtcError ℕ
field text start count maximum =
    or_throw (unsigned (take count (drop start text)) maximum) UtcError.invalid_timestamp

-- The separators of YYYY-MM-DDTHH:MM:SSZ
abbrev pub has_form : Bytes → Bool
has_form text =
    length text == 20
    && get_or text 4 0 == 45
    && get_or text 7 0 == 45
    && get_or text 10 0 == 84
    && get_or text 13 0 == 58
    && get_or text 16 0 == 58
    && get_or text 19 0 == 90

-- ParseUtc
unfoldable pub parse_utc : Bytes → Result UtcError ℤ
parse_utc text =
    throw_if (not (has_form text)) UtcError.invalid_form
    >> (field text 0 4 9999 >>= λ y.
        throw_if (ltb y 1970) UtcError.invalid_timestamp
        >> (field text 5 2 12 >>= λ m. field text 8 2 31 >>= λ d. field text 11 2 23 >>= λ h.
            field text 14 2 59 >>= λ n. field text 17 2 59 >>= λ s.
            throw_if (not (is_date (record { year = y; month = m; day = d }))) UtcError.invalid_date
            >> ok (pos (to_days y m d * seconds_in_day + h * 3600 + n * 60 + s))))

scan_digits-digit :
    (v d : ℕ) (r : Bytes) → d < 10 → scan_digits v ((48 + d) ∷ r) ≡ scan_digits (v * 10 + d) r
scan_digits-digit v d r h =
    scan_digits-cons v (48 + d) r (ground arith)
    ∙ ap (λ k. scan_digits (v * 10 + k) r) (omega arith)

unsigned-scan :
    (n maximum c : ℕ) (r : Bytes)
    → n ≤ maximum
    → n < 10000
    → is_digit c ≡ true
    → scan_digits 0 (c ∷ r) ≡ (n, [])
    → unsigned (c ∷ r) maximum ≡ some n
unfolding unsigned
unsigned-scan n maximum c r h small digit e =
    rw
      (from_chars_unsigned-scan (2 ^ 64 - 1) n (c ∷ r) [] digit e (omega arith), le→leb n maximum h)
      refl

-- Two digits and four are read back.
unsigned-two : (n maximum : ℕ) → n ≤ maximum → n < 100 → unsigned (two n) maximum ≡ some n
unsigned-two n maximum h small =
    unsigned-scan n maximum (48 + n / 10) ((48 + n % 10) ∷ []) h (omega arith) (ground arith) (
      scan_digits-digit 0 (n / 10) ((48 + n % 10) ∷ []) (omega arith)
      ∙ scan_digits-digit (0 * 10 + n / 10) (n % 10) [] (omega arith)
      ∙ scan_digits-Stops _ [] tt
      ∙ ap (λ v. (v, [])) (omega arith))

unsigned-four : (n : ℕ) → n ≤ 9999 → unsigned (four n) 9999 ≡ some n
unsigned-four n h = unsigned-scan n 9999 (48 + n / 1000) _ h (omega arith) (ground arith) (
    scan_digits-digit 0 (n / 1000) _ (omega arith)
    ∙ scan_digits-digit (0 * 10 + n / 1000) (n / 100 % 10) _ (omega arith)
    ∙ scan_digits-digit ((0 * 10 + n / 1000) * 10 + n / 100 % 10) (n / 10 % 10) _ (omega arith)
    ∙ scan_digits-digit (((0 * 10 + n / 1000) * 10 + n / 100 % 10) * 10 + n / 10 % 10) (n % 10) []
        (omega arith)
    ∙ scan_digits-Stops _ [] tt
    ∙ ap (λ v. (v, [])) (omega arith))

-- A step that returns goes on with what it returned.
>>=-ok :
    {A B : Type 0} {m : Result UtcError A} (f : A → Result UtcError B) {a : A}
    {r : Result UtcError B}
    → m ≡ ok a
    → f a ≡ r
    → (m >>= f) ≡ r
>>=-ok f e h = ap (λ m. m >>= f) e ∙ h

days_at_most : (y m : ℕ) → days_in_month y m ≤ 31
unfolding days_in_month
days_at_most y m = ground arith

is_date-bounds : (d : Date) → is_date d ≡ true → (d.month ≤ 12) × (d.day ≤ 31)
is_date-bounds d h = (ground (arith, h), ground (arith, h, days_at_most d.year d.month))

field-read : {o : Option ℕ} {n : ℕ} → o ≡ some n → or_throw o UtcError.invalid_timestamp ≡ ok n
field-read e = rw e refl

passes : {b : Bool} (e : UtcError) → b ≡ false → throw_if b e ≡ ok tt
passes e h = rw h refl

parse_utc-text :
    (d : Date) (s : ℕ)
    → 1970 ≤ d.year
    → d.year ≤ 9999
    → is_date d ≡ true
    → s < seconds_in_day
    → parse_utc (date_text d (clock_text s)) ≡ ok (pos (date_days d * seconds_in_day + s))
unfolding parse_utc
parse_utc-text d s early late valid day =
    let (month, days) = is_date-bounds d valid in
    let old : ltb d.year 1970 ≡ false = ground (arith, early) in
    >>=-ok _ (field-read (unsigned-four d.year late)) (
      >>=-ok _ (passes UtcError.invalid_timestamp old) (
        >>=-ok _ (field-read (unsigned-two d.month 12 month (omega arith))) (
          >>=-ok _ (field-read (unsigned-two d.day 31 days (omega arith))) (
            >>=-ok _ (field-read (unsigned-two (s / 3600) 23 (omega arith) (omega arith))) (
              >>=-ok _ (field-read (unsigned-two (s / 60 % 60) 59 (omega arith) (omega arith))) (
                >>=-ok _ (field-read (unsigned-two (s % 60) 59 (omega arith) (omega arith))) (
                  >>=-ok _ (passes UtcError.invalid_date (ap not valid))
                    (ap (λ t. ok (pos t)) (omega arith)))))))))

-- Every time that Utc writes is read back by ParseUtc, whatever day of the years 1970 to 9999 it is.
pub parse_utc-utc : (t : ℤ) {text : Bytes} → utc t ≡ ok text → parse_utc text ≡ ok t
unfolding utc
parse_utc-utc (negsuc n) e = absurd (cc e)
parse_utc-utc (pos s) {text = text} e =
    go (Bool-cases (ltb (to_days 9999 12 31) (s / seconds_in_day)))
  where
    n : ℕ
    n = s / seconds_in_day

    go :
        (ltb (to_days 9999 12 31) n ≡ true) ⊎ (ltb (to_days 9999 12 31) n ≡ false)
        → parse_utc text ≡ ok (pos s)
    go (inl far) = absurd (let e' = rw far at e in cc e')
    go (inr near) =
        let e' = rw near at e in
        let before : n < year_start 8030 = omega (arith, to_days_last, ltb-false→le _ _ near) in
        let same : date_text (from_days n) (clock_text (s % seconds_in_day)) ≡ text = cc e' in
        rw (sym same) (
          parse_utc-text (from_days n) (s % seconds_in_day) (unfold from_days in omega arith)
            (from_days-year n before) (is_date-from_days n) (omega arith)
          ∙ ap (λ t. ok (pos t)) (omega (arith, date_days-from_days n)))
