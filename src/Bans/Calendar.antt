-- ===== src/Bans/Calendar.antt =====
-- src/bans.cpp: what Utc and ParseUtc use of std::chrono: days since 1970 against year, month, day.
use source2root.Base.{
  ℕ, zero, suc, ◌+◌, ◌-◌, ◌*◌, ◌/◌, ◌%◌, ◌≤◌, ◌<◌, ◌≡◌, refl, ◌∙◌, inl, inr, ◌&&◌, ◌||◌, Bool, true,
  not, arith, if◌then◌else◌, ltb, ◌==◌, Bool-cases, ltb→lt, ltb-false→le,
}

abbrev pub is_leap : ℕ → Bool
is_leap y = y % 4 == 0 && (not (y % 100 == 0) || y % 400 == 0)

unfoldable pub days_in_year : ℕ → ℕ
days_in_year y = if is_leap y then 366 else 365

unfoldable pub days_in_month : ℕ → ℕ → ℕ
days_in_month y m =
    if m == 2
    then (if is_leap y then 29 else 28)
    else if m == 4 || m == 6 || m == 9 || m == 11
    then 30
    else 31

-- The days before the year 1970 + k, and in a year before the month m + 1
unfoldable pub year_start : ℕ → ℕ
year_start zero = 0
year_start (suc k) = year_start k + days_in_year (1970 + k)

unfoldable pub month_start : ℕ → ℕ → ℕ
month_start y zero = 0
month_start y (suc m) = month_start y m + days_in_month y (suc m)

-- sys_days{year_month_day}, from 1970 on
abbrev pub to_days : ℕ → ℕ → ℕ → ℕ
to_days y m d = year_start (y - 1970) + month_start y (m - 1) + (d - 1)

-- year_month_day{day}: the year after 1970 and the day in it, the month before and the day in it
unfoldable pub year_rounds : ℕ → ℕ → ℕ → ℕ × ℕ
year_rounds zero k n = (k, n)
year_rounds (suc f) k n =
    let rest = year_rounds f (suc k) (n - days_in_year (1970 + k)) in
    if ltb n (days_in_year (1970 + k)) then (k, n) else rest

unfoldable pub month_rounds : ℕ → ℕ → ℕ → ℕ → ℕ × ℕ
month_rounds zero y m n = (m, n)
month_rounds (suc f) y m n =
    let rest = month_rounds f y (suc m) (n - days_in_month y (suc m)) in
    if ltb n (days_in_month y (suc m)) then (m, n) else rest

pub record Date : Type 0 where
  pub year : ℕ
  pub month : ℕ
  pub day : ℕ

unfoldable pub from_days : ℕ → Date
from_days n =
    let y = year_rounds (suc (n / 365)) 0 n in
    let m = month_rounds 11 (1970 + y.0) 0 y.1 in
    record { year = 1970 + y.0; month = suc m.0; day = suc m.1 }

-- date.ok()
abbrev pub is_date : Date → Bool
is_date d =
    not (d.month == 0)
    && ltb d.month 13
    && not (d.day == 0)
    && ltb d.day (suc (days_in_month d.year d.month))

year_long : (y : ℕ) → 365 ≤ days_in_year y
unfolding days_in_year
year_long y = ground arith

year_rounds-year_start :
    (f k n : ℕ) → year_start (year_rounds f k n).0 + (year_rounds f k n).1 ≡ year_start k + n
unfolding year_rounds
year_rounds-year_start zero k n = refl
year_rounds-year_start (suc f) k n = elim (Bool-cases (ltb n (days_in_year (1970 + k)))) [
  | inl small ↦ rw small refl
  | inr large ↦
      let whole : days_in_year (1970 + k) ≤ n = ltb-false→le _ _ large in
      rw large (
        year_rounds-year_start f (suc k) (n - days_in_year (1970 + k))
        ∙ unfold year_start in omega (arith, whole))
]

year_rounds-within :
    (f k n : ℕ) → n < 365 * f → (year_rounds f k n).1 < days_in_year (1970 + (year_rounds f k n).0)
unfolding year_rounds
year_rounds-within zero k n h = absurd (omega arith)
year_rounds-within (suc f) k n h = elim (Bool-cases (ltb n (days_in_year (1970 + k)))) [
  | inl small ↦ rw small (ltb→lt _ _ small)
  | inr large ↦
      let whole : days_in_year (1970 + k) ≤ n = ltb-false→le _ _ large in
      rw large (
        year_rounds-within f (suc k) (n - days_in_year (1970 + k))
          (omega (arith, whole, year_long (1970 + k))))
]

month_rounds-month_start :
    (f y m n : ℕ)
    → month_start y (month_rounds f y m n).0 + (month_rounds f y m n).1 ≡ month_start y m + n
unfolding month_rounds
month_rounds-month_start zero y m n = refl
month_rounds-month_start (suc f) y m n = elim (Bool-cases (ltb n (days_in_month y (suc m)))) [
  | inl small ↦ rw small refl
  | inr large ↦
      let whole : days_in_month y (suc m) ≤ n = ltb-false→le _ _ large in
      rw large (
        month_rounds-month_start f y (suc m) (n - days_in_month y (suc m))
        ∙ unfold month_start in omega (arith, whole))
]

within_month :
    (y m n : ℕ) → month_start y m + n < month_start y (suc (0 + m)) → n < days_in_month y (suc m)
unfolding month_start
within_month y m n h =
    let same : 0 + m ≡ m = omega arith in let h' = rw same at h in omega (arith, h')

month_rounds-within :
    (f y m n : ℕ)
    → month_start y m + n < month_start y (suc (f + m))
    → ((month_rounds f y m n).1 < days_in_month y (suc (month_rounds f y m n).0))
      × ((month_rounds f y m n).0 ≤ f + m)
unfolding month_rounds
month_rounds-within zero y m n h = (within_month y m n h, omega arith)
month_rounds-within (suc f) y m n h = elim (Bool-cases (ltb n (days_in_month y (suc m)))) [
  | inl small ↦ rw small (ltb→lt _ _ small, omega arith)
  | inr large ↦
      let whole : days_in_month y (suc m) ≤ n = ltb-false→le _ _ large in
      let one : month_start y (suc m) ≡ month_start y m + days_in_month y (suc m) =
        unfold month_start in refl in
      let later : suc (f + suc m) ≡ suc (suc f + m) = omega arith in
      let (day, month) =
        month_rounds-within f y (suc m) (n - days_in_month y (suc m))
          (rw (later, one) (omega (arith, whole, h))) in
      rw large (day, omega (arith, month))
]

year_months : (y : ℕ) → month_start y 12 ≡ days_in_year y
unfolding month_start days_in_month days_in_year
year_months y = ground arith

year_start-suc : (k : ℕ) → year_start (suc k) ≡ year_start k + days_in_year (1970 + k)
unfolding year_start
year_start-suc k = refl

year_start-increases : (k j : ℕ) → year_start k ≤ year_start (k + j)
year_start-increases k zero = let same : k + 0 ≡ k = omega arith in rw same (omega arith)
year_start-increases k (suc j) =
    let same : k + suc j ≡ suc (k + j) = omega arith in
    rw same (omega (arith, year_start-suc (k + j), year_start-increases k j))

-- The days of a date
abbrev pub date_days : Date → ℕ
date_days d = to_days d.year d.month d.day

module _ (n : ℕ) where
  abbrev split_year : ℕ × ℕ
  split_year = year_rounds (suc (n / 365)) 0 n

  abbrev split_month : ℕ × ℕ
  split_month = month_rounds 11 (1970 + split_year.0) 0 split_year.1

  in_year : split_year.1 < days_in_year (1970 + split_year.0)
  in_year = year_rounds-within (suc (n / 365)) 0 n (omega arith)

  whole_year : year_start split_year.0 + split_year.1 ≡ n
  whole_year = year_rounds-year_start (suc (n / 365)) 0 n ∙ unfold year_start in omega arith

  month_holds :
      (split_month.1 < days_in_month (1970 + split_year.0) (suc split_month.0))
      × (split_month.0 ≤ 11)
  month_holds =
      month_rounds-within 11 (1970 + split_year.0) 0 split_year.1
        (unfold month_start in omega (arith, in_year, year_months (1970 + split_year.0)))

  whole_month : month_start (1970 + split_year.0) split_month.0 + split_month.1 ≡ split_year.1
  whole_month =
      month_rounds-month_start 11 (1970 + split_year.0) 0 split_year.1
      ∙ unfold month_start in omega arith

  -- A day is the day of its date.
  pub date_days-from_days : date_days (from_days n) ≡ n
  unfolding from_days
  date_days-from_days =
      let y : 1970 + split_year.0 - 1970 ≡ split_year.0 = omega arith in
      let m : suc split_month.0 - 1 ≡ split_month.0 = omega arith in
      let d : suc split_month.1 - 1 ≡ split_month.1 = omega arith in
      rw (y, m, d) (omega (arith, whole_year, whole_month))

  pub is_date-from_days : is_date (from_days n) ≡ true
  unfolding from_days
  is_date-from_days = ground (arith, month_holds)

  -- Before the year 10000
  pub from_days-year : n < year_start 8030 → (from_days n).year ≤ 9999
  unfolding from_days
  from_days-year h = elim (Bool-cases (ltb split_year.0 8030)) [
    | inl small ↦ omega (arith, ltb→lt _ _ small)
    | inr large ↦
        let far : 8030 ≤ split_year.0 = ltb-false→le _ _ large in
        let same : 8030 + (split_year.0 - 8030) ≡ split_year.0 = omega (arith, far) in
        let after = year_start-increases 8030 (split_year.0 - 8030) in
        let after' = rw same at after in absurd (omega (arith, after', h, whole_year))
  ]

-- The last day that the years leave, and the one after it
last_months : month_start 9999 11 ≡ 334
unfolding month_start days_in_month
last_months = refl

last_year : days_in_year (1970 + 8029) ≡ 365
unfolding days_in_year
last_year = refl

pub to_days_last : suc (to_days 9999 12 31) ≡ year_start 8030
to_days_last =
    let whole : year_start 8030 ≡ year_start 8029 + days_in_year (1970 + 8029) =
      year_start-suc 8029 in
    omega (arith, whole, last_months, last_year)
