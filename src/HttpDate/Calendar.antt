-- ===== src/HttpDate/Calendar.antt =====
-- Days and dates are in one-to-one correspondence.
use elrond.Base.{
  ℕ, zero, suc, ◌+◌, ◌-◌, ◌%◌, ◌^◌, ◌≤◌, ◌<◌, ◌≡◌, refl, inl, inr, some, List, [], ◌∷◌, arith, ltb,
  Bool-cases, get_elem?, take,
}
use Prim.Native.Nat.add
use elrond.HttpDate.{year_length, is_leap, months, year_loop, month_loop, days_to_date}

-- the days of the `k` years from `year` on
abbrev pub span : ℕ → ℕ → ℕ
span year zero = 0
span year (suc k) = year_length year + span (year + 1) k

abbrev pub sum : List ℕ → ℕ
sum [] = 0
sum (x ∷ xs) = x + sum xs

-- the days of the first `m` months
abbrev pub month_span : List ℕ → ℕ → ℕ
month_span ms m = sum (take m ms)

-- The days since 1970-01-01 of a date, its month and its day counted from 1.
abbrev pub ordinal : ℕ × ℕ × ℕ → ℕ
ordinal (year, month, day) =
    span 1970 (year - 1970) + month_span (months (is_leap year)) (month - 1) + (day - 1)

-- A date of the Gregorian calendar from 1970 on.
pub record IsDate (year month day : ℕ) : Type 0 where
  pub from_1970 : 1970 ≤ year
  pub month_ge : 1 ≤ month
  pub day_ge : 1 ≤ day
  pub length_of_month : ℕ
  pub month_in : get_elem? (months (is_leap year)) (month - 1) ≡ some length_of_month
  pub day_le : day ≤ length_of_month

abbrev pub IsDateOf : ℕ × ℕ × ℕ → Type 0
IsDateOf (year, month, day) = IsDate year month day

year_length_pos : (y : ℕ) → 365 ≤ year_length y
unfolding year_length
year_length_pos y = ground arith

sum-months : (y : ℕ) → sum (months (is_leap y)) ≡ year_length y
unfolding year_length
sum-months y = ground arith

-- what the year loop finds
record YearFound (days year : ℕ) (found : ℕ × ℕ) : Type 0 where
  passed : ℕ
  year_is : found.0 ≡ year + passed
  days_are : days ≡ span year passed + found.1
  in_year : found.1 < year_length found.0

year_loop-YearFound :
    (fuel days year : ℕ) → days < fuel → YearFound days year (year_loop fuel days year)
unfolding year_loop
year_loop-YearFound zero days year h = absurd (omega arith)
year_loop-YearFound (suc fuel) days year h = elim (Bool-cases (ltb days (year_length year))) [
  | inl now ↦
      rw now (record {
        passed = 0;
        year_is = omega arith;
        days_are = omega arith;
        in_year = ground arith;
      })
  | inr on ↦
      let r =
        year_loop-YearFound fuel (days - year_length year) (year + 1)
          (ground (arith, year_length_pos year)) in
      rw on (record {
        passed = suc r.passed;
        year_is = omega (arith, r.year_is);
        days_are = ground (arith, r.days_are);
        in_year = r.in_year;
      })
]

-- what the month loop finds among months that hold the days
record MonthFound (days : ℕ) (ms : List ℕ) (n : ℕ) (found : ℕ × ℕ) : Type 0 where
  passed : ℕ
  len : ℕ
  month_is : found.0 ≡ n + passed
  days_are : days ≡ month_span ms passed + found.1
  month_in : get_elem? ms passed ≡ some len
  in_month : found.1 < len

month_loop-MonthFound :
    (ms : List ℕ) (days n : ℕ) → days < sum ms → MonthFound days ms n (month_loop days ms n)
unfolding month_loop
month_loop-MonthFound [] days n h = absurd (omega arith)
month_loop-MonthFound (x ∷ ms) days n h = elim (Bool-cases (ltb days x)) [
  | inl now ↦ rw now (record {
    passed = 0;
    len = x;
    month_is = omega arith;
    days_are = omega arith;
    month_in = refl;
    in_month = ground arith;
  })
  | inr on ↦
      let r = month_loop-MonthFound ms (days - x) (n + 1) (ground arith) in
      rw on (record {
        passed = suc r.passed;
        len = r.len;
        month_is = omega (arith, r.month_is);
        days_are = ground (arith, r.days_are);
        month_in = r.month_in;
        in_month = r.in_month;
      })
]

found-IsDate :
    (days y r m q : ℕ)
    → YearFound days 1970 (y, r)
    → MonthFound r (months (is_leap y)) 0 (m, q)
    → IsDate y (m + 1) (q + 1) × (ordinal (y, m + 1, q + 1) ≡ days)
found-IsDate days y r m q yf mf =
    let years : y - 1970 ≡ yf.passed = omega (arith, yf.year_is) in
    let month : m + 1 - 1 ≡ mf.passed = omega (arith, mf.month_is) in
    let day : q + 1 - 1 ≡ q = omega arith in
    (
      record {
        from_1970 = omega (arith, yf.year_is);
        month_ge = omega arith;
        day_ge = omega arith;
        length_of_month = mf.len;
        month_in = rw month mf.month_in;
        day_le = omega (arith, mf.in_month);
      },
      rw (years, month, day) (omega (arith, yf.days_are, mf.days_are)),
    )

-- Every day count has its date: where the year fits a `u32`, `days_to_date` answers a date of the
-- calendar, with a month from 1 to 12 and a day that this month has in this year, and the days from
-- 1970-01-01 to it are that count.
pub ordinal-days_to_date :
    (days : ℕ)
    → (year_loop (suc days) days 1970).0 < 2 ^ 32
    → IsDateOf (days_to_date days) × (ordinal (days_to_date days) ≡ days)
unfolding days_to_date
ordinal-days_to_date days small =
    let found = year_loop (suc days) days 1970 in
    let yf = year_loop-YearFound (suc days) days 1970 (omega arith) in
    let mf =
      month_loop-MonthFound (months (is_leap found.0)) found.1 0
        (omega (arith, yf.in_year, sum-months found.0)) in
    let last = month_loop found.1 (months (is_leap found.0)) 0 in
    let fits : found.0 % 2 ^ 32 ≡ found.0 = omega (arith, small) in
    rw fits (found-IsDate days found.0 found.1 last.0 last.1 yf mf)
