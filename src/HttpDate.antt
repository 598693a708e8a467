-- ===== src/HttpDate.antt =====
-- src/http_date.rs: seconds since 1970 as an HTTP date. The `i64` of the loops holds every day count
-- that a `u64` of seconds gives, so they are plain numbers here.
pub mod Calendar
pub mod Clock
mod Tests
use elrond.Base.{
  zero, suc, ◌+◌, ◌-◌, ◌/◌, ◌%◌, ◌^◌, Bool, true, false, not, ◌&&◌, ◌||◌, List, [], ◌∷◌, ◌++◌, ltb,
  ◌==◌, if◌then◌else◌, unwrap_or, get_elem?, Text, codes, padded,
}
use Prim.Native.Nat.{ℕ}

unfoldable pub is_leap : ℕ → Bool
is_leap y = (y % 4 == 0 && not (y % 100 == 0)) || y % 400 == 0

unfoldable pub year_length : ℕ → ℕ
year_length y = if is_leap y then 366 else 365

abbrev pub months : Bool → List ℕ
months true = 31 ∷ 29 ∷ 31 ∷ 30 ∷ 31 ∷ 30 ∷ 31 ∷ 31 ∷ 30 ∷ 31 ∷ 30 ∷ 31 ∷ []
months false = 31 ∷ 28 ∷ 31 ∷ 30 ∷ 31 ∷ 30 ∷ 31 ∷ 31 ∷ 30 ∷ 31 ∷ 30 ∷ 31 ∷ []

-- The first loop: the year, and the days left in it. A round takes a year off, so there are no more
-- rounds than days.
unfoldable pub year_loop : ℕ → ℕ → ℕ → ℕ × ℕ
year_loop zero days year = (year, days)
year_loop (suc fuel) days year =
    let rest = year_loop fuel (days - year_length year) (year + 1) in
    if ltb days (year_length year) then (year, days) else rest

-- the second loop: the month from 0, and the days left in it
unfoldable pub month_loop : ℕ → List ℕ → ℕ → ℕ × ℕ
month_loop days [] m = (m, days)
month_loop days (dm ∷ ms) m =
    let rest = month_loop (days - dm) ms (m + 1) in if ltb days dm then (m, days) else rest

-- Year, month from 1, day from 1. The year of the loop is an `i64`, and is cut to a `u32`.
unfoldable pub days_to_date : ℕ → ℕ × ℕ × ℕ
days_to_date days =
    let (year, in_year) = year_loop (suc days) days 1970 in
    let (m, in_month) = month_loop in_year (months (is_leap year)) 0 in
    (year % 2 ^ 32, m + 1, in_month + 1)

abbrev pub weekdays : List Text
weekdays =
    codes "Sun"
    ∷ codes "Mon"
    ∷ codes "Tue"
    ∷ codes "Wed"
    ∷ codes "Thu"
    ∷ codes "Fri"
    ∷ codes "Sat"
    ∷ []

abbrev pub month_names : List Text
month_names =
    codes "Jan"
    ∷ codes "Feb"
    ∷ codes "Mar"
    ∷ codes "Apr"
    ∷ codes "May"
    ∷ codes "Jun"
    ∷ codes "Jul"
    ∷ codes "Aug"
    ∷ codes "Sep"
    ∷ codes "Oct"
    ∷ codes "Nov"
    ∷ codes "Dec"
    ∷ []

-- The local variables of `format`; the weekday counts from Sunday.
pub record Fields : Type 0 where
  pub weekday : ℕ
  pub year : ℕ
  pub month : ℕ
  pub day : ℕ
  pub hour : ℕ
  pub minute : ℕ
  pub second : ℕ

unfoldable pub fields : ℕ → Fields
fields secs =
    let days = secs / 86400 in
    let tod = secs % 86400 in
    let (year, month, day) = days_to_date days in
    record {
      weekday = (days + 4) % 7;
      year = year;
      month = month;
      day = day;
      hour = tod / 3600;
      minute = tod % 3600 / 60;
      second = tod % 60;
    }

-- `names[i]`; the index is in range: see `Clock`
abbrev pub name_of : List Text → ℕ → Text
name_of names i = unwrap_or (get_elem? names i) []

unfoldable pub format : ℕ → Text
unfolding fields days_to_date year_loop month_loop year_length is_leap padded
format secs =
    let f = fields secs in
    name_of weekdays f.weekday
    ++ (codes ", "
        ++ (padded 2 f.day
            ++ (codes " "
                ++ (name_of month_names (f.month - 1)
                    ++ (codes " "
                        ++ (padded 4 f.year
                            ++ (codes " "
                                ++ (padded 2 f.hour
                                    ++ (codes ":"
                                        ++ (padded 2 f.minute
                                            ++ (codes ":"
                                                ++ (padded 2 f.second ++ codes " GMT"))))))))))))
