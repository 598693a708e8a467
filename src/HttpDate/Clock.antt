-- ===== src/HttpDate/Clock.antt =====
-- The fields that `format` prints stand for the second that it is given.
use elrond.Base.{ℕ, suc, ◌+◌, ◌*◌, ◌/◌, ◌%◌, ◌^◌, ◌<◌, ◌≡◌, sym, arith}
use elrond.HttpDate.{year_loop, fields, Fields, days_to_date}
use elrond.HttpDate.Calendar.{IsDate, ordinal, ordinal-days_to_date}

-- A date and a time of day, each in its range; the weekday is counted from Sunday.
pub record IsMoment (f : Fields) : Type 0 where
  pub is_date : IsDate f.year f.month f.day
  pub hour_lt : f.hour < 24
  pub minute_lt : f.minute < 60
  pub second_lt : f.second < 60
  pub weekday_lt : f.weekday < 7

-- the seconds since 1970 of a moment
abbrev pub seconds_of : Fields → ℕ
seconds_of f = ordinal (f.year, f.month, f.day) * 86400 + f.hour * 3600 + f.minute * 60 + f.second

fields_of_days :
    (secs y m d : ℕ)
    → IsDate y m d × (ordinal (y, m, d) ≡ secs / 86400)
    → secs
      ≡ ordinal (y, m, d) * 86400
        + secs % 86400 / 3600 * 3600
        + secs % 86400 % 3600 / 60 * 60
        + secs % 86400 % 60
fields_of_days secs y m d (v, e) = rw e (omega arith)

-- For every second of a year that fits a `u32` the fields are a calendar date and a time of day in range, they stand for exactly
-- that second, and the weekday is right, counted on from Thursday 1970-01-01.
pub fields-IsMoment :
    (secs : ℕ)
    → (year_loop (suc (secs / 86400)) (secs / 86400) 1970).0 < 2 ^ 32
    → IsMoment (fields secs)
      × (seconds_of (fields secs) ≡ secs)
      × ((fields secs).weekday
          ≡ (4 + ordinal ((fields secs).year, (fields secs).month, (fields secs).day)) % 7)
unfolding fields
fields-IsMoment secs small =
    let (date, e) = ordinal-days_to_date (secs / 86400) small in
    let d = days_to_date (secs / 86400) in
    (
      record {
        is_date = date;
        hour_lt = omega arith;
        minute_lt = omega arith;
        second_lt = omega arith;
        weekday_lt = omega arith;
      },
      sym (fields_of_days secs d.0 d.1 d.2 (date, e)),
      omega (arith, e),
    )
