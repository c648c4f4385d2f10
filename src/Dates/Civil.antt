-- ===== src/Dates/Civil.antt =====
-- The calendar behind JavaScript's `new Date(year, month, day)` in local time, and `getDay`.
use whatsapp_bots_saa_s.Base.{
  ℕ, zero, suc, ◌+◌, ◌-◌, ◌*◌, ◌/◌, ◌%◌, Bool, not, ◌&&◌, ◌||◌, leb, ◌==◌, if◌then◌else◌, ℤ,
  pos_part, neg_part,
}

-- The local fields of a date: `month0` counts from 0, `day` from 1, `time` in milliseconds.
pub record Date : Type 0 where
  pub year : ℕ
  pub month0 : ℕ
  pub day : ℕ
  pub time : ℕ

pub record YearMonth : Type 0 where
  pub year : ℕ
  pub month0 : ℕ

unfoldable pub is_leap : ℕ → Bool
is_leap y = y % 4 == 0 && (not (y % 100 == 0) || y % 400 == 0)

unfoldable pub days_in : ℕ → ℕ → ℕ
days_in y m =
    if m == 1
    then if is_leap y then 29 else 28
    else if m == 3 || m == 5 || m == 8 || m == 10
    then 30
    else 31

-- Months are numbered through the years: month `i` is month `i % 12` of year `i / 12`.
unfoldable pub month_days : ℕ → ℕ
month_days i = days_in (i / 12) (i % 12)

unfoldable pub date_at : ℕ → ℕ → Date
date_at i d = record { year = i / 12; month0 = i % 12; day = d; time = 0 }

-- A day past the end of the month runs over into the next months; each has a day at least, so
-- `d` rounds are enough.
unfoldable pub roll : ℕ → ℕ → ℕ → Date
roll zero i d = date_at i d
roll (suc f) i d =
    let rest = roll f (i + 1) (d - month_days i) in
    if leb d (month_days i) then date_at i d else rest

-- The years 0 to 99 as an argument stand for 1900 to 1999.
unfoldable pub year_arg : ℕ → ℕ
year_arg y = if leb y 99 then 1900 + y else y

unfoldable pub month_arg_index : ℕ → ℤ → ℕ
month_arg_index y m = 12 * year_arg y + pos_part m - neg_part m

-- `new Date(y, m, d)`; day 0 is the last day of the month before.
unfoldable pub new_date : ℕ → ℤ → ℕ → Date
new_date y m zero = date_at (month_arg_index y m - 1) (month_days (month_arg_index y m - 1))
new_date y m (suc d) = roll (suc d) (month_arg_index y m) (suc d)

-- Days before a year, counted from the year 0, and before a month of a year.
unfoldable pub days_before_year : ℕ → ℕ
days_before_year y = 365 * y + (y + 3) / 4 + (y + 399) / 400 - (y + 99) / 100

unfoldable pub days_before_month : ℕ → ℕ → ℕ
days_before_month y zero = 0
days_before_month y (suc m) = days_before_month y m + days_in y m

unfoldable pub ordinal : Date → ℕ
ordinal d = days_before_year d.year + days_before_month d.year d.month0 + d.day

-- 0 is Sunday. The first day of the year 0 is a Saturday.
unfoldable pub get_day : Date → ℕ
get_day d = (ordinal d + 5) % 7
