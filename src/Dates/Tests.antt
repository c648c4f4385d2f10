-- ===== src/Dates/Tests.antt =====
-- The dates of lib/bookingDates.ts at concrete inputs.
use whatsapp_bots_saa_s.Base.{◌<◌, ◌≡◌, refl, some, arith, negsuc}
use whatsapp_bots_saa_s.Text.{codes, pad_start, is_digit}
use whatsapp_bots_saa_s.Text.Decimal.{show, digits_fuel, read, read_from}
use whatsapp_bots_saa_s.Dates.Civil.{
  Date, YearMonth, is_leap, days_in, month_days, date_at, roll, year_arg, month_arg_index, new_date,
  days_before_year, days_before_month, ordinal, get_day,
}
use whatsapp_bots_saa_s.Dates.Ordinal.{IsDay}
use whatsapp_bots_saa_s.Dates.{
  to_date_string, month_arg, from_date_string, month_of, plus_delta, shift_month, last_day,
  month_end, leading,
}
use whatsapp_bots_saa_s.Dates.Grid.{IsMonth}
use whatsapp_bots_saa_s.Dates.Format.{from-to_date_string}

abbrev february : YearMonth
february = record { year = 2024; month0 = 1 }

february-IsMonth : IsMonth february
february-IsMonth = record { four_digits = omega arith; month = omega arith }

abbrev leap_day : Date
leap_day = record { year = 2024; month0 = 1; day = 29; time = 3600000 }

leap_day-IsDay : IsDay leap_day
unfolding days_in is_leap
leap_day-IsDay = record { month = omega arith; low = omega arith; high = omega arith }

abbrev midnight : Date
midnight = record { year = 2024; month0 = 1; day = 29; time = 0 }

midnight-IsDay : IsDay midnight
unfolding days_in is_leap
midnight-IsDay = record { month = omega arith; low = omega arith; high = omega arith }

date_tests :
    (to_date_string leap_day ≡ codes "2024-02-29")
    × (from_date_string (codes "2024-02-29") ≡ some midnight)
    × (from_date_string (codes "2024-02-30")
        ≡ some (record { year = 2024; month0 = 2; day = 1; time = 0 }))
    × (month_end february ≡ codes "2024-02-29")
    × (leading february ≡ 4)
    × (shift_month february (negsuc 1) ≡ record { year = 2023; month0 = 11 })
unfolding to_date_string from_date_string month_arg month_end last_day leading shift_month
    plus_delta month_of new_date roll year_arg month_arg_index date_at month_days days_in is_leap
    get_day ordinal days_before_year days_before_month show digits_fuel read read_from pad_start
    is_digit
date_tests = (refl, refl, refl, refl, refl, refl)

last_in_february : 28 < days_in 2024 1
unfolding days_in is_leap
last_in_february = omega arith

from-to_date_string_example :
    from_date_string (to_date_string leap_day) ≡ some (record leap_day { time = 0 })
from-to_date_string_example =
    from-to_date_string leap_day leap_day-IsDay (omega arith) (omega arith)
