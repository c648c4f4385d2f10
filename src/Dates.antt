-- ===== src/Dates.antt =====
-- frontend/src/lib/bookingDates.ts: calendar days at local midnight and the month grid.
-- A JavaScript `Date` is its local wall-clock fields. Years are natural numbers; a call that would
-- reach a year before 0 lies outside the model.
mod Tests
pub mod Civil
pub mod Ordinal
pub mod Grid
pub mod Months
pub mod Format
use whatsapp_bots_saa_s.Base.{
  ℕ, zero, suc, ◌+◌, ◌-◌, Bool, ◌&&◌, Option, none, some, List, [], ◌∷◌, ◌++◌, leb, ◌==◌,
  if◌then◌else◌, ℤ, pos, negsuc, replicate, all,
}
use whatsapp_bots_saa_s.Text.{Text, is_digit, pad_start}
use whatsapp_bots_saa_s.Text.Decimal.{show, read}
use whatsapp_bots_saa_s.Dates.Civil.{Date, YearMonth, new_date, get_day}

-- `d.getMonth() + 1` and `d.getDate()` are padded; the year is not.
unfoldable pub to_date_string : Date → Text
to_date_string d =
    show d.year
    ++ b'-' ∷ (pad_start 2 b'0' (show (d.month0 + 1)) ++ b'-' ∷ pad_start 2 b'0' (show d.day))

-- `Number(m) - 1`, where "00" gives -1.
unfoldable pub month_arg : ℕ → ℤ
month_arg zero = negsuc 0
month_arg (suc m) = pos m

-- The regular expression has ten places; anything else is `undefined`.
unfoldable pub from_date_string : Text → Option Date
from_date_string (a ∷ b ∷ c ∷ d ∷ h ∷ m ∷ n ∷ k ∷ p ∷ q ∷ []) =
    if all is_digit (a ∷ b ∷ c ∷ d ∷ m ∷ n ∷ p ∷ q ∷ []) && h == b'-' && k == b'-'
    then some
        (new_date (read (a ∷ b ∷ c ∷ d ∷ [])) (month_arg (read (m ∷ n ∷ []))) (read (p ∷ q ∷ [])))
    else none
from_date_string _ = none

-- `now` is the clock's local date and time.
unfoldable pub today_midnight : Date → Date
today_midnight now = new_date now.year (pos now.month0) now.day

unfoldable pub add_days : Date → ℕ → Date
add_days base n = new_date base.year (pos base.month0) (base.day + n)

unfoldable pub month_of : Date → YearMonth
month_of d = record { year = d.year; month0 = d.month0 }

-- `ym.month0 + delta`.
unfoldable pub plus_delta : ℕ → ℤ → ℤ
plus_delta m (pos n) = pos (m + n)
plus_delta m (negsuc n) = if leb (suc n) m then pos (m - suc n) else negsuc (n - m)

unfoldable pub shift_month : YearMonth → ℤ → YearMonth
shift_month ym delta = month_of (new_date ym.year (plus_delta ym.month0 delta) 1)

unfoldable pub month_start : YearMonth → Text
month_start ym = to_date_string (new_date ym.year (pos ym.month0) 1)

unfoldable pub last_day : YearMonth → Date
last_day ym = new_date ym.year (pos (ym.month0 + 1)) 0

unfoldable pub month_end : YearMonth → Text
month_end ym = to_date_string (last_day ym)

-- The second loop of `monthGrid`: the days from `day` on, `n` of them.
unfoldable pub grid_days : YearMonth → ℕ → ℕ → List (Option Date)
grid_days ym day zero = []
grid_days ym day (suc n) = some (new_date ym.year (pos ym.month0) day) ∷ grid_days ym (day + 1) n

unfoldable pub leading : YearMonth → ℕ
leading ym = get_day (new_date ym.year (pos ym.month0) 1)

unfoldable pub month_grid : YearMonth → List (Option Date)
month_grid ym = replicate (leading ym) none ++ grid_days ym 1 (last_day ym).day

unfoldable pub same_day : Date → Date → Bool
same_day a b = a.year == b.year && a.month0 == b.month0 && a.day == b.day
