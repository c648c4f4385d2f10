-- ===== src/Dates/Grid.antt =====
-- The month grid of bookingDates.ts: its cells, their columns, and stepping from month to month.
use whatsapp_bots_saa_s.Base.{
  ℕ, zero, suc, ◌+◌, ◌-◌, ◌*◌, ◌%◌, ◌<◌, ◌≤◌, ◌≡◌, refl, sym, ap, ◌∙◌, Option, none, some, List,
  ◌++◌, arith, pos, length, get_elem?, replicate, length-append, length-replicate,
  get_elem?-append_right, get_elem?-append_left, get_elem?-replicate,
}
use mathlib.Core.Path.{ap₂}
use whatsapp_bots_saa_s.Dates.Civil.{
  Date, YearMonth, days_in, month_days, date_at, roll, year_arg, month_arg_index, new_date, ordinal,
  get_day,
}
use whatsapp_bots_saa_s.Dates.Ordinal.{days_in_bounds, month_days_lem}
use whatsapp_bots_saa_s.Dates.{last_day, grid_days, leading, month_grid}

-- The day `d` of the month, as a date at midnight.
abbrev pub day_of : YearMonth → ℕ → Date
day_of ym d = record { year = ym.year; month0 = ym.month0; day = d; time = 0 }

-- A month that `new Date` takes as it is written.
pub record IsMonth (ym : YearMonth) : Type 0 where
  pub four_digits : 100 ≤ ym.year
  pub month : ym.month0 < 12

month_days-index : (y m : ℕ) → m < 12 → month_days (12 * y + m) ≡ days_in y m
month_days-index y m h = month_days_lem (12 * y + m) ∙ ap₂ days_in (omega arith) (omega arith)

pub date_at-index :
    (y m d : ℕ)
    → m < 12
    → date_at (12 * y + m) d ≡ record { year = y; month0 = m; day = d; time = 0 }
unfolding date_at
date_at-index y m d h = ground arith

pub new_date_exact :
    (y m d : ℕ)
    → 100 ≤ y
    → m < 12
    → 1 ≤ d
    → d ≤ days_in y m
    → new_date y (pos m) d ≡ record { year = y; month0 = m; day = d; time = 0 }
unfolding new_date roll month_arg_index year_arg
new_date_exact y m zero h k l u = elim l [ ]
new_date_exact y m (suc d) h k l u = ground (arith, month_days-index y m, date_at-index y m (suc d))

pub last_day_exact :
    (ym : YearMonth) → IsMonth ym → last_day ym ≡ day_of ym (days_in ym.year ym.month0)
unfolding last_day new_date month_arg_index year_arg
last_day_exact ym v =
    let i : month_arg_index ym.year (pos (ym.month0 + 1)) - 1 ≡ 12 * ym.year + ym.month0 =
      ground arith in
    ap₂ date_at i (ap month_days i ∙ month_days-index ym.year ym.month0 v.month)
    ∙ date_at-index ym.year ym.month0 _ v.month

get_elem?-grid_days :
    (ym : YearMonth) (d n i : ℕ)
    → i < n
    → get_elem? (grid_days ym d n) i ≡ some (some (new_date ym.year (pos ym.month0) (d + i)))
unfolding grid_days
get_elem?-grid_days ym d zero i h = elim h [ ]
get_elem?-grid_days ym d (suc n) zero h =
    ap (λ t. some (some (new_date ym.year (pos ym.month0) t))) (omega arith)
get_elem?-grid_days ym d (suc n) (suc i) h =
    get_elem?-grid_days ym (d + 1) n i (omega arith)
    ∙ ap (λ t. some (some (new_date ym.year (pos ym.month0) t))) (omega arith)

length-grid_days : (ym : YearMonth) (d n : ℕ) → length (grid_days ym d n) ≡ n
unfolding grid_days
length-grid_days ym d zero = refl
length-grid_days ym d (suc n) = ap suc (length-grid_days ym (d + 1) n)

pub ordinal_of_day :
    (ym : YearMonth) (d : ℕ) → ordinal (day_of ym d) + 1 ≡ ordinal (day_of ym 1) + d
unfolding ordinal
ordinal_of_day ym d = omega arith

grid_cell :
    (ym : YearMonth) (k : ℕ)
    → IsMonth ym
    → k < days_in ym.year ym.month0
    → get_elem? (month_grid ym) (leading ym + k) ≡ some (some (day_of ym (k + 1)))
unfolding month_grid
grid_cell ym k v h =
    let blanks : List (Option Date) = replicate (leading ym) none in
    let days = grid_days ym 1 (last_day ym).day in
    let n : (last_day ym).day ≡ days_in ym.year ym.month0 = ap (λ d. d.day) (last_day_exact ym v) in
    ap (λ t. get_elem? (blanks ++ days) (t + k)) (sym (length-replicate (leading ym) none))
    ∙ get_elem?-append_right blanks days k
    ∙ get_elem?-grid_days ym 1 (last_day ym).day k (omega arith)
    ∙ ap (λ t. some (some (new_date ym.year (pos ym.month0) t))) (omega arith)
    ∙ ap (λ d. some (some d))
        (new_date_exact ym.year ym.month0 (k + 1) v.four_digits v.month (omega arith) (omega arith))

leading_lem : (ym : YearMonth) → IsMonth ym → leading ym ≡ (ordinal (day_of ym 1) + 5) % 7
unfolding leading get_day
leading_lem ym v =
    ap (λ d. (ordinal d + 5) % 7)
      (new_date_exact ym.year ym.month0 1 v.four_digits v.month (omega arith)
        (omega (arith, days_in_bounds ym.year ym.month0)))

-- In a month of a year from 100 on, the cell `k` places after the leading blanks is day `k + 1` of
-- the month, and it stands in the column of its weekday, Sunday first.
pub month_grid_aligned :
    (ym : YearMonth) (k : ℕ)
    → IsMonth ym
    → k < days_in ym.year ym.month0
    → (get_elem? (month_grid ym) (leading ym + k) ≡ some (some (day_of ym (k + 1))))
      × (get_day (day_of ym (k + 1)) ≡ (leading ym + k) % 7)
unfolding get_day
month_grid_aligned ym k v h =
    (grid_cell ym k v h, omega (arith, leading_lem ym v, ordinal_of_day ym (k + 1)))

-- In a year from 100 on, the grid holds fewer than seven blanks, then one cell for each day of the
-- month, and no more.
pub length-month_grid :
    (ym : YearMonth)
    → IsMonth ym
    → (length (month_grid ym) ≡ leading ym + days_in ym.year ym.month0)
      × (leading ym < 7)
      × ((i : ℕ) → i < leading ym → get_elem? (month_grid ym) i ≡ some none)
unfolding month_grid
length-month_grid ym v = (
  omega (
    arith,
    length-append (replicate (leading ym) none) (grid_days ym 1 (last_day ym).day),
    length-replicate {A = Option Date} (leading ym) none,
    length-grid_days ym 1 (last_day ym).day,
    ap (λ (d : Date). d.day) (last_day_exact ym v),
  ),
  omega (arith, leading_lem ym v),
  λ i h.
      get_elem?-append_left _ _ i (rw (length-replicate {A = Option Date} (leading ym) none) h)
      ∙ get_elem?-replicate (leading ym) i h,
)
