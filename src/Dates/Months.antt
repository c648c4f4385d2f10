-- ===== src/Dates/Months.antt =====
-- Stepping by months and by days in bookingDates.ts, and the range of days that a month covers.
use whatsapp_bots_saa_s.Base.{
  ℕ, ◌+◌, ◌-◌, ◌*◌, ◌<◌, ◌≤◌, ◌≡◌, sym, ap, ◌∙◌, ◌↔◌, arith, ℤ, pos, negsuc, pos_part, neg_part,
}
use whatsapp_bots_saa_s.Dates.Civil.{
  Date, YearMonth, days_in, date_at, roll, year_arg, month_arg_index, new_date, ordinal,
}
use whatsapp_bots_saa_s.Dates.Ordinal.{
  IsDay, ordinal_of_IsDay, month_offset_mono, days_in_bounds, month_days_bounds, month_offset,
  new_date_lem,
}
use whatsapp_bots_saa_s.Dates.{add_days, month_of, shift_month, plus_delta, last_day}
use whatsapp_bots_saa_s.Dates.Grid.{IsMonth, day_of, last_day_exact}
use native.Mathlib.Decide.{dec_lt}
use native.Mathlib.Nat.{le_refl}

shift_index :
    (ym : YearMonth) (delta : ℤ)
    → IsMonth ym
    → neg_part delta ≤ 12 * ym.year + ym.month0
    → month_arg_index ym.year (plus_delta ym.month0 delta) + neg_part delta
      ≡ 12 * ym.year + ym.month0 + pos_part delta
unfolding month_arg_index year_arg plus_delta
shift_index ym (pos n) v h = ground arith
shift_index ym (negsuc n) v h = ground arith

roll_first : (i : ℕ) → roll 1 i 1 ≡ date_at i 1
unfolding roll
roll_first i = ground (arith, month_days_bounds i)

shift_month_at :
    (ym : YearMonth) (delta : ℤ)
    → shift_month ym delta
      ≡ month_of (date_at (month_arg_index ym.year (plus_delta ym.month0 delta)) 1)
unfolding shift_month new_date
shift_month_at ym delta = ap month_of (roll_first _)

-- In a year from 100 on, and not back past year 0, stepping by `delta` months moves the number of
-- the month by exactly `delta`, across years too, and gives a month from 0 to 11.
pub shift_month_lem :
    (ym : YearMonth) (delta : ℤ)
    → IsMonth ym
    → neg_part delta ≤ 12 * ym.year + ym.month0
    → ((shift_month ym delta).month0 < 12)
      × (12 * (shift_month ym delta).year + (shift_month ym delta).month0 + neg_part delta
          ≡ 12 * ym.year + ym.month0 + pos_part delta)
unfolding month_of date_at
shift_month_lem ym delta v h =
    rw (shift_month_at ym delta) (omega (arith, shift_index ym delta v h))

-- From a year of at least 100, moving on by `n` days gives a day of the calendar, `n` days later in the count of all days.
pub add_days_lem :
    (base : Date) (n : ℕ)
    → 100 ≤ base.year
    → IsDay base
    → IsDay (add_days base n) × (ordinal (add_days base n) ≡ ordinal base + n)
unfolding add_days
add_days_lem base n h v =
    let (day, at) = new_date_lem base.year base.month0 (base.day + n) h (omega (arith, v.low)) in
    (day, omega (arith, at, (ordinal_of_IsDay base v).0))

first_ordinal :
    (ym : YearMonth)
    → IsMonth ym
    → ordinal (new_date ym.year (pos ym.month0) 1) ≡ month_offset (12 * ym.year + ym.month0) + 1
first_ordinal ym v = (new_date_lem ym.year ym.month0 1 v.four_digits (omega arith)).1

last_ordinal :
    (ym : YearMonth)
    → IsMonth ym
    → ordinal (last_day ym) ≡ month_offset (12 * ym.year + ym.month0 + 1)
last_ordinal ym v =
    let d = day_of ym (days_in ym.year ym.month0) in
    let (at, next) = ordinal_of_IsDay d (record {
      month = v.month;
      low = omega (arith, days_in_bounds ym.year ym.month0);
      high = le_refl _;
    }) in
    ap ordinal (last_day_exact ym v) ∙ at ∙ sym next

same_month : (i j a b : ℕ) → i < 12 → j < 12 → 12 * a + i ≡ 12 * b + j → (a ≡ b) × (i ≡ j)
same_month i j a b h k e = (omega arith, omega arith)

-- The month index of a day between the two ends of month `i` is `i`.
between_offsets :
    (i j day : ℕ)
    → 1 ≤ day
    → month_offset j + day ≤ month_offset (j + 1)
    → month_offset i + 1 ≤ month_offset j + day
    → month_offset j + day ≤ month_offset (i + 1)
    → j ≡ i
between_offsets i j day low high after before = elim (dec_lt j i) [
  | yes h ↦
      let e : i - (j + 1) + (j + 1) ≡ i = omega arith in
      absurd (omega (arith, rw e at (month_offset_mono (j + 1) (i - (j + 1)))))
  | no h ↦ elim (dec_lt i j) [
    | yes k ↦
        let e : j - (i + 1) + (i + 1) ≡ j = omega arith in
        absurd (omega (arith, rw e at (month_offset_mono (i + 1) (j - (i + 1)))))
    | no k ↦ omega arith
  ]
]

-- In a year from 100 on, the days of `monthStart` and `monthEnd` are the first and the last day of the month: a day of the calendar
-- lies between them exactly when it is a day of that month.
pub month_range_iff :
    (ym : YearMonth) (d : Date)
    → IsMonth ym
    → IsDay d
    → ((d.year ≡ ym.year) × (d.month0 ≡ ym.month0)) ↔ (
        (ordinal (new_date ym.year (pos ym.month0) 1) ≤ ordinal d)
        × (ordinal d ≤ ordinal (last_day ym)))
month_range_iff ym d v w =
    let (at, next) = ordinal_of_IsDay d w in
    let i = 12 * ym.year + ym.month0 in
    let j = 12 * d.year + d.month0 in
    (
      λ h.
          let e : i ≡ j = omega arith in
          (
            omega (arith, first_ordinal ym v, ap month_offset e, w.low),
            omega (arith, last_ordinal ym v, ap (λ (t : ℕ). month_offset (t + 1)) e, w.high),
          ),
      λ h. same_month _ _ _ _ w.month v.month (
          between_offsets i j d.day w.low (omega (arith, w.high))
            (omega (arith, first_ordinal ym v, h.0)) (omega (arith, last_ordinal ym v, h.1))),
    )
