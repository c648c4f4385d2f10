-- ===== src/Dates/Ordinal.antt =====
-- The calendar arithmetic of `new Date`: each overflow of the day lands on the right day.
use mathlib.Core.Path.{ap₂}
use native.Mathlib.Decide.{dec_lt}
use native.Mathlib.Nat.{le_refl, zero-add}
use whatsapp_bots_saa_s.Base.{
  ℕ, zero, suc, ◌+◌, ◌-◌, ◌*◌, ◌/◌, ◌%◌, ◌<◌, ◌≤◌, ◌≡◌, refl, sym, ap, ◌∙◌, inl, inr, arith, leb,
  if◌then◌else◌, leb→le, Bool-cases, pos,
}
use whatsapp_bots_saa_s.Dates.Civil.{
  Date, is_leap, days_in, month_days, date_at, roll, year_arg, month_arg_index, new_date,
  days_before_year, days_before_month, ordinal,
}

-- A day that the calendar has.
pub record IsDay (d : Date) : Type 0 where
  pub month : d.month0 < 12
  pub low : 1 ≤ d.day
  pub high : d.day ≤ days_in d.year d.month0

pub days_in_bounds : (y m : ℕ) → (28 ≤ days_in y m) × (days_in y m ≤ 31)
unfolding days_in
days_in_bounds y m = ground arith

-- The days before month `i`, counted from the year 0.
unfoldable pub month_offset : ℕ → ℕ
month_offset i = days_before_year (i / 12) + days_before_month (i / 12) (i % 12)

year_length :
    (y : ℕ) → days_before_year (suc y) ≡ days_before_year y + (if is_leap y then 366 else 365)
unfolding days_before_year is_leap
year_length y = ground arith

eleven_months : (y : ℕ) → days_before_month y 11 + days_in y 11 ≡ (if is_leap y then 366 else 365)
unfolding days_before_month days_in
eleven_months y = ground arith

pub month_days_lem : (i : ℕ) → month_days i ≡ days_in (i / 12) (i % 12)
unfolding month_days
month_days_lem i = refl

same_year : (i : ℕ) → i % 12 < 11 → month_offset (i + 1) ≡ month_offset i + month_days i
unfolding month_offset days_before_month
same_year i h =
    let q : (i + 1) / 12 ≡ i / 12 = omega arith in
    let r : (i + 1) % 12 ≡ suc (i % 12) = omega arith in
    rw (month_days_lem i) (rw (q, r) (omega arith))

next_year : (i : ℕ) → i % 12 ≡ 11 → month_offset (i + 1) ≡ month_offset i + month_days i
unfolding month_offset days_before_month
next_year i h =
    let q : (i + 1) / 12 ≡ suc (i / 12) = omega arith in
    let r : (i + 1) % 12 ≡ 0 = omega arith in
    rw (month_days_lem i)
      (rw (q, r, h) (omega (arith, year_length (i / 12), eleven_months (i / 12))))

-- Month by month the offsets add up, across the end of a year too.
pub month_offset_suc : (i : ℕ) → month_offset (i + 1) ≡ month_offset i + month_days i
month_offset_suc i = elim (dec_lt (i % 12) 11) [
  | yes h ↦ same_year i h
  | no h ↦ next_year i (omega arith)
]

pub ordinal-date_at : (i d : ℕ) → ordinal (date_at i d) ≡ month_offset i + d
unfolding ordinal date_at month_offset
ordinal-date_at i d = refl

pub date_at-IsDay : (i d : ℕ) → 1 ≤ d → d ≤ month_days i → IsDay (date_at i d)
unfolding date_at
date_at-IsDay i d low high = record {
  month = omega arith;
  low = low;
  high = rw (← month_days_lem i) high;
}

pub month_days_bounds : (i : ℕ) → (28 ≤ month_days i) × (month_days i ≤ 31)
month_days_bounds i = rw (month_days_lem i) (days_in_bounds (i / 12) (i % 12))

-- `roll` lands on a day of the calendar, the one `d` days after the last day of month `i - 1`.
pub roll_lem :
    (f i d : ℕ) → 1 ≤ d → d ≤ f → IsDay (roll f i d) × (ordinal (roll f i d) ≡ month_offset i + d)
unfolding roll
roll_lem zero i d h k = absurd (omega arith)
roll_lem (suc f) i d h k = elim (Bool-cases (leb d (month_days i))) [
  | inl inside ↦ rw inside (date_at-IsDay i d h (leb→le _ _ inside), ordinal-date_at i d)
  | inr past ↦
      let long : month_days i < d = ground arith in
      let (day, at) =
        roll_lem f (i + 1) (d - month_days i) (omega arith) (omega (arith, month_days_bounds i)) in
      rw past (day, omega (arith, month_offset_suc i))
]

new_date_index :
    (y m d : ℕ) → 100 ≤ y → new_date y (pos m) (suc d) ≡ roll (suc d) (12 * y + m) (suc d)
unfolding new_date month_arg_index year_arg
new_date_index y m d h = ap (λ i. roll (suc d) i (suc d)) (ground arith)

pub new_date_lem :
    (y m d : ℕ)
    → 100 ≤ y
    → 1 ≤ d
    → IsDay (new_date y (pos m) d)
      × (ordinal (new_date y (pos m) d) ≡ month_offset (12 * y + m) + d)
new_date_lem y m zero h k = elim k [ ]
new_date_lem y m (suc d) h k =
    rw (new_date_index y m d h) (roll_lem (suc d) (12 * y + m) (suc d) (omega arith) (le_refl _))

-- A day of the calendar lies in its month: after the days before the month, at most at its end.
pub ordinal_of_IsDay :
    (d : Date)
    → IsDay d
    → (ordinal d ≡ month_offset (12 * d.year + d.month0) + d.day)
      × (month_offset (12 * d.year + d.month0 + 1)
          ≡ month_offset (12 * d.year + d.month0) + days_in d.year d.month0)
unfolding ordinal month_offset
ordinal_of_IsDay d v =
    let q : (12 * d.year + d.month0) / 12 ≡ d.year = omega arith in
    let r : (12 * d.year + d.month0) % 12 ≡ d.month0 = omega arith in
    (
      sym (ap₂ (λ y m. days_before_year y + days_before_month y m + d.day) q r),
      month_offset_suc _
          ∙ ap (λ t. month_offset (12 * d.year + d.month0) + t)
              (month_days_lem (12 * d.year + d.month0) ∙ ap₂ days_in q r),
    )

pub month_offset_mono : (i n : ℕ) → month_offset i ≤ month_offset (n + i)
month_offset_mono i zero = rw zero-add (le_refl _)
month_offset_mono i (suc n) =
    let e : suc n + i ≡ n + i + 1 = omega arith in
    rw e (omega (arith, month_offset_mono i n, month_offset_suc (n + i)))
