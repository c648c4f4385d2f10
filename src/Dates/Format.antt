-- ===== src/Dates/Format.antt =====
-- `toDateString` and `fromDateString` of bookingDates.ts, one after the other.
use whatsapp_bots_saa_s.Base.{
  ℕ, suc, ◌+◌, ◌-◌, ◌*◌, ◌/◌, ◌%◌, ◌<◌, ◌≤◌, ◌≡◌, sym, ap, ◌∙◌, ◌↔◌, inl, inr, true, some, [], ◌∷◌,
  ◌++◌, arith, leb, leb→le, Bool-cases, pos,
}
use native.Mathlib.Nat.{zero-add}
use whatsapp_bots_saa_s.Text.{is_digit, pad_start}
use whatsapp_bots_saa_s.Text.Decimal.{digit, digits_fuel, show, read}
use whatsapp_bots_saa_s.Dates.Civil.{Date, new_date}
use whatsapp_bots_saa_s.Dates.Ordinal.{IsDay, days_in_bounds}
use whatsapp_bots_saa_s.Dates.Grid.{new_date_exact}
use whatsapp_bots_saa_s.Dates.{to_date_string, month_arg, from_date_string, same_day}

digits_one : (f n : ℕ) → n < 10 → digits_fuel (suc f) n ≡ digit n ∷ []
unfolding digits_fuel
digits_one f n h = ground arith

digits_more :
    (f n : ℕ) → 10 ≤ n → digits_fuel (suc f) n ≡ digits_fuel f (n / 10) ++ digit (n % 10) ∷ []
unfolding digits_fuel
digits_more f n h = ground arith

digits_two :
    (f n : ℕ)
    → 10 ≤ n
    → n < 100
    → digits_fuel (suc (suc f)) n ≡ digit (n / 10) ∷ digit (n % 10) ∷ []
digits_two f n h k =
    digits_more (suc f) n h
    ∙ ap (λ s. s ++ digit (n % 10) ∷ []) (digits_one f (n / 10) (omega arith))

digits_four :
    (f n : ℕ)
    → 1000 ≤ n
    → n < 10000
    → digits_fuel (suc (suc (suc (suc f)))) n
      ≡ digit (n / 10 / 10 / 10)
        ∷ digit (n / 10 / 10 % 10)
        ∷ digit (n / 10 % 10)
        ∷ digit (n % 10)
        ∷ []
digits_four f n h k =
    digits_more _ n (omega arith)
    ∙ ap (λ s. s ++ digit (n % 10) ∷ [])
        (digits_more _ (n / 10) (omega arith)
          ∙ ap (λ s. s ++ digit (n / 10 % 10) ∷ [])
              (digits_two f (n / 10 / 10) (omega arith) (omega arith)))

-- A year of four digits.
show_year :
    (n : ℕ)
    → 1000 ≤ n
    → n < 10000
    → show n
      ≡ digit (n / 10 / 10 / 10)
        ∷ digit (n / 10 / 10 % 10)
        ∷ digit (n / 10 % 10)
        ∷ digit (n % 10)
        ∷ []
unfolding show
show_year n h k =
    let e : suc n ≡ suc (suc (suc (suc (n - 3)))) = omega arith in
    ap (λ f. digits_fuel f n) e ∙ digits_four (n - 3) n h k

one_digit :
    (n : ℕ) → n < 10 → pad_start 2 b'0' (digit n ∷ []) ≡ digit (n / 10) ∷ digit (n % 10) ∷ []
unfolding pad_start
one_digit n h = let q : n / 10 ≡ 0 = omega arith in let r : n % 10 ≡ n = omega arith in rw (q, r)

-- A month or a day, padded to two digits.
pad_two : (n : ℕ) → n < 100 → pad_start 2 b'0' (show n) ≡ digit (n / 10) ∷ digit (n % 10) ∷ []
unfolding show pad_start
pad_two n h = elim (Bool-cases (leb 10 n)) [
  | inl two ↦
      let k : 10 ≤ n = leb→le _ _ two in
      let e : suc n ≡ suc (suc (n - 1)) = omega arith in
      ap (λ f. pad_start 2 b'0' (digits_fuel f n)) e
      ∙ ap (pad_start 2 b'0') (digits_two (n - 1) n k h)
  | inr one ↦ ap (pad_start 2 b'0') (digits_one n n (ground arith)) ∙ one_digit n (ground arith)
]

-- The text of a date in a year of four digits.
to_date_string_lem :
    (d : Date)
    → IsDay d
    → 1000 ≤ d.year
    → d.year < 10000
    → to_date_string d
      ≡ digit (d.year / 10 / 10 / 10)
        ∷ digit (d.year / 10 / 10 % 10)
        ∷ digit (d.year / 10 % 10)
        ∷ digit (d.year % 10)
        ∷ b'-'
        ∷ digit ((d.month0 + 1) / 10)
        ∷ digit ((d.month0 + 1) % 10)
        ∷ b'-'
        ∷ digit (d.day / 10)
        ∷ digit (d.day % 10)
        ∷ []
unfolding to_date_string
to_date_string_lem d v low high = rw (
  show_year d.year low high,
  pad_two (d.month0 + 1) (omega (arith, v.month)),
  pad_two d.day (omega (arith, v.high, days_in_bounds d.year d.month0)),
)

is_digit-digit : (x : ℕ) → x < 10 → is_digit (digit x) ≡ true
unfolding is_digit
is_digit-digit x h = ground arith

digit_value : (x : ℕ) → digit x - b'0' ≡ x
digit_value x = omega arith

-- What is read back from ten characters of the right form.
from_date_string_lem :
    (a b c d m n p q : ℕ)
    → a < 10
    → b < 10
    → c < 10
    → d < 10
    → m < 10
    → n < 10
    → p < 10
    → q < 10
    → from_date_string (
        digit a
        ∷ digit b
        ∷ digit c
        ∷ digit d
        ∷ b'-'
        ∷ digit m
        ∷ digit n
        ∷ b'-'
        ∷ digit p
        ∷ digit q
        ∷ [])
      ≡ some (new_date (((a * 10 + b) * 10 + c) * 10 + d) (month_arg (m * 10 + n)) (p * 10 + q))
unfolding from_date_string read
from_date_string_lem a b c d m n p q ha hb hc hd hm hn hp hq =
    rw
      (
        is_digit-digit a ha,
        is_digit-digit b hb,
        is_digit-digit c hc,
        is_digit-digit d hd,
        is_digit-digit m hm,
        is_digit-digit n hn,
        is_digit-digit p hp,
        is_digit-digit q hq,
      )
      (simp (digit_value, zero-add))

new_date_parts :
    {y y' k m d d' : ℕ}
    → y ≡ y'
    → k ≡ suc m
    → d ≡ d'
    → new_date y (month_arg k) d ≡ new_date y' (pos m) d'
unfolding month_arg
new_date_parts e f g = rw (e, f, g)

same_text :
    (a b : Date)
    → a.year ≡ b.year
    → a.month0 ≡ b.month0
    → a.day ≡ b.day
    → to_date_string a ≡ to_date_string b
unfolding to_date_string
same_text a b e f g = rw (e, f, g)

-- Reading the text of a day of the calendar gives the day back, at midnight. The year has four
-- digits: the text of any other year is not in the form that is read.
pub from-to_date_string :
    (d : Date)
    → IsDay d
    → 1000 ≤ d.year
    → d.year < 10000
    → from_date_string (to_date_string d) ≡ some (record d { time = 0 })
from-to_date_string d v low high = rw (to_date_string_lem d v low high) (
    from_date_string_lem _ _ _ _ _ _ _ _ (omega arith) (omega arith) (omega arith) (omega arith)
      (omega (arith, v.month)) (omega arith) (omega (arith, v.high, days_in_bounds d.year d.month0))
      (omega arith)
    ∙ ap some (
        new_date_parts (omega arith) (omega arith) (omega arith)
        ∙ new_date_exact d.year d.month0 d.day (omega arith) v.month v.low v.high))

-- `sameDay` says of two days of the calendar exactly whether their texts are equal, whatever the
-- times of the day.
pub same_day-to_date_string_iff :
    (a b : Date)
    → IsDay a
    → IsDay b
    → 1000 ≤ a.year
    → a.year < 10000
    → 1000 ≤ b.year
    → b.year < 10000
    → (same_day a b ≡ true) ↔ (to_date_string a ≡ to_date_string b)
unfolding same_day
same_day-to_date_string_iff a b v w la ha lb hb = (
  λ e. same_text a b (ground arith) (ground arith) (ground arith),
  λ e.
      let same : some (record a { time = 0 }) ≡ some (record b { time = 0 }) =
        sym (from-to_date_string a v la ha)
        ∙ ap from_date_string e
        ∙ from-to_date_string b w lb hb in
      ground arith,
)
