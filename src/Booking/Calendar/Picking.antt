-- ===== src/Booking/Calendar/Picking.antt =====
-- What a click in the calendar of AvailabilityCalendar.tsx picks.
use whatsapp_bots_saa_s.Base.{
  ℕ, zero, suc, ◌+◌, ◌<◌, ◌≡◌, refl, ap, ◌∙◌, ◌&&◌, Option, none, some, List, [], ◌∷◌, arith, leb,
  if◌then◌else◌, get_elem?,
}
use mathlib.Core.Option.{some-injective}
use whatsapp_bots_saa_s.Text.{Text, mem_text}
use whatsapp_bots_saa_s.Dates.Civil.{Date, YearMonth, ordinal, days_in}
use whatsapp_bots_saa_s.Dates.{to_date_string, month_grid, leading}
use whatsapp_bots_saa_s.Dates.Grid.{IsMonth, day_of, month_grid_aligned, length-month_grid}
use whatsapp_bots_saa_s.Booking.Calendar.{
  is_before, DayCell, day_cell, day_cells, calendar, on_cell, click_day,
}

abbrev cell_of : Date → List Text → Text → Option Date → Option DayCell
cell_of today available value none = none
cell_of today available value (some d) = some (day_cell today available value d)

get_elem?-day_cells :
    (today : Date) (available : List Text) (value : Text) (cells : List (Option Date)) (i : ℕ)
    {c : Option Date}
    → get_elem? cells i ≡ some c
    → get_elem? (day_cells today available value cells) i ≡ some (cell_of today available value c)
unfolding day_cells
get_elem?-day_cells today available value [] i h = cc
get_elem?-day_cells today available value (none ∷ cells) zero h =
    ap (λ o. some (cell_of today available value o)) (some-injective _ _ h)
get_elem?-day_cells today available value (some d ∷ cells) zero h =
    ap (λ o. some (cell_of today available value o)) (some-injective _ _ h)
get_elem?-day_cells today available value (none ∷ cells) (suc i) h =
    get_elem?-day_cells today available value cells i h
get_elem?-day_cells today available value (some d ∷ cells) (suc i) h =
    get_elem?-day_cells today available value cells i h

click_day-cell :
    (today : Date) (available : List Text) (value : Text) (cells : List (Option Date)) (i : ℕ)
    {c : Option Date}
    → get_elem? cells i ≡ some c
    → click_day i (day_cells today available value cells)
      ≡ on_cell (some (cell_of today available value c))
unfolding click_day
click_day-cell today available value cells i h =
    ap on_cell (get_elem?-day_cells today available value cells i h)

on_day :
    (today : Date) (available : List Text) (value : Text) (d : Date)
    → today.time ≡ 0
    → d.time ≡ 0
    → on_cell (some (some (day_cell today available value d))) ≡ (
        if leb (ordinal today) (ordinal d) && mem_text (to_date_string d) available
        then some (to_date_string d)
        else none)
unfolding day_cell is_before
on_day today available value d ht hd = ground (arith, ht, hd)

-- The blanks cannot be picked. A day of the month can be picked exactly when it is not before today
-- and the server has free slots on it, and then it is that day's own date that is picked. (The
-- month is one that `new Date` takes as written, and today is a midnight.)
pub click_day_lem :
    (month : YearMonth) (today : Date) (available : List Text) (value : Text)
    → IsMonth month
    → today.time ≡ 0
    → ((i : ℕ) → i < leading month → click_day i (calendar month today available value) ≡ none)
      × ((k : ℕ)
          → k < days_in month.year month.month0
          → click_day (leading month + k) (calendar month today available value) ≡ (
              if leb (ordinal today) (ordinal (day_of month (k + 1)))
                && mem_text (to_date_string (day_of month (k + 1))) available
              then some (to_date_string (day_of month (k + 1)))
              else none))
unfolding calendar
click_day_lem month today available value hm ht = (
  λ i h.
      click_day-cell today available value (month_grid month) i
        ((length-month_grid month hm).2 i h),
  λ k h.
      click_day-cell today available value (month_grid month) (leading month + k)
        ((month_grid_aligned month k hm h).0)
      ∙ on_day today available value (day_of month (k + 1)) ht refl,
)
