-- ===== src/Booking/Calendar.antt =====
-- frontend/src/components/booking/AvailabilityCalendar.tsx: which days of the visible month can be
-- picked. The set of available days is the list of its elements.
pub mod Picking
use whatsapp_bots_saa_s.Base.{
  ℕ, Bool, not, ◌&&◌, ◌||◌, Option, none, some, List, [], ◌∷◌, ltb, ◌==◌, if◌then◌else◌, get_elem?,
}
use whatsapp_bots_saa_s.Text.{Text, text_eq, mem_text}
use whatsapp_bots_saa_s.Dates.Civil.{Date, YearMonth, ordinal}
use whatsapp_bots_saa_s.Dates.{to_date_string, month_grid, same_day}

-- `<` on dates, which compares the moments.
unfoldable pub is_before : Date → Date → Bool
is_before a b = ltb (ordinal a) (ordinal b) || (ordinal a == ordinal b && ltb a.time b.time)

pub data Tone : Type 0 where
  faded chosen free : Tone

-- A button of the grid.
pub record DayCell : Type 0 where
  pub iso : Text
  pub is_today : Bool
  pub is_available : Bool
  pub selected : Bool
  pub disabled : Bool
  pub tone : Tone

unfoldable pub day_cell : Date → List Text → Text → Date → DayCell
day_cell today available value cell =
    let iso = to_date_string cell in
    let is_past = is_before cell today in
    let is_available = mem_text iso available in
    let selected = text_eq iso value in
    record {
      iso = iso;
      is_today = same_day cell today;
      is_available = is_available;
      selected = selected;
      disabled = is_past || not is_available;
      tone = if selected then chosen else if is_available then free else faded;
    }

-- The cells of the grid; `none` is a blank one.
unfoldable pub day_cells : Date → List Text → Text → List (Option Date) → List (Option DayCell)
day_cells today available value [] = []
day_cells today available value (none ∷ cells) = none ∷ day_cells today available value cells
day_cells today available value (some cell ∷ cells) =
    some (day_cell today available value cell) ∷ day_cells today available value cells

unfoldable pub calendar : YearMonth → Date → List Text → Text → List (Option DayCell)
calendar month today available value = day_cells today available value (month_grid month)

abbrev pub on_cell : Option (Option DayCell) → Option Text
on_cell none = none
on_cell (some none) = none
on_cell (some (some c)) = if c.disabled then none else some c.iso

-- A click on a cell: what `onChange` gets, if the cell is a button that is not disabled.
unfoldable pub click_day : ℕ → List (Option DayCell) → Option Text
click_day index cells = on_cell (get_elem? cells index)
