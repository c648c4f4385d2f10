-- ===== src/Booking/OwnerTests.antt =====
-- The calendar of AvailabilityCalendar.tsx, its available days, and the hours of WorkingHoursEditor.tsx at concrete inputs.
use whatsapp_bots_saa_s.Base.{◌≡◌, refl, ◌⊎◌, true, false, some, List, [], ◌∷◌}
use whatsapp_bots_saa_s.Text.{Text, codes, text_eq}
use whatsapp_bots_saa_s.Dates.Civil.{Date, YearMonth}
use whatsapp_bots_saa_s.Fetch.{cancel, cancel_calls, find_call, drop_call}
use whatsapp_bots_saa_s.Booking.Availability.{
  first_month, availability_effect, choose_month, settle_month, month_answer_found, month_answer,
  MonthEvent, picked, answered, on_event, run_months,
}
use whatsapp_bots_saa_s.Booking.Availability.Shown.{run_months-shows_chosen}
use whatsapp_bots_saa_s.Booking.Hours.{WorkingHours}

abbrev february : YearMonth
february = record { year = 2024; month0 = 1 }

abbrev today : Date
today = record { year = 2024; month0 = 1; day = 28; time = 0 }

abbrev sunday : Text
sunday = codes "0"

abbrev hours : WorkingHours
hours = (sunday, record { s = codes "08:00"; e = codes "12:00" } ∷ []) ∷ []

-- The service is changed before the first answer comes.
abbrev visits : List MonthEvent
visits =
    picked (record { service_id = codes "cut"; month = february })
    ∷ picked (record { service_id = codes "dye"; month = february })
    ∷ answered 0 (some (codes "2024-02-01" ∷ []))
    ∷ answered 1 (some (codes "2024-02-29" ∷ []))
    ∷ []

visits_loaded :
    ((run_months true visits (first_month february)).loading ≡ false)
    × ((run_months true visits (first_month february)).dates ≡ codes "2024-02-29" ∷ [])
unfolding run_months on_event first_month choose_month availability_effect settle_month
    month_answer_found month_answer cancel cancel_calls find_call drop_call text_eq
visits_loaded = (refl, refl)

run_months-shows_chosen_example :
    ((run_months true visits (first_month february)).dates ≡ [])
    ⊎ ((run_months true visits (first_month february)).dates_of
        ≡ some (run_months true visits (first_month february)).chosen)
run_months-shows_chosen_example = run_months-shows_chosen true february visits (visits_loaded.0)
