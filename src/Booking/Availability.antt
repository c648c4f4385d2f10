-- ===== src/Booking/Availability.antt =====
-- The days with free slots in frontend/src/components/booking/BookingFlow.tsx: the effect that loads
-- them for the chosen service and the visible month. A handler and the effect that it sets off are
-- one step. `dates_of` is no variable of the program: it notes what `dates` was loaded for.
pub mod Shown
use whatsapp_bots_saa_s.Base.{
  ℕ, ◌+◌, Bool, true, false, not, ◌&&◌, ◌||◌, Option, none, some, List, [], ◌∷◌, ◌==◌,
  if◌then◌else◌, is_empty,
}
use whatsapp_bots_saa_s.Text.{Text, text_eq}
use whatsapp_bots_saa_s.Dates.Civil.{YearMonth}
use whatsapp_bots_saa_s.Fetch.{Call, cancel_calls, find_call, drop_call}

pub record MonthKey : Type 0 where
  pub service_id : Text
  pub month : YearMonth

pub record Availability : Type 0 where
  pub chosen : MonthKey
  pub dates : List Text
  pub dates_of : Option MonthKey
  pub loading : Bool
  pub error : Bool
  pub calls : List (Call MonthKey)
  pub next_id : ℕ
  pub kept : Option ℕ

-- The first render, when no service is chosen.
unfoldable pub first_month : YearMonth → Availability
first_month month = record {
  chosen = record { service_id = []; month = month };
  dates = [];
  dates_of = none;
  loading = false;
  error = false;
  calls = [];
  next_id = 0;
  kept = none;
}

-- The effect: the clean-up of the one before, then the call, if a service is chosen on a live page.
unfoldable pub availability_effect : Bool → Availability → Availability
availability_effect live s =
    let t = record s { calls = cancel_calls s.kept s.calls; kept = none } in
    if not live || is_empty s.chosen.service_id
    then record t { dates = []; dates_of = none }
    else record t {
      loading = true;
      error = false;
      calls =
          record { id = s.next_id; key = s.chosen; cancelled = false }
          ∷ cancel_calls s.kept s.calls;
      next_id = s.next_id + 1;
      kept = some s.next_id;
    }

abbrev pub same_month : YearMonth → YearMonth → Bool
same_month a b = a.year == b.year && a.month0 == b.month0

-- Another service or another month; the effect runs if one of them is not as before.
unfoldable pub choose_month : Bool → MonthKey → Availability → Availability
choose_month live key s =
    let t = record s { chosen = key } in
    if text_eq s.chosen.service_id key.service_id && same_month s.chosen.month key.month
    then t
    else availability_effect live t

unfoldable pub settle_month : MonthKey → Option (List Text) → Availability → Availability
settle_month key none s = record s { dates = []; dates_of = none; error = true; loading = false }
settle_month key (some dates) s = record s { dates = dates; dates_of = some key; loading = false }

unfoldable pub month_answer_found :
    Option (Call MonthKey) → Option (List Text) → Availability → Availability
month_answer_found none answer s = s
month_answer_found (some c) answer s =
    let t = record s { calls = drop_call c.id s.calls } in
    if c.cancelled then t else settle_month c.key answer t

unfoldable pub month_answer : ℕ → Option (List Text) → Availability → Availability
month_answer id answer s = month_answer_found (find_call id s.calls) answer s

pub data MonthEvent : Type 0 where
  picked : MonthKey → MonthEvent
  answered : ℕ → Option (List Text) → MonthEvent

unfoldable pub on_event : Bool → MonthEvent → Availability → Availability
on_event live (picked key) s = choose_month live key s
on_event live (answered id answer) s = month_answer id answer s

unfoldable pub run_months : Bool → List MonthEvent → Availability → Availability
run_months live [] s = s
run_months live (ev ∷ evs) s = run_months live evs (on_event live ev s)
