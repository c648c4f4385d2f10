-- ===== src/Booking/Tests.antt =====
-- The booking form and the booking flow of BookingFlow.tsx at concrete inputs.
use whatsapp_bots_saa_s.Base.{
  ◌≤◌, ◌≡◌, refl, ◌⊎◌, true, false, none, some, List, [], ◌∷◌, get_or_else, length, is_empty,
}
use whatsapp_bots_saa_s.Text.{
  Text, codes, mem_text, text_eq, trim, trim_start, trim_end, keep_unless_blank, is_space, is_digit,
}
use whatsapp_bots_saa_s.Api.{Caught, null, api_error}
use whatsapp_bots_saa_s.Booking.Form.{
  Form, strip_separators, drop_plus, is_valid_phone, is_plain, plain_run, after_run, dot_more,
  inner_dot, at_domain, is_valid_email, email_refused, validate, body_of,
}
use whatsapp_bots_saa_s.Booking.Form.Email.{IsEmail, is_valid_email-IsEmail}
use whatsapp_bots_saa_s.Booking.Form.Checks.{body_of_lem}
use whatsapp_bots_saa_s.Fetch.{cancel, cancel_calls, find_call, drop_call}
use whatsapp_bots_saa_s.Booking.Flow.{
  Flow, Sending, initial, grid_shown, is_conflict, submit_error_of, slots_answer, pick_date,
  pick_service, pick_time, submit_fail, load_slots, slots_effect, after_render, run_cleanup,
  register_cleanup, makes_request, answer_found, settle,
}
use whatsapp_bots_saa_s.Booking.Flow.Events.{
  FlowEvent, service_picked, date_picked, time_picked, slots_answered, handle, run,
  run-shows_chosen_day,
}
use whatsapp_bots_saa_s.Booking.Flow.Stale.{conflict-shows_old_day}

abbrev filled : Form
filled = record {
  service_id = codes "cut";
  date = codes "2024-02-29";
  time = codes "10:00";
  name = codes " Ann ";
  phone = codes "+97250-123 4567";
  email = codes "ann@x.co";
  notes = [];
}

form_tests :
    (validate filled ≡ none)
    × (is_valid_email (codes "ann@x.co") ≡ true)
    × (is_valid_email (codes "ann@x.") ≡ false)
    × (is_valid_email (codes "a@b@x.co") ≡ false)
unfolding validate email_refused is_valid_phone strip_separators drop_plus is_plain plain_run
    after_run dot_more inner_dot at_domain is_valid_email trim trim_start trim_end keep_unless_blank
    is_space is_digit
form_tests = (refl, refl, refl, refl)

is_valid_email_example :
    (is_valid_email (codes "ann@x.co") ≡ true → IsEmail (codes "ann@x.co"))
    × (IsEmail (codes "ann@x.co") → is_valid_email (codes "ann@x.co") ≡ true)
is_valid_email_example = is_valid_email-IsEmail (codes "ann@x.co")

body_of_example :
    (is_empty (body_of filled).service_id ≡ false)
    × (is_empty (body_of filled).date ≡ false)
    × (is_empty (body_of filled).time ≡ false)
    × (2 ≤ length (body_of filled).name)
    × (is_valid_phone (body_of filled).phone ≡ true)
    × ((e : Text) → (body_of filled).email ≡ some e → is_valid_email e ≡ true)
body_of_example = body_of_lem filled (form_tests.0)

-- The answer for the first date comes after the second date was chosen; it does not show.
abbrev late : List FlowEvent
late =
    service_picked (codes "cut")
    ∷ date_picked (codes "2024-02-28")
    ∷ date_picked (codes "2024-02-29")
    ∷ slots_answered 0 (some (codes "09:00" ∷ []))
    ∷ slots_answered 1 (some (codes "10:00" ∷ []))
    ∷ time_picked (codes "10:00")
    ∷ []

run_tests :
    ((run true late initial).slots ≡ some (codes "10:00" ∷ []))
    × ((run true late initial).form.time ≡ codes "10:00")
    × (grid_shown (run true late initial) ≡ true)
unfolding run handle initial pick_service pick_date pick_time slots_answer after_render slots_effect
    run_cleanup register_cleanup load_slots makes_request cancel_calls cancel find_call drop_call
    answer_found settle grid_shown mem_text text_eq
run_tests = (refl, refl, refl)

run-shows_chosen_day_example :
    (grid_shown (run true late initial) ≡ true
      → ((run true late initial).slots ≡ none)
        ⊎ ((run true late initial).slots_of
            ≡ ((run true late initial).form.service_id, (run true late initial).form.date)))
    × (is_empty (run true late initial).form.time ≡ false
        → mem_text (run true late initial).form.time (get_or_else (run true late initial).slots [])
          ≡ true)
run-shows_chosen_day_example = run-shows_chosen_day true late refl

abbrev taken : Caught
taken = api_error (record { status = 409; message = codes "HTTP 409"; body = null })

abbrev sent : Sending
sent = record {
  body = record {
    service_id = codes "cut";
    date = codes "2024-02-29";
    time = codes "10:00";
    name = codes "Ann";
    phone = codes "0501234567";
    email = none;
    notes = none;
  };
  service_id = codes "cut";
  date = codes "2024-02-29";
}

abbrev booking : Flow
booking = record {
  form = filled;
  slots = some (codes "10:00" ∷ []);
  slots_of = (codes "cut", codes "2024-02-29");
  slots_loading = false;
  slots_error = false;
  requests = [];
  next_id = 1;
  cleanup = some 0;
  form_error = none;
  sending = some sent;
  submit_error = none;
  result = false;
}

conflict_facts :
    (is_conflict (submit_error_of taken) ≡ true)
    × (text_eq booking.form.date (codes "2024-03-01") ≡ false)
unfolding submit_error_of text_eq
conflict_facts = (refl, refl)

conflict-shows_old_day_example :
    (t : Flow) × (slots_answer booking.next_id
        (some (codes "11:00" ∷ []))
        (pick_date true (codes "2024-03-01") (submit_fail true taken booking))
      ≡ t)
    × (grid_shown t ≡ true)
    × (t.slots ≡ some (codes "11:00" ∷ []))
    × (t.slots_of ≡ (sent.service_id, sent.date))
    × (t.form.date ≡ codes "2024-03-01")
conflict-shows_old_day_example =
    conflict-shows_old_day booking sent taken (codes "2024-03-01") (codes "11:00" ∷ []) refl
      (conflict_facts.0) refl refl refl refl refl (conflict_facts.1)
