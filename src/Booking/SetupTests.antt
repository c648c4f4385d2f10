-- ===== src/Booking/SetupTests.antt =====
-- The services and settings of the owner on concrete input, and the witnesses of their theorems.
use whatsapp_bots_saa_s.Base.{◌+◌, is_none, inr, ◌≡◌, refl, true, false, none, some, List, [], ◌∷◌}
use whatsapp_bots_saa_s.Text.{codes}
use whatsapp_bots_saa_s.Text.Decimal.{read, show}
use whatsapp_bots_saa_s.Booking.Services.{
  whole, fraction, negative, nan, number, parse_price, Service, ServiceUpdate, Row, row_of,
  is_valid, click_save,
}
use whatsapp_bots_saa_s.Booking.Services.Patches.{apply_update, IsShown, click_save-IsShown}
use whatsapp_bots_saa_s.Booking.Services.Editor.{ServicesEditor, blank_form, add, name_or_duration}
use whatsapp_bots_saa_s.Booking.Setup.{
  BookingSettings, loading_panel, SetupEvent, was_loaded, edited, save_clicked, was_saved, meet,
  welcome_of, setup_run, setup_step,
}
use whatsapp_bots_saa_s.Booking.Setup.Drafts.{saved_lem}
use whatsapp_bots_saa_s.Booking.Manage.{
  ManageEvent, opens, cancels, picks, confirms, closes, move_came, move_booking, fresh_page,
  manage_run, manage_step, cancel_booking, click_cancel, click_open, pick, is_shown, can_confirm,
  click_confirm, close_dialog, move_answered, cancel_answered,
}
use whatsapp_bots_saa_s.Booking.Manage.Requests.{
  cancels_in, moves_in, one_if, cancels_answered, moves_answered, requests_lem,
}

numbers :
    (number (codes " 45 ") ≡ whole 45)
    × (number (codes "7.50") ≡ fraction (codes "7.50"))
    × (number (codes "5.0") ≡ whole 5)
    × (number (codes "-3") ≡ negative)
    × (number (codes "x") ≡ nan)
    × (number [] ≡ whole 0)
unfolding number read
numbers = (refl, refl, refl, refl, refl, refl)

prices :
    (parse_price (codes " ") ≡ some none)
    × (parse_price (codes "120") ≡ some (some 120))
    × (parse_price (codes "1.5") ≡ none)
    × (parse_price (codes "-1") ≡ none)
unfolding parse_price read
prices = (refl, refl, refl, refl)

abbrev haircut : Service
haircut = record {
  id = codes "s1";
  name = codes "Cut";
  duration_minutes = 30;
  active = true;
  description = some (codes "short");
  price = some 80;
}

abbrev edited_row : Row
edited_row = record {
  name = codes " Cut ";
  duration = codes "45";
  description = codes " ";
  price = codes "80";
}

-- The name and the price are as before, and stay out of the update; the description is cleared.
abbrev sent_update : ServiceUpdate
sent_update = record {
  name = none;
  duration_minutes = some (whole 45);
  active = none;
  description = some none;
  price = none;
}

update_sent : click_save false edited_row haircut ≡ some sent_update
unfolding click_save read
update_sent = refl

-- A row that was not touched is not sent.
untouched : click_save false (row_of haircut) haircut ≡ none
unfolding click_save row_of read show
untouched = refl

click_save-IsShown_example :
    (false ≡ false)
    × (is_valid edited_row ≡ true)
    × IsShown edited_row haircut (apply_update sent_update haircut)
click_save-IsShown_example = click_save-IsShown false edited_row haircut sent_update update_sent

abbrev editor : ServicesEditor
editor = record {
  form = blank_form;
  adding = false;
  error = none;
  busy_id = none;
  in_flight = [];
  changes = 0;
}

empty_refused : (add editor).1.error ≡ some name_or_duration
unfolding add
empty_refused = refl

abbrev settings : BookingSettings
settings = record {
  slug = codes "shop";
  timezone = codes "Asia/Jerusalem";
  working_hours = [];
  min_notice_minutes = 60;
  buffer_minutes = 0;
  max_days_ahead = 30;
  meet_enabled = false;
  welcome_message = some (codes "  ");
}

blank_welcome : welcome_of settings.welcome_message ≡ none
unfolding welcome_of
blank_welcome = refl

abbrev session : List SetupEvent
session =
    was_loaded (some (settings, []))
    ∷ edited (meet true)
    ∷ save_clicked
    ∷ was_saved (some (record settings { meet_enabled = true }))
    ∷ []

saved_example :
    (setup_run session loading_panel).settings ≡ (setup_run session loading_panel).stored
unfolding setup_step
saved_example = saved_lem session refl

abbrev clicks : List ManageEvent
clicks =
    opens
    ∷ cancels true
    ∷ picks (codes "2026-01-02") (codes "10:00")
    ∷ confirms
    ∷ closes
    ∷ move_came (inr (codes "2026-01-02T10:00"))
    ∷ cancels true
    ∷ []

-- One move and two cancellations: one behind the dialog, one that comes too late.
requests_made :
    ((manage_run clicks fresh_page).sent
      ≡ move_booking (codes "2026-01-02") (codes "10:00") ∷ cancel_booking ∷ [])
    × (is_none (manage_run clicks fresh_page).done ≡ false)
unfolding manage_step click_cancel click_open pick is_shown can_confirm click_confirm close_dialog
    move_answered cancel_answered
requests_made = (refl, refl)

requests_example :
    let s = manage_run clicks fresh_page in
    let t = manage_run (cancels true ∷ confirms ∷ []) s in
    (cancels_in s.sent ≡ cancels_answered clicks fresh_page + one_if s.busy)
    × (moves_in s.sent ≡ moves_answered clicks fresh_page + one_if s.rescheduling)
    × (is_none s.done ≡ false → (is_none t.done ≡ false) × (t.sent ≡ s.sent))
requests_example = requests_lem clicks (cancels true ∷ confirms ∷ [])
