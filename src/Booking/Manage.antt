-- ===== src/Booking/Manage.antt =====
-- frontend/src/pages/PublicManagePage.tsx with its dialog,
-- frontend/src/components/booking/RescheduleDialog.tsx: a customer cancels a booking or moves it. The
-- dialog covers the page, but the page's buttons stay in reach of the keyboard. Where there is a
-- result, the page shows nothing else, so neither its buttons nor the dialog are there. `sent` are
-- the requests that were made, the newest first.
pub mod Requests
use whatsapp_bots_saa_s.Base.{
  ℕ, ◌⊎◌, inl, inr, Bool, true, false, not, ◌&&◌, ◌||◌, Option, none, some, List, [], ◌∷◌, ◌==◌,
  if◌then◌else◌, is_none, is_empty,
}
use whatsapp_bots_saa_s.Text.{Text}
use whatsapp_bots_saa_s.Api.{Caught, api_error, other_error, Sentence, to_friendly_error}

pub data ManageError : Type 0 where
  slot_taken bad_link : ManageError
  told : Sentence → ManageError

pub data Done : Type 0 where
  cancelled rescheduled : Text → Done

pub data ManageRequest : Type 0 where
  cancel_booking : ManageRequest
  move_booking : Text → Text → ManageRequest

pub record ManagePage : Type 0 where
  pub busy : Bool
  pub error : Option ManageError
  pub done : Option Done
  pub show_reschedule : Bool
  pub rescheduling : Bool
  pub reschedule_error : Option ManageError
  pub date : Text
  pub time : Text
  pub sent : List ManageRequest

abbrev pub fresh_page : ManagePage
fresh_page = record {
  busy = false;
  error = none;
  done = none;
  show_reschedule = false;
  rescheduling = false;
  reschedule_error = none;
  date = [];
  time = [];
  sent = [];
}

abbrev pub status_of : Caught → Option ℕ
status_of (api_error e) = some e.status
status_of other_error = none

abbrev pub is_status : ℕ → Option ℕ → Bool
is_status n none = false
is_status n (some m) = m == n

unfoldable pub cancel_error : Caught → ManageError
unfolding to_friendly_error
cancel_error err = if is_status 404 (status_of err) then bad_link else told (to_friendly_error err)

unfoldable pub move_error : Caught → ManageError
unfolding to_friendly_error
move_error err =
    if is_status 409 (status_of err)
    then slot_taken
    else if is_status 404 (status_of err)
    then bad_link
    else told (to_friendly_error err)

-- A click on the button that cancels, and the answer to the question whether to.
unfoldable pub click_cancel : Bool → ManagePage → ManagePage
click_cancel confirmed s =
    if s.busy || not (is_none s.done) || not confirmed
    then s
    else record s { busy = true; error = none; sent = cancel_booking ∷ s.sent }

-- What a request ended with: the new time, or a failure.
unfoldable pub cancel_answered : Caught ⊎ Text → ManagePage → ManagePage
unfolding cancel_error
cancel_answered (inl err) s = record s { error = some (cancel_error err); busy = false }
cancel_answered (inr res) s = record s { done = some (cancelled res); busy = false }

-- The button that opens the dialog; the fields are emptied when it was closed.
unfoldable pub click_open : ManagePage → ManagePage
click_open s = if s.busy || not (is_none s.done) then s else record s {
  reschedule_error = none;
  show_reschedule = true;
  date = if s.show_reschedule then s.date else [];
  time = if s.show_reschedule then s.time else [];
}

-- Whether the dialog is on the screen.
unfoldable pub is_shown : ManagePage → Bool
is_shown s = s.show_reschedule && is_none s.done

unfoldable pub pick : Text → Text → ManagePage → ManagePage
unfolding is_shown
pick date time s = if is_shown s then record s { date = date; time = time } else s

-- `canConfirm`.
unfoldable pub can_confirm : ManagePage → Bool
can_confirm s = not (is_empty s.date) && not (is_empty s.time) && not s.rescheduling

unfoldable pub click_confirm : ManagePage → ManagePage
unfolding is_shown can_confirm
click_confirm s =
    if is_shown s && can_confirm s
    then record s {
      rescheduling = true;
      reschedule_error = none;
      sent = move_booking s.date s.time ∷ s.sent;
    }
    else s

-- The button that closes the dialog, and Escape.
unfoldable pub close_dialog : ManagePage → ManagePage
unfolding is_shown
close_dialog s =
    if is_shown s && not s.rescheduling then record s { show_reschedule = false } else s

unfoldable pub move_answered : Caught ⊎ Text → ManagePage → ManagePage
unfolding move_error
move_answered (inl err) s = record s {
  reschedule_error = some (move_error err);
  rescheduling = false;
}
move_answered (inr res) s = record s {
  show_reschedule = false;
  done = some (rescheduled res);
  rescheduling = false;
}

pub data ManageEvent : Type 0 where
  cancels : Bool → ManageEvent
  cancel_came move_came : Caught ⊎ Text → ManageEvent
  opens confirms closes : ManageEvent
  picks : Text → Text → ManageEvent

-- An answer comes only to a request that is under way.
unfoldable pub manage_step : ManageEvent → ManagePage → ManagePage
unfolding click_cancel cancel_answered click_open pick click_confirm close_dialog move_answered
manage_step (cancels confirmed) s = click_cancel confirmed s
manage_step (cancel_came answer) s = if s.busy then cancel_answered answer s else s
manage_step (move_came answer) s = if s.rescheduling then move_answered answer s else s
manage_step opens s = click_open s
manage_step confirms s = click_confirm s
manage_step closes s = close_dialog s
manage_step (picks date time) s = pick date time s

abbrev pub manage_run : List ManageEvent → ManagePage → ManagePage
manage_run [] s = s
manage_run (e ∷ es) s = manage_run es (manage_step e s)
