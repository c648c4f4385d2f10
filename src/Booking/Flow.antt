-- ===== src/Booking/Flow.antt =====
-- The state of frontend/src/components/booking/BookingFlow.tsx and SlotGrid.tsx: the selections, the
-- requests for free slots that are under way, and the booking that is being sent.
-- A handler's state updates and the effects that they set off are one step; the answers of the
-- server are steps of their own, in any order. `slots_of` is no variable of the program: it notes
-- the service and the date whose slots `slots` holds. The key of a call is a service and a date.
pub mod Freshness
pub mod Submission
pub mod Events
pub mod Stale
use whatsapp_bots_saa_s.Base.{
  ℕ, ◌+◌, Bool, true, false, not, ◌&&◌, ◌||◌, Option, none, some, List, [], ◌∷◌, ◌==◌,
  if◌then◌else◌, get_or_else, is_none, take, is_empty,
}
use whatsapp_bots_saa_s.Text.{Text, text_eq, mem_text}
use whatsapp_bots_saa_s.Fetch.{Call, cancel_calls, find_call, drop_call}
use whatsapp_bots_saa_s.Api.{Caught, api_error, other_error}
use whatsapp_bots_saa_s.Booking.Form.{Form, FormError, PublicBookingCreate, validate, body_of}

-- The sentences of `submitError`.
pub data SubmitError : Type 0 where
  slot_taken too_many_attempts invalid_details other : SubmitError

-- A call of `createPublicBooking`, with the selections of the render that sent it.
pub record Sending : Type 0 where
  pub body : PublicBookingCreate
  pub service_id : Text
  pub date : Text

pub record Flow : Type 0 where
  pub form : Form
  pub slots : Option (List Text)
  pub slots_of : Text × Text
  pub slots_loading : Bool
  pub slots_error : Bool
  pub requests : List (Call (Text × Text))
  pub next_id : ℕ
  pub cleanup : Option ℕ
  pub form_error : Option FormError
  pub sending : Option Sending
  pub submit_error : Option SubmitError
  pub result : Bool

abbrev pub empty_form : Form
empty_form = record {
  service_id = [];
  date = [];
  time = [];
  name = [];
  phone = [];
  email = [];
  notes = [];
}

unfoldable pub initial : Flow
initial = record {
  form = empty_form;
  slots = none;
  slots_of = ([], []);
  slots_loading = false;
  slots_error = false;
  requests = [];
  next_id = 0;
  cleanup = none;
  form_error = none;
  sending = none;
  submit_error = none;
  result = false;
}

-- `loadSlots` of the render that chose `service_id` and `date`.
unfoldable pub load_slots : Bool → Text → Text → Flow → Flow
load_slots live service_id date s =
    if not live || is_empty service_id || is_empty date
    then record s { slots = none }
    else record s {
      slots_loading = true;
      slots_error = false;
      form = record (s.form) { time = [] };
      requests =
          record { id = s.next_id; key = (service_id, date); cancelled = false } ∷ s.requests;
      next_id = s.next_id + 1;
    }

-- The clean-up of the effect before.
unfoldable pub run_cleanup : Flow → Flow
run_cleanup s = record s { requests = cancel_calls s.cleanup s.requests; cleanup = none }

-- What the effect returns: the clean-up of the request that it made, if it made one.
unfoldable pub register_cleanup : Bool → ℕ → Flow → Flow
register_cleanup made id s = record s { cleanup = if made then some id else none }

unfoldable pub makes_request : Bool → Text → Text → Bool
makes_request live service_id date = not (not live || is_empty service_id || is_empty date)

-- The effect that loads the slots, after a render in which a dependency changed.
unfoldable pub slots_effect : Bool → Flow → Flow
slots_effect live s =
    let t = run_cleanup s in
    register_cleanup (makes_request live s.form.service_id s.form.date) s.next_id
      (load_slots live s.form.service_id s.form.date t)

-- The effect runs if the service or the date is another than before.
unfoldable pub after_render : Bool → Form → Flow → Flow
after_render live before s =
    if text_eq before.service_id s.form.service_id && text_eq before.date s.form.date
    then s
    else slots_effect live s

unfoldable pub pick_service : Bool → Text → Flow → Flow
pick_service live id s =
    after_render live s.form
      (record s { form = record (s.form) { service_id = id; date = []; time = [] }; slots = none })

unfoldable pub pick_date : Bool → Text → Flow → Flow
pick_date live date s =
    after_render live s.form (record s { form = record (s.form) { date = date; time = [] } })

-- The grid is on screen when a service and a date are chosen and their slots are there.
unfoldable pub grid_shown : Flow → Bool
grid_shown s =
    not (is_empty s.form.service_id)
    && not (is_empty s.form.date)
    && not s.slots_loading
    && not s.slots_error

-- A click on one of the slots of the grid.
unfoldable pub pick_time : Text → Flow → Flow
pick_time time s =
    if grid_shown s && mem_text time (get_or_else s.slots [])
    then record s { form = record (s.form) { time = time } }
    else s

-- The handlers of a request that ends: `none` is a failure.
unfoldable pub settle : Text × Text → Option (List Text) → Flow → Flow
settle key none s = record s {
  slots = some [];
  slots_of = key;
  slots_error = true;
  slots_loading = false;
}
settle key (some slots) s = record s { slots = some slots; slots_of = key; slots_loading = false }

unfoldable pub answer_found : Option (Call (Text × Text)) → Option (List Text) → Flow → Flow
answer_found none answer s = s
answer_found (some r) answer s =
    let t = record s { requests = drop_call r.id s.requests } in
    if r.cancelled then t else settle r.key answer t

unfoldable pub slots_answer : ℕ → Option (List Text) → Flow → Flow
slots_answer id answer s = answer_found (find_call id s.requests) answer s

-- The start of `submit`; the button is off while a booking is being sent.
unfoldable pub submit_checked : Option FormError → Flow → Flow
submit_checked (some err) s = record s { form_error = some err }
submit_checked none s = record s {
  form_error = none;
  submit_error = none;
  sending =
      some (record { body = body_of s.form; service_id = s.form.service_id; date = s.form.date });
}

unfoldable pub submit : Bool → Flow → Flow
submit live s =
    if not live || not (is_none s.sending) then s else submit_checked (validate s.form) s

unfoldable pub submit_error_of : Caught → SubmitError
submit_error_of (api_error e) =
    if e.status == 409
    then slot_taken
    else if e.status == 429
    then too_many_attempts
    else if e.status == 422
    then invalid_details
    else other
submit_error_of other_error = other

abbrev pub is_conflict : SubmitError → Bool
is_conflict slot_taken = true
is_conflict _ = false

-- The end of `submit` when the server refuses: a slot that was taken makes the slots load again, with
-- the `loadSlots` of the render that sent the booking, whose clean-up nobody keeps.
unfoldable pub refused : Bool → Sending → SubmitError → Flow → Flow
refused live sent err s =
    let t = record s { submit_error = some err; sending = none } in
    if is_conflict err then load_slots live sent.service_id sent.date t else t

unfoldable pub on_sending : Option Sending → (Sending → Flow → Flow) → Flow → Flow
on_sending none f s = s
on_sending (some sent) f s = f sent s

unfoldable pub submit_fail : Bool → Caught → Flow → Flow
submit_fail live err s = on_sending s.sending (λ sent. refused live sent (submit_error_of err)) s

unfoldable pub submit_ok : Flow → Flow
submit_ok s = on_sending s.sending (λ sent t. record t { result = true; sending = none }) s

-- The inputs of the customer form, each with its `maxLength`; they are disabled in a preview.
unfoldable pub edit_customer : Bool → Text → Text → Text → Text → Flow → Flow
edit_customer live name phone email notes s =
    if live
    then record s {
      form = record (s.form) {
        name = take 120 name;
        phone = take 20 phone;
        email = take 200 email;
        notes = take 1000 notes;
      };
    }
    else s

-- The effect that drops a service which the page no longer offers.
unfoldable pub services_changed : Bool → List Text → Flow → Flow
services_changed live ids s =
    if not (is_empty s.form.service_id) && not (mem_text s.form.service_id ids)
    then after_render live s.form
        (record s { form = record (s.form) { service_id = []; date = []; time = [] } })
    else s
