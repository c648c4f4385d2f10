-- ===== src/Booking/Services/Editor.antt =====
-- The editor of frontend/src/components/booking/ServicesEditor.tsx: the form of a new service, and the
-- requests of the rows, of which one may be marked as busy.
pub mod Requests
use whatsapp_bots_saa_s.Base.{
  ℕ, ◌+◌, ◌⊎◌, inl, inr, Bool, true, false, not, ◌||◌, Option, none, some, List, [], ◌∷◌,
  if◌then◌else◌, is_empty,
}
use whatsapp_bots_saa_s.Text.{Text, codes, text_eq, trim}
use whatsapp_bots_saa_s.Booking.Services.{number, is_positive, parse_price, ServiceCreate, or_null}

pub data EditorError : Type 0 where
  name_or_duration bad_price create_failed update_failed delete_failed : EditorError

-- The form of a new service.
pub record NewService : Type 0 where
  pub name : Text
  pub duration : Text
  pub description : Text
  pub price : Text

abbrev pub blank_form : NewService
blank_form = record { name = []; duration = codes "30"; description = []; price = [] }

-- `in_flight` are the rows whose request is under way, the newest first, and `changes` how often the
-- parent was told to load the list again.
pub record ServicesEditor : Type 0 where
  pub form : NewService
  pub adding : Bool
  pub error : Option EditorError
  pub busy_id : Option Text
  pub in_flight : List Text
  pub changes : ℕ

abbrev pub with_price : NewService → Option (Option ℕ) → EditorError ⊎ ServiceCreate
with_price f none = inl bad_price
with_price f (some price) = inr (record {
  name = trim f.name;
  duration_minutes = number f.duration;
  active = true;
  description = or_null (trim f.description);
  price = price;
})

-- The checks of `add`, and the body that is sent when they pass.
unfoldable pub new_service_body : NewService → EditorError ⊎ ServiceCreate
unfolding is_positive parse_price
new_service_body f =
    if is_empty (trim f.name) || not (is_positive (number f.duration))
    then inl name_or_duration
    else with_price f (parse_price f.price)

abbrev pub add_with :
    EditorError ⊎ ServiceCreate → ServicesEditor → Option ServiceCreate × ServicesEditor
add_with (inl err) s = (none, record s { error = some err })
add_with (inr body) s = (some body, record s { adding = true; error = none })

unfoldable pub add : ServicesEditor → Option ServiceCreate × ServicesEditor
unfolding new_service_body
add s = add_with (new_service_body s.form) s

unfoldable pub add_answered : Bool → ServicesEditor → ServicesEditor
add_answered ok s =
    if ok
    then record s { form = blank_form; changes = s.changes + 1; adding = false }
    else record s { error = some create_failed; adding = false }

-- `patch` and `remove` of a row, as far as the request.
unfoldable pub begin_request : Text → ServicesEditor → ServicesEditor
begin_request id s = record s { busy_id = some id; error = none; in_flight = id ∷ s.in_flight }

unfoldable pub remove : Bool → Text → ServicesEditor → ServicesEditor
unfolding begin_request
remove confirmed id s = if confirmed then begin_request id s else s

unfoldable pub drop_id : Text → List Text → List Text
unfolding text_eq
drop_id id [] = []
drop_id id (i ∷ ids) = let rest = drop_id id ids in if text_eq i id then ids else i ∷ rest

-- The answer of a request; `err` is what a failure is told as.
unfoldable pub request_answered : EditorError → Text → Bool → ServicesEditor → ServicesEditor
unfolding drop_id
request_answered err id ok s =
    let t = record s { busy_id = none; in_flight = drop_id id s.in_flight } in
    if ok then record t { changes = s.changes + 1 } else record t { error = some err }

-- `busyId === svc.id`.
unfoldable pub is_busy : Text → ServicesEditor → Bool
unfolding text_eq
is_busy id s = elim s.busy_id [ none ↦ false | some i ↦ text_eq i id ]
