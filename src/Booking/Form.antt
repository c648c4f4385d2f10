-- ===== src/Booking/Form.antt =====
-- The customer form of frontend/src/components/booking/BookingFlow.tsx: its checks, and the body that
-- is sent when they pass (dashboard/appointmentTypes.ts).
pub mod Email
pub mod Checks
use whatsapp_bots_saa_s.Base.{
  ℕ, Bool, false, not, ◌&&◌, ◌||◌, Option, none, some, [], ◌∷◌, ltb, leb, ◌==◌, if◌then◌else◌,
  length, all, filter_by, is_empty,
}
use whatsapp_bots_saa_s.Text.{Text, is_space, is_digit, trim}

-- `phone.replace(/[\s-]/g, '')`
unfoldable pub strip_separators : Text → Text
strip_separators phone = filter_by (λ c. not (is_space c || c == b'-')) phone

-- The optional plus sign of `/^\+?\d{9,15}$/`.
unfoldable pub drop_plus : Text → Text
drop_plus [] = []
drop_plus (c ∷ s) = if c == b'+' then s else c ∷ s

unfoldable pub is_valid_phone : Text → Bool
is_valid_phone phone =
    let digits = drop_plus (strip_separators phone) in
    all is_digit digits && leb 9 (length digits) && leb (length digits) 15

-- `[^@\s]`
unfoldable pub is_plain : ℕ → Bool
is_plain c = not (c == b'@') && not (is_space c)

-- The longest run of plain characters, and what follows it.
unfoldable pub plain_run : Text → Text
plain_run [] = []
plain_run (c ∷ s) = let run = plain_run s in if is_plain c then c ∷ run else []

unfoldable pub after_run : Text → Text
after_run [] = []
after_run (c ∷ s) = let rest = after_run s in if is_plain c then rest else c ∷ s

-- A dot with something after it.
unfoldable pub dot_more : Text → Bool
dot_more [] = false
dot_more (c ∷ s) = (c == b'.' && not (is_empty s)) || dot_more s

-- A dot with something before and after it.
unfoldable pub inner_dot : Text → Bool
inner_dot [] = false
inner_dot (c ∷ s) = dot_more s

unfoldable pub at_domain : Text → Bool
at_domain [] = false
at_domain (c ∷ domain) = c == b'@' && all is_plain domain && inner_dot domain

-- `/^[^@\s]+@[^@\s]+\.[^@\s]+$/`: what stands before the sign is the longest plain run, since the
-- sign is not plain.
unfoldable pub is_valid_email : Text → Bool
is_valid_email email = not (is_empty (plain_run email)) && at_domain (after_run email)

pub record Form : Type 0 where
  pub service_id : Text
  pub date : Text
  pub time : Text
  pub name : Text
  pub phone : Text
  pub email : Text
  pub notes : Text

-- The sentences of `validate`.
pub data FormError : Type 0 where
  choose_service choose_date choose_time enter_name enter_phone enter_email : FormError

unfoldable pub email_refused : Text → Bool
email_refused email = not (is_empty (trim email)) && not (is_valid_email (trim email))

unfoldable pub validate : Form → Option FormError
unfolding email_refused
validate f =
    if is_empty f.service_id
    then some choose_service
    else if is_empty f.date
    then some choose_date
    else if is_empty f.time
    then some choose_time
    else if ltb (length (trim f.name)) 2
    then some enter_name
    else if not (is_valid_phone f.phone)
    then some enter_phone
    else if email_refused f.email
    then some enter_email
    else none

pub record PublicBookingCreate : Type 0 where
  pub service_id : Text
  pub date : Text
  pub time : Text
  pub name : Text
  pub phone : Text
  pub email : Option Text
  pub notes : Option Text

-- `s.trim() || undefined`
abbrev pub unless_empty : Text → Option Text
unless_empty [] = none
unless_empty (c ∷ s) = some (c ∷ s)

unfoldable pub body_of : Form → PublicBookingCreate
body_of f = record {
  service_id = f.service_id;
  date = f.date;
  time = f.time;
  name = trim f.name;
  phone = trim f.phone;
  email = unless_empty (trim f.email);
  notes = unless_empty (trim f.notes);
}
