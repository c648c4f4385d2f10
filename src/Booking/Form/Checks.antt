-- ===== src/Booking/Form/Checks.antt =====
-- What `validate` of BookingFlow.tsx lets through, and what the request body then holds.
use whatsapp_bots_saa_s.Base.{
  ℕ, ◌≤◌, ◌≡◌, refl, ◌∙◌, subst, true, false, none, some, [], ◌∷◌, arith, length, is_empty,
}
use whatsapp_bots_saa_s.Text.{Text, trim, trim_start, trim_end, keep_unless_blank}
use whatsapp_bots_saa_s.Booking.Form.{
  Form, strip_separators, is_valid_phone, is_valid_email, validate, unless_empty, body_of,
}

-- What a complete form has.
pub record IsComplete (f : Form) : Type 0 where
  pub service : is_empty f.service_id ≡ false
  pub date : is_empty f.date ≡ false
  pub time : is_empty f.time ≡ false
  pub name : 2 ≤ length (trim f.name)
  pub phone : is_valid_phone f.phone ≡ true
  pub email : is_empty (trim f.email) ≡ false → is_valid_email (trim f.email) ≡ true

-- `validate` finds nothing to say exactly of a complete form.
pub validate-IsComplete :
    (f : Form) → (validate f ≡ none → IsComplete f) × (IsComplete f → validate f ≡ none)
unfolding validate
validate-IsComplete f = (
  λ h. record {
    service = ground arith;
    date = ground arith;
    time = ground arith;
    name = ground arith;
    phone = ground arith;
    email = ground arith;
  },
  λ c. ground (arith, c.service, c.date, c.time, c.name, c.phone, c.email),
)

-- Trimming takes away only what the phone check takes away too.
strip-trim_start : (s : Text) → strip_separators (trim_start s) ≡ strip_separators s
unfolding strip_separators trim_start
strip-trim_start [] = refl
strip-trim_start (c ∷ s) = ground (arith, strip-trim_start s)

strip-keep_unless_blank :
    (c : ℕ) (s : Text) → strip_separators (keep_unless_blank c s) ≡ strip_separators (c ∷ s)
unfolding strip_separators keep_unless_blank
strip-keep_unless_blank c [] = ground arith
strip-keep_unless_blank c (d ∷ s) = refl

strip-cons :
    (c : ℕ) (s t : Text)
    → strip_separators s ≡ strip_separators t
    → strip_separators (c ∷ s) ≡ strip_separators (c ∷ t)
unfolding strip_separators
strip-cons c s t e = rw e

strip-trim_end : (s : Text) → strip_separators (trim_end s) ≡ strip_separators s
unfolding trim_end
strip-trim_end [] = refl
strip-trim_end (c ∷ s) =
    strip-keep_unless_blank c (trim_end s) ∙ strip-cons c (trim_end s) s (strip-trim_end s)

strip-trim : (s : Text) → strip_separators (trim s) ≡ strip_separators s
unfolding trim
strip-trim s = strip-trim_end (trim_start s) ∙ strip-trim_start s

is_valid_phone-trim : (s : Text) → is_valid_phone (trim s) ≡ is_valid_phone s
unfolding is_valid_phone
is_valid_phone-trim s = rw (strip-trim s)

unless_empty-some : (s : Text) {t : Text} → unless_empty s ≡ some t → (s ≡ t) × (is_empty s ≡ false)
unless_empty-some [] h = cc
unless_empty-some (c ∷ s) h = (cc, refl)

-- The body that goes out for a form that passed: a service, a date and a time, a name of two code
-- units at least, a phone that is valid as it is sent, and an email only if it is valid.
pub body_of_lem :
    (f : Form)
    → validate f ≡ none
    → (is_empty (body_of f).service_id ≡ false)
      × (is_empty (body_of f).date ≡ false)
      × (is_empty (body_of f).time ≡ false)
      × (2 ≤ length (body_of f).name)
      × (is_valid_phone (body_of f).phone ≡ true)
      × ((e : Text) → (body_of f).email ≡ some e → is_valid_email e ≡ true)
unfolding body_of
body_of_lem f h =
    let c = (validate-IsComplete f).0 h in
    (
      c.service,
      c.date,
      c.time,
      c.name,
      is_valid_phone-trim f.phone ∙ c.phone,
      λ e p.
          let (same, there) = unless_empty-some (trim f.email) p in
          subst (λ t. is_valid_email t ≡ true) same (c.email there),
    )
