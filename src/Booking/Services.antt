-- ===== src/Booking/Services.antt =====
-- frontend/src/components/booking/ServicesEditor.tsx: the services of a business, the form of a new one,
-- and the rows that edit the others. The answers of the server are events.
pub mod Patches
pub mod Editor
use whatsapp_bots_saa_s.Base.{
  ℕ, Bool, true, false, not, ◌&&◌, ◌||◌, Option, none, some, [], ◌∷◌, ◌==◌, if◌then◌else◌,
  get_or_else, is_none, all, is_empty,
}
use whatsapp_bots_saa_s.Text.{Text, text_eq, trim, before, is_digit}
use whatsapp_bots_saa_s.Text.Decimal.{read, show}

-- What `Number(text)` gives: a whole number, a positive one with a fraction, a negative one, or NaN.
-- (An exponent is read as NaN, and so is another radix: neither is what a number field is typed as.)
pub data Number : Type 0 where
  whole : ℕ → Number
  fraction : Text → Number
  negative : Number
  nan : Number

unfoldable pub after_dot : Text → Option Text
after_dot [] = none
after_dot (c ∷ s) = let rest = after_dot s in if c == b'.' then some s else rest

abbrev pub is_zero_digit : ℕ → Bool
is_zero_digit c = c == b'0'

-- Digits, a point and digits; one of the two runs may be missing.
unfoldable pub with_fraction : Text → Text → Text → Number
unfolding is_digit read
with_fraction s int frac =
    if (is_empty int && is_empty frac) || not (all is_digit int) || not (all is_digit frac)
    then nan
    else if all is_zero_digit frac
    then whole (read int)
    else fraction s

unfoldable pub unsigned : Text → Number
unfolding with_fraction after_dot before is_digit read
unsigned s = elim (after_dot s) [
  | none ↦ if is_empty s || not (all is_digit s) then nan else whole (read s)
  | some frac ↦ with_fraction s (before b'.' s) frac
]

abbrev pub negated : Number → Number
negated (whole n) = if n == 0 then whole 0 else negative
negated (fraction s) = negative
negated negative = negative
negated nan = nan

unfoldable pub signed : Text → Number
unfolding unsigned
signed [] = whole 0
signed (c ∷ s) =
    if c == b'-' then negated (unsigned s) else if c == b'+' then unsigned s else unsigned (c ∷ s)

unfoldable pub number : Text → Number
unfolding signed trim
number s = signed (trim s)

-- `Number.isFinite(n) && n > 0`.
unfoldable pub is_positive : Number → Bool
is_positive (whole n) = not (n == 0)
is_positive (fraction s) = true
is_positive negative = false
is_positive nan = false

abbrev pub whole? : Number → Option ℕ
whole? (whole n) = some n
whole? (fraction s) = none
whole? negative = none
whole? nan = none

abbrev pub priced : Option ℕ → Option (Option ℕ)
priced none = none
priced (some n) = some (some n)

-- `none` is invalid, and `some none` no price.
unfoldable pub parse_price : Text → Option (Option ℕ)
unfolding number trim
parse_price raw = if is_empty (trim raw) then some none else priced (whole? (number (trim raw)))

pub record Service : Type 0 where
  pub id : Text
  pub name : Text
  pub duration_minutes : ℕ
  pub active : Bool
  pub description : Option Text
  pub price : Option ℕ

-- `none` leaves a field out.
pub record ServiceUpdate : Type 0 where
  pub name : Option Text
  pub duration_minutes : Option Number
  pub active : Option Bool
  pub description : Option (Option Text)
  pub price : Option (Option ℕ)

pub record ServiceCreate : Type 0 where
  pub name : Text
  pub duration_minutes : Number
  pub active : Bool
  pub description : Option Text
  pub price : Option ℕ

-- The draft of a row.
pub record Row : Type 0 where
  pub name : Text
  pub duration : Text
  pub description : Text
  pub price : Text

unfoldable pub row_of : Service → Row
unfolding show
row_of s = record {
  name = s.name;
  duration = show s.duration_minutes;
  description = get_or_else s.description [];
  price = elim s.price [ none ↦ [] | some n ↦ show n ];
}

-- `dur !== service.duration_minutes`.
unfoldable pub is_other : Number → ℕ → Bool
is_other (whole m) n = not (m == n)
is_other (fraction s) n = true
is_other negative n = true
is_other nan n = true

unfoldable pub same_price : Option ℕ → Option ℕ → Bool
same_price none none = true
same_price none (some n) = false
same_price (some m) none = false
same_price (some m) (some n) = m == n

unfoldable pub price_changed : Option (Option ℕ) → Service → Bool
unfolding same_price
price_changed none s = false
price_changed (some price) s = not (same_price price s.price)

unfoldable pub is_dirty : Row → Service → Bool
unfolding trim text_eq number is_positive is_other parse_price price_changed
is_dirty r s =
    not (text_eq (trim r.name) s.name)
    || (is_positive (number r.duration) && is_other (number r.duration) s.duration_minutes)
    || not (text_eq (trim r.description) (get_or_else s.description []))
    || price_changed (parse_price r.price) s

unfoldable pub is_valid : Row → Bool
unfolding trim number is_positive parse_price
is_valid r =
    not (is_empty (trim r.name))
    && is_positive (number r.duration)
    && not (is_none (parse_price r.price))

-- `text || null`.
unfoldable pub or_null : Text → Option Text
or_null s = if is_empty s then none else some s

unfoldable pub update_of : Row → Option ℕ → Service → ServiceUpdate
unfolding trim text_eq number is_other or_null same_price
update_of r price s = record {
  name = if text_eq (trim r.name) s.name then none else some (trim r.name);
  duration_minutes =
      if is_other (number r.duration) s.duration_minutes then some (number r.duration) else none;
  active = none;
  description =
      if text_eq (trim r.description) (get_or_else s.description [])
      then none
      else some (or_null (trim r.description));
  price = if same_price price s.price then none else some price;
}

-- `save`: the update, or the error about the price.
unfoldable pub save : Row → Service → Option ServiceUpdate
unfolding update_of parse_price
save r s = elim (parse_price r.price) [ none ↦ none | some price ↦ some (update_of r price s) ]

-- The button of the row.
unfoldable pub click_save : Bool → Row → Service → Option ServiceUpdate
unfolding save is_dirty is_valid
click_save busy r s = if busy || not (is_dirty r s) || not (is_valid r) then none else save r s
