-- ===== src/Booking/Services/Patches.antt =====
-- What the update of a row of ServicesEditor.tsx makes of its service.
use whatsapp_bots_saa_s.Base.{
  ℕ, ◌≡◌, refl, sym, ap, ◌∙◌, subst, inl, inr, Bool, true, false, not, ◌||◌, Option, none, some, [],
  ◌∷◌, ◌==◌, if◌then◌else◌, ==_iff, Bool-cases, get_or_else,
}
use mathlib.Core.Option.{some-injective}
use whatsapp_bots_saa_s.Text.{Text, text_eq, trim}
use whatsapp_bots_saa_s.Text.Laws.{text_eq→eq}
use whatsapp_bots_saa_s.Booking.Services.{
  Number, whole, fraction, negative, nan, number, parse_price, Service, ServiceUpdate, Row,
  is_other, same_price, is_dirty, is_valid, or_null, update_of, save, click_save,
}

-- A service after an update: a field that is left out stays, `null` clears.
pub record Updated : Type 0 where
  pub name : Text
  pub duration_minutes : Number
  pub active : Bool
  pub description : Option Text
  pub price : Option ℕ

abbrev pub apply_update : ServiceUpdate → Service → Updated
apply_update body s = record {
  name = get_or_else body.name s.name;
  duration_minutes = get_or_else body.duration_minutes (whole s.duration_minutes);
  active = get_or_else body.active s.active;
  description = get_or_else body.description s.description;
  price = get_or_else body.price s.price;
}

-- The service is what the row shows.
pub record IsShown (r : Row) (s : Service) (u : Updated) : Type 0 where
  pub name : u.name ≡ trim r.name
  pub duration : u.duration_minutes ≡ number r.duration
  pub active : u.active ≡ s.active
  pub description : get_or_else u.description [] ≡ trim r.description
  pub price : parse_price r.price ≡ some u.price

name_lem : (new old : Text) → get_or_else (if text_eq new old then none else some new) old ≡ new
name_lem new old = elim (Bool-cases (text_eq new old)) [
  | inl e ↦ rw e (sym (text_eq→eq new old e))
  | inr e ↦ rw e refl
]

duration_lem :
    (d : Number) (old : ℕ) → get_or_else (if is_other d old then some d else none) (whole old) ≡ d
unfolding is_other
duration_lem (whole m) old = elim (Bool-cases (m == old)) [
  | inl e ↦ rw e (ap whole (sym ((==_iff m old).0 e)))
  | inr e ↦ rw e refl
]
duration_lem (fraction s) old = refl
duration_lem negative old = refl
duration_lem nan old = refl

or_null_lem : (s : Text) → get_or_else (or_null s) [] ≡ s
unfolding or_null
or_null_lem [] = refl
or_null_lem (c ∷ s) = refl

description_lem :
    (new : Text) (old : Option Text)
    → get_or_else
        (get_or_else (if text_eq new (get_or_else old []) then none else some (or_null new)) old)
        []
      ≡ new
description_lem new old = elim (Bool-cases (text_eq new (get_or_else old []))) [
  | inl e ↦ rw e (sym (text_eq→eq new (get_or_else old []) e))
  | inr e ↦ rw e (or_null_lem new)
]

price_lem :
    (new old : Option ℕ) → get_or_else (if same_price new old then none else some new) old ≡ new
unfolding same_price
price_lem none none = refl
price_lem none (some n) = refl
price_lem (some m) none = refl
price_lem (some m) (some n) = elim (Bool-cases (m == n)) [
  | inl e ↦ rw e (ap some (sym ((==_iff m n).0 e)))
  | inr e ↦ rw e refl
]

update_of-IsShown :
    (r : Row) (price : Option ℕ) (s : Service)
    → parse_price r.price ≡ some price
    → IsShown r s (apply_update (update_of r price s) s)
unfolding update_of
update_of-IsShown r price s h = record {
  name = name_lem (trim r.name) s.name;
  duration = duration_lem (number r.duration) s.duration_minutes;
  active = refl;
  description = description_lem (trim r.description) s.description;
  price = h ∙ ap some (sym (price_lem price s.price));
}

saved_with : Row → Service → Option (Option ℕ) → Option ServiceUpdate
saved_with r s o = elim o [ none ↦ none | some price ↦ some (update_of r price s) ]

saved_with-IsShown :
    (r : Row) (s : Service) (o : Option (Option ℕ)) (body : ServiceUpdate)
    → parse_price r.price ≡ o
    → saved_with r s o ≡ some body
    → IsShown r s (apply_update body s)
unfolding saved_with
saved_with-IsShown r s none body h k = cc
saved_with-IsShown r s (some price) body h k =
    subst (λ b. IsShown r s (apply_update b s)) (some-injective _ _ k)
      (update_of-IsShown r price s h)

guarded_save :
    (a b c : Bool) (o : Option ServiceUpdate) (body : ServiceUpdate)
    → (if a || not b || not c then none else o) ≡ some body
    → (a ≡ false) × (b ≡ true) × (c ≡ true) × (o ≡ some body)
guarded_save true b c o body h = cc
guarded_save false true true o body h = (refl, refl, refl, h)
guarded_save false true false o body h = cc
guarded_save false false c o body h = cc

-- A row is saved only while it is not busy, and with a draft that has a name, a positive duration and
-- a price that is empty or a whole number; and the update that is sent leaves the service with exactly
-- the name, duration, description and price of the draft, and as active as it was.
pub click_save-IsShown :
    (busy : Bool) (r : Row) (s : Service) (body : ServiceUpdate)
    → click_save busy r s ≡ some body
    → (busy ≡ false) × (is_valid r ≡ true) × IsShown r s (apply_update body s)
unfolding click_save save saved_with
click_save-IsShown busy r s body h =
    let (a, b, c, k) = guarded_save busy (is_dirty r s) (is_valid r) (save r s) body h in
    (a, c, saved_with-IsShown r s (parse_price r.price) body refl k)
