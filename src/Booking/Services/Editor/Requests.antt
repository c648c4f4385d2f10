-- ===== src/Booking/Services/Editor/Requests.antt =====
-- What the form sends, and rows whose requests overlap.
use whatsapp_bots_saa_s.Base.{
  ℕ, ◌≡◌, refl, ap, subst, ◌⊎◌, inl, inr, Bool, true, false, not, ◌||◌, Option, none, some, ◌∷◌,
  if◌then◌else◌, is_empty,
}
use mathlib.Core.Option.{some-injective}
use whatsapp_bots_saa_s.Text.{Text, text_eq, trim}
use whatsapp_bots_saa_s.Text.Laws.{text_eq_refl}
use whatsapp_bots_saa_s.Booking.Services.{number, is_positive, parse_price, ServiceCreate, or_null}
use whatsapp_bots_saa_s.Booking.Services.Editor.{
  EditorError, name_or_duration, update_failed, NewService, ServicesEditor, with_price,
  new_service_body, add_with, add, begin_request, drop_id, request_answered, is_busy,
}

-- A body that the form may send.
pub record IsFormBody (f : NewService) (body : ServiceCreate) : Type 0 where
  pub name : (body.name ≡ trim f.name) × (is_empty body.name ≡ false)
  pub duration :
      (body.duration_minutes ≡ number f.duration) × (is_positive body.duration_minutes ≡ true)
  pub price : parse_price f.price ≡ some body.price
  pub active : body.active ≡ true

with_price-IsFormBody :
    (f : NewService) (o : Option (Option ℕ)) (body : ServiceCreate)
    → is_empty (trim f.name) ≡ false
    → is_positive (number f.duration) ≡ true
    → parse_price f.price ≡ o
    → with_price f o ≡ inr body
    → IsFormBody f body
with_price-IsFormBody f none body n d p h = cc
with_price-IsFormBody f (some price) body n d p h =
    subst (IsFormBody f) (created_eq h)
      (record { name = (refl, n); duration = (refl, d); price = p; active = refl })
  where
    get : EditorError ⊎ ServiceCreate → ServiceCreate
    get (inl err) = record {
      name = trim f.name;
      duration_minutes = number f.duration;
      active = true;
      description = or_null (trim f.description);
      price = price;
    }
    get (inr b) = b

    created_eq : with_price f (some price) ≡ inr body → get (with_price f (some price)) ≡ body
    created_eq e = ap get e

-- The form sends a service only with a name, a positive duration and a price that is empty or a whole
-- number, as they are typed; otherwise the error is shown and nothing is sent.
pub add-IsFormBody :
    (s : ServicesEditor) (body : ServiceCreate) → (add s).0 ≡ some body → IsFormBody s.form body
unfolding add new_service_body
add-IsFormBody s body h =
    split (is_empty (trim f.name)) (is_positive (number f.duration)) refl refl h
  where
    f : NewService
    f = s.form

    sent_with : (r : EditorError ⊎ ServiceCreate) → (add_with r s).0 ≡ some body → r ≡ inr body
    sent_with (inl err) k = cc
    sent_with (inr b) k = ap inr (some-injective b body k)

    split :
        (a b : Bool)
        → is_empty (trim f.name) ≡ a
        → is_positive (number f.duration) ≡ b
        → (add_with
            (if a || not b then inl name_or_duration else with_price f (parse_price f.price))
            s).0
          ≡ some body
        → IsFormBody f body
    split true b e d k = cc
    split false false e d k = cc
    split false true e d k =
        with_price-IsFormBody f (parse_price f.price) body e d refl
          (sent_with (with_price f (parse_price f.price)) k)

-- Two rows are saved one after the other; when the first is answered, the second is not busy any more
-- although its request is still under way, and its buttons work again.
pub overlapping-not_busy :
    (a b : Text) (ok : Bool) (s : ServicesEditor)
    → text_eq b a ≡ false
    → let t = request_answered update_failed a ok (begin_request b (begin_request a s)) in
      (is_busy b t ≡ false) × (t.in_flight ≡ b ∷ s.in_flight)
unfolding request_answered begin_request drop_id is_busy
overlapping-not_busy a b true s h = rw (h, text_eq_refl a) (refl, refl)
overlapping-not_busy a b false s h = rw (h, text_eq_refl a) (refl, refl)
