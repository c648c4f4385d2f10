-- ===== src/Booking/Hours/Editing.antt =====
-- What an edit in WorkingHoursEditor.tsx changes, and what it leaves.
use whatsapp_bots_saa_s.Base.{
  ℕ, zero, suc, ◌≡◌, refl, ap, ◌∙◌, ◌≢◌, false, some, List, [], ◌∷◌, ◌++◌, length, get_elem?,
}
use mathlib.Core.Option.{some-injective}
use whatsapp_bots_saa_s.Text.{Text, text_eq}
use whatsapp_bots_saa_s.Dict.Laws.{lookup-put, lookup-put_self}
use whatsapp_bots_saa_s.Booking.Hours.{
  HoursRange, RangeField, WorkingHours, day_ranges, set_day, new_range, add_range, without,
  remove_range, with_field, replaced, update_range,
}

day_ranges-set_day :
    (key : Text) (ranges : List HoursRange) (value : WorkingHours)
    → day_ranges key (set_day key ranges value) ≡ ranges
unfolding day_ranges set_day
day_ranges-set_day key ranges value = rw (lookup-put_self key ranges value) refl

day_ranges-set_day_other :
    (key other : Text) (ranges : List HoursRange) (value : WorkingHours)
    → text_eq key other ≡ false
    → day_ranges other (set_day key ranges value) ≡ day_ranges other value
unfolding day_ranges set_day
day_ranges-set_day_other key other ranges value n = rw (lookup-put key other ranges value, n) refl

without-append_last :
    (rs : List HoursRange) (r : HoursRange) → without (length rs) (rs ++ r ∷ []) ≡ rs
unfolding without
without-append_last [] r = refl
without-append_last (q ∷ rs) r = ap (λ xs. q ∷ xs) (without-append_last rs r)

get_elem?-replaced :
    (idx : ℕ) (field : RangeField) (v : Text) (rs : List HoursRange) {r : HoursRange}
    → get_elem? rs idx ≡ some r
    → get_elem? (replaced idx field v rs) idx ≡ some (with_field field v r)
unfolding replaced
get_elem?-replaced idx field v [] h = cc
get_elem?-replaced zero field v (q ∷ rs) h =
    ap (λ x. some (with_field field v x)) (some-injective _ _ h)
get_elem?-replaced (suc idx) field v (q ∷ rs) h = get_elem?-replaced idx field v rs h

get_elem?-replaced_other :
    (idx j : ℕ) (field : RangeField) (v : Text) (rs : List HoursRange)
    → idx ≢ j
    → get_elem? (replaced idx field v rs) j ≡ get_elem? rs j
unfolding replaced
get_elem?-replaced_other idx j field v [] n = refl
get_elem?-replaced_other zero zero field v (q ∷ rs) n = absurd (n refl)
get_elem?-replaced_other zero (suc j) field v (q ∷ rs) n = refl
get_elem?-replaced_other (suc idx) zero field v (q ∷ rs) n = refl
get_elem?-replaced_other (suc idx) (suc j) field v (q ∷ rs) n =
    get_elem?-replaced_other idx j field v rs (λ e. n (ap suc e))

-- A new range stands at the end of its day, and removing it again gives the day's ranges back.
-- Changing a range changes that one only, and an edit of one day leaves every other day.
pub edit_hours_lem :
    (key : Text) (value : WorkingHours)
    → (day_ranges key (add_range key value) ≡ day_ranges key value ++ new_range ∷ [])
      × (day_ranges key (remove_range key (length (day_ranges key value)) (add_range key value))
          ≡ day_ranges key value)
      × ((idx : ℕ) (field : RangeField) (v : Text) (r : HoursRange)
          → get_elem? (day_ranges key value) idx ≡ some r
          → get_elem? (day_ranges key (update_range key idx field v value)) idx
            ≡ some (with_field field v r))
      × ((idx j : ℕ) (field : RangeField) (v : Text)
          → idx ≢ j
          → get_elem? (day_ranges key (update_range key idx field v value)) j
            ≡ get_elem? (day_ranges key value) j)
      × ((other : Text) (idx : ℕ) (field : RangeField) (v : Text)
          → text_eq key other ≡ false
          → (day_ranges other (add_range key value) ≡ day_ranges other value)
            × (day_ranges other (remove_range key idx value) ≡ day_ranges other value)
            × (day_ranges other (update_range key idx field v value) ≡ day_ranges other value))
unfolding add_range remove_range update_range
edit_hours_lem key value =
    let rs = day_ranges key value in
    (
      day_ranges-set_day key _ value,
      day_ranges-set_day key _ _
          ∙ ap (without (length rs)) (day_ranges-set_day key _ value)
          ∙ without-append_last rs new_range,
      λ idx field v r h.
          ap (λ xs. get_elem? xs idx) (day_ranges-set_day key _ value)
          ∙ get_elem?-replaced idx field v rs h,
      λ idx j field v n.
          ap (λ xs. get_elem? xs j) (day_ranges-set_day key _ value)
          ∙ get_elem?-replaced_other idx j field v rs n,
      λ other idx field v n. (
        day_ranges-set_day_other key other _ value n,
        day_ranges-set_day_other key other _ value n,
        day_ranges-set_day_other key other _ value n,
      ),
    )
