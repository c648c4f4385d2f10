-- ===== src/Booking/Hours.antt =====
-- The owner's working hours: frontend/src/components/booking/WorkingHoursEditor.tsx, with the types of
-- dashboard/appointmentTypes.ts. The editor hands a new object to its parent at every edit.
pub mod Editing
use whatsapp_bots_saa_s.Base.{ℕ, zero, suc, List, [], ◌∷◌, ◌++◌, get_or_else}
use whatsapp_bots_saa_s.Text.{Text, codes}
use whatsapp_bots_saa_s.Dict.{lookup, put}

pub record HoursRange : Type 0 where
  pub s : Text
  pub e : Text

pub data RangeField : Type 0 where
  start_time end_time : RangeField

-- By the weekday's key, "0" to "6".
abbrev pub WorkingHours : Type 0
WorkingHours = List (Text × List HoursRange)

-- `value[dayKey] ?? []`
unfoldable pub day_ranges : Text → WorkingHours → List HoursRange
day_ranges key value = get_or_else (lookup key value) []

unfoldable pub set_day : Text → List HoursRange → WorkingHours → WorkingHours
set_day key ranges value = put key ranges value

abbrev pub new_range : HoursRange
new_range = record { s = codes "09:00"; e = codes "17:00" }

unfoldable pub add_range : Text → WorkingHours → WorkingHours
add_range key value = set_day key (day_ranges key value ++ new_range ∷ []) value

-- `ranges.filter((_, i) => i !== idx)`
unfoldable pub without : ℕ → List HoursRange → List HoursRange
without idx [] = []
without zero (r ∷ rs) = rs
without (suc idx) (r ∷ rs) = r ∷ without idx rs

unfoldable pub remove_range : Text → ℕ → WorkingHours → WorkingHours
remove_range key idx value = set_day key (without idx (day_ranges key value)) value

abbrev pub with_field : RangeField → Text → HoursRange → HoursRange
with_field start_time v r = record r { s = v }
with_field end_time v r = record r { e = v }

-- `ranges.map((r, i) => (i === idx ? { ...r, [field]: v } : r))`
unfoldable pub replaced : ℕ → RangeField → Text → List HoursRange → List HoursRange
replaced idx field v [] = []
replaced zero field v (r ∷ rs) = with_field field v r ∷ rs
replaced (suc idx) field v (r ∷ rs) = r ∷ replaced idx field v rs

unfoldable pub update_range : Text → ℕ → RangeField → Text → WorkingHours → WorkingHours
update_range key idx field v value = set_day key (replaced idx field v (day_ranges key value)) value
