-- ===== src/Booking/Setup.antt =====
-- frontend/src/components/booking/BookingSettingsPanel.tsx: the settings and services of the owner, the
-- draft that is edited, its saving, and the welcome that the AI writes. The panel loads once; its
-- requests are answered in any order. `stored` is no variable of the program: it notes the settings
-- that the server told last.
pub mod Drafts
use whatsapp_bots_saa_s.Base.{
  ℕ, Bool, true, false, Option, none, some, List, [], ◌∷◌, take, filter_by,
}
use whatsapp_bots_saa_s.Text.{Text, trim}
use whatsapp_bots_saa_s.Booking.Hours.{WorkingHours}
use whatsapp_bots_saa_s.Booking.Services.{Service, or_null}

abbrev pub welcome_max : ℕ
welcome_max = 600

pub record BookingSettings : Type 0 where
  pub slug : Text
  pub timezone : Text
  pub working_hours : WorkingHours
  pub min_notice_minutes : ℕ
  pub buffer_minutes : ℕ
  pub max_days_ahead : ℕ
  pub meet_enabled : Bool
  pub welcome_message : Option Text

pub record SettingsUpdate : Type 0 where
  pub working_hours : WorkingHours
  pub min_notice_minutes : ℕ
  pub buffer_minutes : ℕ
  pub max_days_ahead : ℕ
  pub meet_enabled : Bool
  pub welcome_message : Option Text

pub record SettingsPanel : Type 0 where
  pub settings : Option BookingSettings
  pub services : List Service
  pub loading : Bool
  pub error : Bool
  pub saving : Bool
  pub save_error : Bool
  pub saved : Bool
  pub generating : Bool
  pub gen_error : Bool
  pub stored : Option BookingSettings

-- After the effect has called the server.
abbrev pub loading_panel : SettingsPanel
loading_panel = record {
  settings = none;
  services = [];
  loading = true;
  error = false;
  saving = false;
  save_error = false;
  saved = false;
  generating = false;
  gen_error = false;
  stored = none;
}

unfoldable pub settings_loaded :
    Option (BookingSettings × List Service) → SettingsPanel → SettingsPanel
settings_loaded none s = record s { error = true; loading = false }
settings_loaded (some (settings, services)) s = record s {
  settings = some settings;
  services = services;
  stored = some settings;
  loading = false;
}

-- The list that `reloadServices` asked for; a failure keeps the one that is there.
unfoldable pub services_answered : Option (List Service) → SettingsPanel → SettingsPanel
services_answered none s = s
services_answered (some services) s = record s { services = services }

-- A change of the draft.
pub data Patch : Type 0 where
  hours : WorkingHours → Patch
  min_notice buffer days_ahead : ℕ → Patch
  meet : Bool → Patch
  welcome : Text → Patch

unfoldable pub patched : Patch → BookingSettings → BookingSettings
patched (hours w) b = record b { working_hours = w }
patched (min_notice n) b = record b { min_notice_minutes = n }
patched (buffer n) b = record b { buffer_minutes = n }
patched (days_ahead n) b = record b { max_days_ahead = n }
patched (meet m) b = record b { meet_enabled = m }
patched (welcome t) b = record b { welcome_message = some t }

abbrev pub map_settings :
    (BookingSettings → BookingSettings) → Option BookingSettings → Option BookingSettings
map_settings f none = none
map_settings f (some b) = some (f b)

unfoldable pub patch_settings : Patch → SettingsPanel → SettingsPanel
unfolding patched
patch_settings p s = record s { settings = map_settings (patched p) s.settings; saved = false }

-- `welcome?.trim() || null`.
unfoldable pub welcome_of : Option Text → Option Text
unfolding trim or_null
welcome_of none = none
welcome_of (some t) = or_null (trim t)

-- The body of the PUT.
unfoldable pub update_body : BookingSettings → SettingsUpdate
unfolding welcome_of
update_body b = record {
  working_hours = b.working_hours;
  min_notice_minutes = b.min_notice_minutes;
  buffer_minutes = b.buffer_minutes;
  max_days_ahead = b.max_days_ahead;
  meet_enabled = b.meet_enabled;
  welcome_message = welcome_of b.welcome_message;
}

unfoldable pub begin_save : SettingsPanel → SettingsPanel
begin_save s = record s { saving = true; save_error = false; saved = false }

-- `save` as far as its request.
unfoldable pub save : SettingsPanel → Option SettingsUpdate × SettingsPanel
unfolding update_body begin_save
save s = elim s.settings [ none ↦ (none, s) | some b ↦ (some (update_body b), begin_save s) ]

-- Its answer: the settings as the server has them, or a failure.
unfoldable pub save_answered : Option BookingSettings → SettingsPanel → SettingsPanel
save_answered none s = record s { save_error = true; saving = false }
save_answered (some updated) s = record s {
  settings = some updated;
  stored = some updated;
  saved = true;
  saving = false;
}

unfoldable pub begin_generate : SettingsPanel → SettingsPanel
begin_generate s = record s { generating = true; gen_error = false }

-- The welcome that the AI wrote, cut to the limit of the field.
unfoldable pub generated : Option Text → SettingsPanel → SettingsPanel
unfolding patch_settings
generated none s = record s { gen_error = true; generating = false }
generated (some message) s = record (patch_settings (welcome (take welcome_max message)) s) {
  generating = false;
}

-- The services of the preview, as the public page sees them.
unfoldable pub preview_services : List Service → List Service
preview_services services = filter_by (λ s. s.active) services

pub data SetupEvent : Type 0 where
  was_loaded : Option (BookingSettings × List Service) → SetupEvent
  reloaded : Option (List Service) → SetupEvent
  edited : Patch → SetupEvent
  save_clicked generate_clicked : SetupEvent
  was_saved : Option BookingSettings → SetupEvent
  was_generated : Option Text → SetupEvent

unfoldable pub setup_step : SetupEvent → SettingsPanel → SettingsPanel
unfolding settings_loaded services_answered patch_settings save save_answered begin_generate
    generated
setup_step (was_loaded answer) s = settings_loaded answer s
setup_step (reloaded answer) s = services_answered answer s
setup_step (edited p) s = patch_settings p s
setup_step save_clicked s = (save s).1
setup_step generate_clicked s = begin_generate s
setup_step (was_saved answer) s = save_answered answer s
setup_step (was_generated answer) s = generated answer s

abbrev pub setup_run : List SetupEvent → SettingsPanel → SettingsPanel
setup_run [] s = s
setup_run (e ∷ es) s = setup_run es (setup_step e s)
