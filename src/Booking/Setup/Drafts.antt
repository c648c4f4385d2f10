-- ===== src/Booking/Setup/Drafts.antt =====
-- What the panel of the settings calls saved, and what a save makes of the draft.
use whatsapp_bots_saa_s.Base.{◌≡◌, refl, sym, ◌∙◌, true, false, Option, none, some, List, [], ◌∷◌}
use mathlib.Core.Bool.{false≢true}
use whatsapp_bots_saa_s.Booking.Setup.{
  BookingSettings, SettingsUpdate, SettingsPanel, loading_panel, settings_loaded, services_answered,
  Patch, patched, patch_settings, update_body, begin_save, save, save_answered, begin_generate,
  generated, SetupEvent, was_loaded, reloaded, edited, save_clicked, generate_clicked, was_saved,
  was_generated, setup_step, setup_run,
}

-- What is called saved is what the server has.
abbrev pub IsHonest : SettingsPanel → Type 0
IsHonest s = s.saved ≡ true → s.settings ≡ s.stored

not_saved : (s : SettingsPanel) → s.saved ≡ false → IsHonest s
not_saved s h = λ k. absurd (false≢true (sym h ∙ k))

save-IsHonest :
    (o : Option BookingSettings) (s : SettingsPanel)
    → IsHonest s
    → IsHonest (
        let r : Option SettingsUpdate × SettingsPanel = elim o [
          | none ↦ (none, s)
          | some b ↦ (some (update_body b), begin_save s)
        ] in
        r.1)
unfolding begin_save
save-IsHonest none s h = h
save-IsHonest (some b) s h = λ k. absurd (false≢true k)

setup_step-IsHonest : (e : SetupEvent) (s : SettingsPanel) → IsHonest s → IsHonest (setup_step e s)
unfolding setup_step settings_loaded services_answered patch_settings save save_answered
    begin_generate generated
setup_step-IsHonest (was_loaded none) s h = h
setup_step-IsHonest (was_loaded (some (b, services))) s h = λ k. refl
setup_step-IsHonest (reloaded none) s h = h
setup_step-IsHonest (reloaded (some services)) s h = h
setup_step-IsHonest (edited p) s h = λ k. absurd (false≢true k)
setup_step-IsHonest save_clicked s h = save-IsHonest s.settings s h
setup_step-IsHonest generate_clicked s h = h
setup_step-IsHonest (was_saved none) s h = h
setup_step-IsHonest (was_saved (some b)) s h = λ k. refl
setup_step-IsHonest (was_generated none) s h = h
setup_step-IsHonest (was_generated (some t)) s h = λ k. absurd (false≢true k)

run-IsHonest : (es : List SetupEvent) (s : SettingsPanel) → IsHonest s → IsHonest (setup_run es s)
run-IsHonest [] s h = h
run-IsHonest (e ∷ es) s h = run-IsHonest es (setup_step e s) (setup_step-IsHonest e s h)

-- Whatever is edited, saved, generated and answered, in any order: when the panel says that the settings
-- are saved, the draft is what the server told last.
pub saved_lem :
    (es : List SetupEvent)
    → (setup_run es loading_panel).saved ≡ true
    → (setup_run es loading_panel).settings ≡ (setup_run es loading_panel).stored
saved_lem es h = run-IsHonest es loading_panel (λ k. absurd (false≢true k)) h

-- What the owner edits while a save is under way is gone when it is answered: the draft is the server's,
-- and it is called saved.
pub save_drops_edit :
    (s : SettingsPanel) (b updated : BookingSettings) (p : Patch)
    → s.settings ≡ some b
    → let t = setup_run (save_clicked ∷ edited p ∷ was_saved (some updated) ∷ []) s in
      ((setup_run (save_clicked ∷ edited p ∷ []) s).settings ≡ some (patched p b))
      × (t.settings ≡ some updated)
      × (t.saved ≡ true)
unfolding setup_step save save_answered patch_settings begin_save
save_drops_edit s b updated p h = (rw h refl, refl, refl)
