-- ===== src/Accessibility/Tests.antt =====
-- The preferences of useA11yPreferences.ts at concrete inputs.
use whatsapp_bots_saa_s.Base.{◌≡◌, refl, true, List, [], ◌∷◌}
use whatsapp_bots_saa_s.Text.{codes, text_eq, mem_text}
use whatsapp_bots_saa_s.Accessibility.{
  high_contrast, large_text, pref, Document, remove_class, toggle_class, toggle_on, apply_class,
  apply_classes, broken, read_stored, mount, toggle, Click, toggled, click, click_all,
}

abbrev blank : Document
blank = record { html_classes = codes "js" ∷ []; body_classes = [] }

abbrev clicks : List Click
clicks = toggled large_text true ∷ toggled high_contrast true ∷ toggled large_text true ∷ []

click_tests :
    ((click_all clicks (mount broken blank)).document
      ≡ record { html_classes = codes "js" ∷ []; body_classes = codes "a11y-high-contrast" ∷ [] })
    × (pref (click_all clicks (mount broken blank)).prefs high_contrast ≡ true)
unfolding click_all click toggle mount read_stored apply_classes apply_class toggle_on toggle_class
    remove_class text_eq mem_text
click_tests = (refl, refl)
