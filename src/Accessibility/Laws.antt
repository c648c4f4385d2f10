-- ===== src/Accessibility/Laws.antt =====
-- The state of useA11yPreferences.ts, the classes on the page and the storage agree.
use whatsapp_bots_saa_s.Base.{
  ◌≡◌, refl, sym, ap, ◌∙◌, inl, inr, Bool, true, false, not, ◌&&◌, ◌||◌, List, [], ◌∷◌, ◌++◌, arith,
  if◌then◌else◌, Bool-cases, all,
}
use whatsapp_bots_saa_s.Text.{Text, text_eq, mem_text}
use whatsapp_bots_saa_s.Text.Laws.{text_eq→eq}
use whatsapp_bots_saa_s.Accessibility.{
  PreferenceKey, high_contrast, large_text, underline_links, focus_highlight, stop_animations,
  Preferences, default_prefs, pref, set_pref, ClassTarget, html, body, class_name, target, Document,
  remove_class, toggle_class, toggle_on, apply_class, apply_classes, Stored, read_stored, Widget,
  mount, toggle, reset, Click, toggled, cleared, click, click_all,
}

text_eq_comm : (s t : Text) → text_eq s t ≡ text_eq t s
unfolding text_eq
text_eq_comm [] [] = refl
text_eq_comm [] (d ∷ t) = refl
text_eq_comm (c ∷ s) [] = refl
text_eq_comm (c ∷ s) (d ∷ t) = ground (arith, text_eq_comm s t)

text_eq-same : (c t name : Text) → text_eq c t ≡ true → text_eq t name ≡ text_eq c name
text_eq-same c t name h = ap (λ x. text_eq x name) (sym (text_eq→eq c t h))

mem_text-remove_class :
    (name t : Text) (cs : List Text)
    → mem_text t (remove_class name cs) ≡ (not (text_eq t name) && mem_text t cs)
unfolding mem_text remove_class
mem_text-remove_class name t [] = ground arith
mem_text-remove_class name t (c ∷ cs) =
    let rest = mem_text-remove_class name t cs in
    elim (Bool-cases (text_eq c t)) [
      | inl here ↦ ground (arith, rest, text_eq-same c t name here)
      | inr away ↦ elim (Bool-cases (text_eq c name)) [
        | inl gone ↦ ground (arith, rest)
        | inr kept ↦ ground (arith, rest)
      ]
    ]

mem_text-append :
    (t : Text) (xs ys : List Text) → mem_text t (xs ++ ys) ≡ (mem_text t xs || mem_text t ys)
unfolding mem_text
mem_text-append t [] ys = refl
mem_text-append t (x ∷ xs) ys = ground (arith, mem_text-append t xs ys)

mem_text-toggle_class :
    (name t : Text) (force : Bool) (cs : List Text)
    → mem_text t (toggle_class name force cs) ≡ (if text_eq t name then force else mem_text t cs)
unfolding toggle_class mem_text
mem_text-toggle_class name t false cs = ground (arith, mem_text-remove_class name t cs)
mem_text-toggle_class name t true cs = elim (Bool-cases (text_eq t name)) [
  | inl here ↦ ground (
    arith,
    mem_text-append t cs (name ∷ []),
    text_eq_comm t name,
    ap (λ x. mem_text x cs) (text_eq→eq t name here),
  )
  | inr away ↦ ground (arith, mem_text-append t cs (name ∷ []), text_eq_comm t name)
]

-- The class that is there for a key.
abbrev pub classes_of : ClassTarget → Document → List Text
classes_of html d = d.html_classes
classes_of body d = d.body_classes

abbrev pub has_class : PreferenceKey → Document → Bool
has_class key d = mem_text (class_name key) (classes_of (target key) d)

-- After `applyClasses` the class of a preference is there exactly if the preference is set.
has_class-apply_classes :
    (prefs : Preferences) (key : PreferenceKey) (d : Document)
    → has_class key (apply_classes prefs d) ≡ pref prefs key
unfolding apply_classes apply_class toggle_on text_eq
has_class-apply_classes prefs high_contrast d =
    mem_text-toggle_class (class_name stop_animations) (class_name high_contrast) _ _
    ∙ mem_text-toggle_class (class_name focus_highlight) (class_name high_contrast) _ _
    ∙ mem_text-toggle_class (class_name underline_links) (class_name high_contrast) _ _
    ∙ mem_text-toggle_class (class_name high_contrast) (class_name high_contrast) _ _
has_class-apply_classes prefs large_text d =
    mem_text-toggle_class (class_name large_text) (class_name large_text) _ _
has_class-apply_classes prefs underline_links d =
    mem_text-toggle_class (class_name stop_animations) (class_name underline_links) _ _
    ∙ mem_text-toggle_class (class_name focus_highlight) (class_name underline_links) _ _
    ∙ mem_text-toggle_class (class_name underline_links) (class_name underline_links) _ _
has_class-apply_classes prefs focus_highlight d =
    mem_text-toggle_class (class_name stop_animations) (class_name focus_highlight) _ _
    ∙ mem_text-toggle_class (class_name focus_highlight) (class_name focus_highlight) _ _
has_class-apply_classes prefs stop_animations d =
    mem_text-toggle_class (class_name stop_animations) (class_name stop_animations) _ _

-- What a click wrote, or whether it wrote nothing.
abbrev pub is_written : Click → Bool
is_written (toggled key written) = written
is_written (cleared removed) = removed

pub record InStep (w : Widget) : Type 0 where
  pub classes : (key : PreferenceKey) → has_class key w.document ≡ pref w.prefs key

mount-InStep : (stored : Stored) (d : Document) → InStep (mount stored d)
unfolding mount
mount-InStep stored d = record {
  classes = λ key. has_class-apply_classes (read_stored stored) key d;
}

click-InStep : (c : Click) (w : Widget) → InStep (click c w)
unfolding click toggle reset
click-InStep (toggled key written) w = record {
  classes =
      λ k. has_class-apply_classes (set_pref key (not (pref w.prefs key)) w.prefs) k w.document;
}
click-InStep (cleared removed) w = record {
  classes = λ k. has_class-apply_classes default_prefs k w.document;
}

click_all-InStep : (cs : List Click) (w : Widget) → InStep w → InStep (click_all cs w)
unfolding click_all
click_all-InStep [] w h = h
click_all-InStep (c ∷ cs) w h = click_all-InStep cs (click c w) (click-InStep c w)

-- A click that was written is read back.
click-read_stored :
    (c : Click) (w : Widget)
    → is_written c ≡ true
    → read_stored (click c w).storage ≡ (click c w).prefs
unfolding click toggle reset read_stored
click-read_stored (toggled key written) w h = rw h refl
click-read_stored (cleared removed) w h = rw h refl

click_all-read_stored :
    (cs : List Click) (w : Widget)
    → all is_written cs ≡ true
    → read_stored w.storage ≡ w.prefs
    → read_stored (click_all cs w).storage ≡ (click_all cs w).prefs
unfolding click_all
click_all-read_stored [] w a h = h
click_all-read_stored (c ∷ cs) w a h =
    click_all-read_stored cs (click c w) (ground arith) (click-read_stored c w (ground arith))

-- Whatever the storage held at first and whatever is clicked then, the page has the class of a
-- preference exactly if the preference is set; and if the storage took every write, a reload finds
-- the same preferences.
pub click_all_lem :
    (stored : Stored) (d : Document) (cs : List Click)
    → ((key : PreferenceKey)
        → has_class key (click_all cs (mount stored d)).document
          ≡ pref (click_all cs (mount stored d)).prefs key)
      × (all is_written cs ≡ true
          → (mount (click_all cs (mount stored d)).storage d).prefs
            ≡ (click_all cs (mount stored d)).prefs)
unfolding mount
click_all_lem stored d cs =
    let step = click_all-InStep cs (mount stored d) (mount-InStep stored d) in
    (step.classes, λ a. click_all-read_stored cs (mount stored d) a refl)
