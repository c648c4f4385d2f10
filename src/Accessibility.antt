-- ===== src/Accessibility.antt =====
-- frontend/src/lib/useA11yPreferences.ts: the five preferences of the accessibility widget, their
-- copy in localStorage and the classes that they put on <html> and <body>. What JSON.parse makes of
-- the stored text is the data type `Stored`; whether a write to the storage works is an argument.
pub mod Laws
mod Tests
use whatsapp_bots_saa_s.Base.{
  Bool, true, false, not, Option, none, some, List, [], ◌∷◌, ◌++◌, if◌then◌else◌,
}
use whatsapp_bots_saa_s.Text.{Text, codes, text_eq, mem_text}

pub data PreferenceKey : Type 0 where
  high_contrast large_text underline_links focus_highlight stop_animations : PreferenceKey

pub record Preferences : Type 0 where
  pub high_contrast_on : Bool
  pub large_text_on : Bool
  pub underline_links_on : Bool
  pub focus_highlight_on : Bool
  pub stop_animations_on : Bool

abbrev pub default_prefs : Preferences
default_prefs = record {
  high_contrast_on = false;
  large_text_on = false;
  underline_links_on = false;
  focus_highlight_on = false;
  stop_animations_on = false;
}

-- `prefs[key]`
abbrev pub pref : Preferences → PreferenceKey → Bool
pref p high_contrast = p.high_contrast_on
pref p large_text = p.large_text_on
pref p underline_links = p.underline_links_on
pref p focus_highlight = p.focus_highlight_on
pref p stop_animations = p.stop_animations_on

-- `{ ...prefs, [key]: value }`
abbrev pub set_pref : PreferenceKey → Bool → Preferences → Preferences
set_pref high_contrast v p = record p { high_contrast_on = v }
set_pref large_text v p = record p { large_text_on = v }
set_pref underline_links v p = record p { underline_links_on = v }
set_pref focus_highlight v p = record p { focus_highlight_on = v }
set_pref stop_animations v p = record p { stop_animations_on = v }

pub data ClassTarget : Type 0 where
  html body : ClassTarget

-- The two columns of `CLASS_MAP`.
abbrev pub class_name : PreferenceKey → Text
class_name high_contrast = codes "a11y-high-contrast"
class_name large_text = codes "a11y-large-text"
class_name underline_links = codes "a11y-underline-links"
class_name focus_highlight = codes "a11y-focus-highlight"
class_name stop_animations = codes "a11y-reduce-motion"

abbrev pub target : PreferenceKey → ClassTarget
target large_text = html
target _ = body

-- The classes of the two elements.
pub record Document : Type 0 where
  pub html_classes : List Text
  pub body_classes : List Text

unfoldable pub remove_class : Text → List Text → List Text
remove_class name [] = []
remove_class name (c ∷ cs) =
    let rest = remove_class name cs in if text_eq c name then rest else c ∷ rest

-- `classList.toggle(name, force)`
unfoldable pub toggle_class : Text → Bool → List Text → List Text
toggle_class name false cs = remove_class name cs
toggle_class name true cs = if mem_text name cs then cs else cs ++ name ∷ []

unfoldable pub toggle_on : ClassTarget → Text → Bool → Document → Document
toggle_on html name force d = record d { html_classes = toggle_class name force d.html_classes }
toggle_on body name force d = record d { body_classes = toggle_class name force d.body_classes }

unfoldable pub apply_class : Preferences → PreferenceKey → Document → Document
apply_class prefs key d = toggle_on (target key) (class_name key) (pref prefs key) d

-- The keys in the order of `CLASS_MAP`.
unfoldable pub apply_classes : Preferences → Document → Document
apply_classes prefs d = apply_class prefs stop_animations (
    apply_class prefs focus_highlight (
      apply_class prefs underline_links
        (apply_class prefs large_text (apply_class prefs high_contrast d))))

-- What the storage holds: no text or an empty one, a text that is not JSON or is `null`, or a value
-- with, for each key, the Boolean that stands there, if one does.
pub data Stored : Type 0 where
  nothing : Stored
  broken : Stored
  parsed : (PreferenceKey → Option Bool) → Stored

abbrev pub merge : Option Bool → Bool → Bool
merge none v = v
merge (some b) v = b

unfoldable pub read_stored : Stored → Preferences
read_stored nothing = default_prefs
read_stored broken = default_prefs
read_stored (parsed f) = record {
  high_contrast_on = merge (f high_contrast) default_prefs.high_contrast_on;
  large_text_on = merge (f large_text) default_prefs.large_text_on;
  underline_links_on = merge (f underline_links) default_prefs.underline_links_on;
  focus_highlight_on = merge (f focus_highlight) default_prefs.focus_highlight_on;
  stop_animations_on = merge (f stop_animations) default_prefs.stop_animations_on;
}

pub record Widget : Type 0 where
  pub prefs : Preferences
  pub document : Document
  pub storage : Stored

unfoldable pub mount : Stored → Document → Widget
mount storage d = record {
  prefs = read_stored storage;
  document = apply_classes (read_stored storage) d;
  storage = storage;
}

unfoldable pub toggle : PreferenceKey → Bool → Widget → Widget
toggle key written w =
    let next = set_pref key (not (pref w.prefs key)) w.prefs in
    record {
      prefs = next;
      document = apply_classes next w.document;
      storage = if written then parsed (λ k. some (pref next k)) else w.storage;
    }

unfoldable pub reset : Bool → Widget → Widget
reset removed w = record {
  prefs = default_prefs;
  document = apply_classes default_prefs w.document;
  storage = if removed then nothing else w.storage;
}

-- A click in the widget, and whether the storage took it.
pub data Click : Type 0 where
  toggled : PreferenceKey → Bool → Click
  cleared : Bool → Click

unfoldable pub click : Click → Widget → Widget
click (toggled key written) w = toggle key written w
click (cleared removed) w = reset removed w

unfoldable pub click_all : List Click → Widget → Widget
click_all [] w = w
click_all (c ∷ cs) w = click_all cs (click c w)
