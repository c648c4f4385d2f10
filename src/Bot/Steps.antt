-- ===== src/Bot/Steps.antt =====
-- frontend/src/components/botbuilder/StepsEditor.tsx: editing the steps of one flow.
-- The indices come from the rows and the options on screen, so they are in range; a call with any
-- other index changes nothing here. `openIndex` is `none` for -1.
pub mod WellFormed
pub mod Accordion
use whatsapp_bots_saa_s.Base.{
  ℕ, zero, suc, ◌-◌, Bool, true, false, not, ◌||◌, Option, none, some, List, [], ◌∷◌, ◌++◌, map,
  ltb, leb, ◌==◌, if◌then◌else◌, get_or_else, length, filter_by,
}
use whatsapp_bots_saa_s.Text.{Text}
use whatsapp_bots_saa_s.Bot.Config.{
  Step, StepType, text, FileKind, image, pdf, doc, ppt, file_kinds, is_choice, is_file, empty_step,
  unique_key,
}

-- `steps.map((s, i) => (i === index ? f(s) : s))`
unfoldable pub update_step {ℓ} : {A : Type ℓ} → ℕ → (A → A) → List A → List A
update_step index f [] = []
update_step zero f (s ∷ steps) = f s ∷ steps
update_step (suc index) f (s ∷ steps) = s ∷ update_step index f steps

-- `xs.filter((_, i) => i !== index)`
unfoldable pub remove_at {ℓ} : {A : Type ℓ} → ℕ → List A → List A
remove_at index [] = []
remove_at zero (x ∷ xs) = xs
remove_at (suc index) (x ∷ xs) = x ∷ remove_at index xs

-- The options that a choice keeps: its own when it has two at least, else two empty ones.
unfoldable pub choice_options : Option (List Text) → List Text
choice_options none = [] ∷ [] ∷ []
choice_options (some options) = if leb 2 (length options) then options else [] ∷ [] ∷ []

unfoldable pub file_accept : Option (List FileKind) → List FileKind
file_accept none = file_kinds
file_accept (some accept) = if ltb 0 (length accept) then accept else file_kinds

unfoldable pub retype : StepType → Step → Step
unfolding choice_options file_accept
retype t step = record step {
  type = t;
  options = if is_choice t then some (choice_options step.options) else none;
  accept = if is_file t then some (file_accept step.accept) else none;
}

unfoldable pub change_type : ℕ → StepType → List Step → List Step
change_type index t steps = update_step index (retype t) steps

unfoldable pub kind_eq : FileKind → FileKind → Bool
kind_eq image image = true
kind_eq pdf pdf = true
kind_eq doc doc = true
kind_eq ppt ppt = true
kind_eq _ _ = false

unfoldable pub includes_kind : List FileKind → FileKind → Bool
unfolding kind_eq
includes_kind [] k = false
includes_kind (j ∷ js) k = kind_eq j k || includes_kind js k

unfoldable pub next_accept : FileKind → Bool → List FileKind → List FileKind
unfolding includes_kind
next_accept kind true current =
    filter_by (λ k. kind_eq k kind || includes_kind current k) file_kinds
next_accept kind false current = filter_by (λ k. not (kind_eq k kind)) current

unfoldable pub toggle_kind : FileKind → Bool → Step → Step
unfolding next_accept
toggle_kind kind checked step =
    let current = get_or_else step.accept [] in
    let next = next_accept kind checked current in
    record step { accept = some (if ltb 0 (length next) then next else current) }

unfoldable pub toggle_accept : ℕ → FileKind → Bool → List Step → List Step
toggle_accept index kind checked steps = update_step index (toggle_kind kind checked) steps

-- The flow's steps, and the step that is open.
pub record Editor : Type 0 where
  pub steps : List Step
  pub open_index : Option ℕ

abbrev pub step_key : Step → Text
step_key s = s.key

-- `now` is the text of `Date.now()`.
unfoldable pub new_step : Text → List Step → Step
new_step now steps = record (empty_step text) {
  key = unique_key now (empty_step text).key (map step_key steps);
}

unfoldable pub add_step : Text → Editor → Editor
unfolding new_step
add_step now e = record e {
  steps = e.steps ++ new_step now e.steps ∷ [];
  open_index = some (length e.steps);
}

-- `cur === index ? -1 : cur > index ? cur - 1 : cur`
unfoldable pub open_after_remove : ℕ → Option ℕ → Option ℕ
open_after_remove index none = none
open_after_remove index (some cur) =
    if cur == index then none else if ltb index cur then some (cur - 1) else some cur

unfoldable pub remove_step : ℕ → Editor → Editor
unfolding remove_at open_after_remove
remove_step index e = record e {
  steps = remove_at index e.steps;
  open_index = open_after_remove index e.open_index;
}

unfoldable pub toggle_open : ℕ → Editor → Editor
toggle_open index e = record e {
  open_index = elim e.open_index [
    | none ↦ some index
    | some cur ↦ if cur == index then none else some index
  ];
}

unfoldable pub set_option : ℕ → Text → Step → Step
unfolding update_step
set_option opt value step = record step {
  options = some (update_step opt (λ _. value) (get_or_else step.options []));
}

unfoldable pub append_option : Step → Step
append_option step = record step { options = some (get_or_else step.options [] ++ [] ∷ []) }

unfoldable pub drop_option : ℕ → Step → Step
unfolding remove_at
drop_option opt step = record step { options = some (remove_at opt (get_or_else step.options [])) }

unfoldable pub update_option : ℕ → ℕ → Text → List Step → List Step
update_option index opt value steps = update_step index (set_option opt value) steps

unfoldable pub add_option : ℕ → List Step → List Step
add_option index steps = update_step index append_option steps

unfoldable pub remove_option : ℕ → ℕ → List Step → List Step
remove_option index opt steps = update_step index (drop_option opt) steps
