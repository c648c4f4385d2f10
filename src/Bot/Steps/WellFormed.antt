-- ===== src/Bot/Steps/WellFormed.antt =====
-- Which edits of StepsEditor.tsx leave a step in the shape that its type asks for.
use whatsapp_bots_saa_s.Base.{
  ℕ, zero, suc, ◌<◌, ◌≤◌, ◌≡◌, refl, ◌∙◌, ◌≢◌, inl, inr, Bool, true, false, not, ◌&&◌, ◌||◌, Option,
  none, some, List, [], ◌∷◌, arith, ltb, leb, if◌then◌else◌, Bool-cases, length, get_elem?,
  filter_by, All,
}
use whatsapp_bots_saa_s.Text.{Text}
use whatsapp_bots_saa_s.Bot.Config.{
  Step, StepType, text, phone, email, choice, file, FileKind, image, pdf, doc, ppt, file_kinds,
  empty_step,
}
use whatsapp_bots_saa_s.Bot.Steps.{
  update_step, choice_options, file_accept, retype, change_type, kind_eq, includes_kind,
  next_accept, toggle_kind,
}

-- A choice has two options at least and no `accept`; a file step has one kind at least and no
-- options; any other step has neither.
abbrev pub shape_ok : StepType → Option (List Text) → Option (List FileKind) → Bool
shape_ok choice (some options) none = leb 2 (length options)
shape_ok file none (some accept) = leb 1 (length accept)
shape_ok text none none = true
shape_ok phone none none = true
shape_ok email none none = true
shape_ok _ _ _ = false

abbrev pub IsWellFormed : Step → Type 0
IsWellFormed step = shape_ok step.type step.options step.accept ≡ true

pub empty_step-IsWellFormed : (t : StepType) → IsWellFormed (empty_step t)
unfolding empty_step
empty_step-IsWellFormed text = refl
empty_step-IsWellFormed _ = refl

choice_options_enough :
    (options : Option (List Text)) → leb 2 (length (choice_options options)) ≡ true
unfolding choice_options
choice_options_enough none = refl
choice_options_enough (some options) = ground arith

file_accept_some : (accept : Option (List FileKind)) → leb 1 (length (file_accept accept)) ≡ true
unfolding file_accept
file_accept_some none = refl
file_accept_some (some accept) = ground arith

retype-IsWellFormed : (t : StepType) (step : Step) → IsWellFormed (retype t step)
unfolding retype
retype-IsWellFormed choice step = choice_options_enough step.options
retype-IsWellFormed file step = file_accept_some step.accept
retype-IsWellFormed text step = refl
retype-IsWellFormed phone step = refl
retype-IsWellFormed email step = refl

-- Changing the steps of one index, where the change makes or keeps the property.
All-update_step :
    {P : Step → Type 0} (index : ℕ) (f : Step → Step) (steps : List Step)
    → ((s : Step) → P s → P (f s))
    → All P steps
    → All P (update_step index f steps)
unfolding update_step
All-update_step index f [] keep h = tt
All-update_step zero f (s ∷ steps) keep h = (keep s h.0, h.1)
All-update_step (suc index) f (s ∷ steps) keep h = (h.0, All-update_step index f steps keep h.1)

get_elem?-update_step :
    (index : ℕ) (f : Step → Step) (steps : List Step) {s : Step}
    → get_elem? steps index ≡ some s
    → get_elem? (update_step index f steps) index ≡ some (f s)
unfolding update_step
get_elem?-update_step index f [] h = cc
get_elem?-update_step zero f (s ∷ steps) h = cc
get_elem?-update_step (suc index) f (s ∷ steps) h = get_elem?-update_step index f steps h

-- Whatever shape a step was in, after `changeType` it has the new type and the shape that this
-- type asks for, and its key, question and `required` are as before.
pub change_type-IsWellFormed :
    (index : ℕ) (t : StepType) (steps : List Step) {s : Step}
    → get_elem? steps index ≡ some s
    → (s' : Step) × (get_elem? (change_type index t steps) index ≡ some s')
      × (s'.type ≡ t)
      × IsWellFormed s'
      × (s'.key ≡ s.key)
      × (s'.question ≡ s.question)
      × (s'.required ≡ s.required)
unfolding change_type
change_type-IsWellFormed index t steps {s} h = (
  retype t s,
  get_elem?-update_step index (retype t) steps h,
  unfold retype in refl,
  retype-IsWellFormed t s,
  unfold retype in refl,
  unfold retype in refl,
  unfold retype in refl,
)

kind_eq→eq : (j k : FileKind) → kind_eq j k ≡ true → j ≡ k
unfolding kind_eq
kind_eq→eq image k h = ground arith
kind_eq→eq pdf k h = ground arith
kind_eq→eq doc k h = ground arith
kind_eq→eq ppt k h = ground arith

kind_eq_refl : (k : FileKind) → kind_eq k k ≡ true
unfolding kind_eq
kind_eq_refl image = refl
kind_eq_refl _ = refl

kind_eq-ne : (j k : FileKind) → j ≢ k → kind_eq j k ≡ false
kind_eq-ne j k n = elim (Bool-cases (kind_eq j k)) [
  | inl e ↦ absurd (n (kind_eq→eq j k e))
  | inr e ↦ e
]

includes_kind-filter_by :
    (p : FileKind → Bool) (ks : List FileKind) (k : FileKind)
    → includes_kind (filter_by p ks) k ≡ (includes_kind ks k && p k)
unfolding includes_kind
includes_kind-filter_by p [] k = refl
includes_kind-filter_by p (j ∷ js) k =
    ground (arith, includes_kind-filter_by p js k, kind_eq→eq j k)

includes-file_kinds : (k : FileKind) → includes_kind file_kinds k ≡ true
unfolding includes_kind kind_eq
includes-file_kinds image = refl
includes-file_kinds _ = refl

includes-next_accept :
    (kind : FileKind) (checked : Bool) (current : List FileKind) (k : FileKind)
    → includes_kind (next_accept kind checked current) k ≡ (
        if checked
        then kind_eq k kind || includes_kind current k
        else includes_kind current k && not (kind_eq k kind))
unfolding next_accept
includes-next_accept kind true current k =
    includes_kind-filter_by (λ x. kind_eq x kind || includes_kind current x) file_kinds k
    ∙ rw (includes-file_kinds k)
includes-next_accept kind false current k = includes_kind-filter_by _ current k

includes_pos : (ks : List FileKind) (k : FileKind) → includes_kind ks k ≡ true → 0 < length ks
unfolding includes_kind
includes_pos [] k h = cc
includes_pos (j ∷ js) k h = omega arith

-- The kinds that a step accepts after a tick.
abbrev pub accept_after : FileKind → Bool → List FileKind → List FileKind
accept_after kind checked current =
    if ltb 0 (length (next_accept kind checked current))
    then next_accept kind checked current
    else current

-- Ticking or unticking a kind of a file step that accepts something never empties the list; the
-- other kinds stay as they were; a ticked kind is accepted, and an unticked one is gone unless it
-- was the last, when the list stays as it was.
pub toggle_kind_lem :
    (kind : FileKind) (checked : Bool) (step : Step) (accept : List FileKind)
    → step.accept ≡ some accept
    → 1 ≤ length accept
    → (next : List FileKind) × ((toggle_kind kind checked step).accept ≡ some next)
      × (1 ≤ length next)
      × ((k : FileKind) → k ≢ kind → includes_kind next k ≡ includes_kind accept k)
      × (checked ≡ true → includes_kind next kind ≡ true)
      × (checked ≡ false → includes_kind next kind ≡ true → next ≡ accept)
unfolding toggle_kind
toggle_kind_lem kind checked step accept e n = (
  accept_after kind checked accept,
  rw e,
  ground arith,
  λ k ne. ground (arith, includes-next_accept kind checked accept k, kind_eq-ne k kind ne),
  λ c. ground (
    arith,
    includes-next_accept kind checked accept kind,
    kind_eq_refl kind,
    includes_pos (next_accept kind checked accept) kind,
  ),
  λ c h. ground (arith, includes-next_accept kind checked accept kind, kind_eq_refl kind),
)
