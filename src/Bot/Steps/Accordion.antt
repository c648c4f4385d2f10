-- ===== src/Bot/Steps/Accordion.antt =====
-- The open step of StepsEditor.tsx, and the keys of the steps.
use whatsapp_bots_saa_s.Base.{
  ℕ, zero, suc, ◌-◌, ◌<◌, ◌≤◌, ◌≡◌, refl, sym, ap, ◌∙◌, ◌≢◌, inl, inr, true, false, ◌||◌, Option,
  none, some, List, [], ◌∷◌, ◌++◌, map, arith, Bool-cases, length, get_elem?, get_elem?-append_left,
  length-map,
}
use mathlib.Core.Bool.{false≢true}
use native.Mathlib.Decide.{dec_lt}
use whatsapp_bots_saa_s.Text.{Text, distinct, mem_text, text_eq}
use whatsapp_bots_saa_s.Text.Laws.{text_eq→eq, text_eq_refl}
use whatsapp_bots_saa_s.Bot.Config.{Step, empty_step}
use whatsapp_bots_saa_s.Bot.Config.UniqueKey.{unique_key_fresh}
use whatsapp_bots_saa_s.Bot.Steps.{
  remove_at, Editor, step_key, new_step, add_step, open_after_remove, remove_step,
}

get_elem?-remove_at_before :
    {A : Type 0} (index cur : ℕ) (xs : List A)
    → cur < index
    → get_elem? (remove_at index xs) cur ≡ get_elem? xs cur
unfolding remove_at
get_elem?-remove_at_before index cur [] h = refl
get_elem?-remove_at_before zero cur (x ∷ xs) h = absurd (omega arith)
get_elem?-remove_at_before (suc index) zero (x ∷ xs) h = refl
get_elem?-remove_at_before (suc index) (suc cur) (x ∷ xs) h =
    get_elem?-remove_at_before index cur xs (omega arith)

get_elem?-remove_at_after :
    {A : Type 0} (index cur : ℕ) (xs : List A)
    → index ≤ cur
    → get_elem? (remove_at index xs) cur ≡ get_elem? xs (suc cur)
unfolding remove_at
get_elem?-remove_at_after index cur [] h = refl
get_elem?-remove_at_after zero cur (x ∷ xs) h = refl
get_elem?-remove_at_after (suc index) zero (x ∷ xs) h = absurd (omega arith)
get_elem?-remove_at_after (suc index) (suc cur) (x ∷ xs) h =
    get_elem?-remove_at_after index cur xs (omega arith)

-- The step that is open in the accordion, if one is.
abbrev pub step_at : Option ℕ → List Step → Option Step
step_at none steps = none
step_at (some cur) steps = get_elem? steps cur

abbrev pub open_step : Editor → Option Step
open_step e = step_at e.open_index e.steps

get_elem?-append_last :
    (steps : List Step) (s : Step) → get_elem? (steps ++ s ∷ []) (length steps) ≡ some s
get_elem?-append_last [] s = refl
get_elem?-append_last (t ∷ steps) s = get_elem?-append_last steps s

open_after_lem :
    (index : ℕ) (steps : List Step) (cur : ℕ)
    → cur ≢ index
    → (c : ℕ) × (open_after_remove index (some cur) ≡ some c)
      × (get_elem? (remove_at index steps) c ≡ get_elem? steps cur)
unfolding open_after_remove
open_after_lem index steps cur n = elim (dec_lt index cur) [
  | yes h ↦
      let e : suc (cur - 1) ≡ cur = omega arith in
      (
        cur - 1,
        ground arith,
        get_elem?-remove_at_after index (cur - 1) steps (omega arith) ∙ ap (get_elem? steps) e,
      )
  | no h ↦ (cur, ground arith, get_elem?-remove_at_before index cur steps (omega arith))
]

step_at-remove_at :
    (index : ℕ) (o : Option ℕ) (steps : List Step)
    → o ≢ some index
    → step_at (open_after_remove index o) (remove_at index steps) ≡ step_at o steps
step_at-remove_at index none steps n = unfold open_after_remove in refl
step_at-remove_at index (some cur) steps n =
    let (c, moved, same) = open_after_lem index steps cur (λ e. n (ap some e)) in
    ap (λ o. step_at o (remove_at index steps)) moved ∙ same

-- Removing a step other than the open one leaves that very step open, although its place may have
-- moved; removing the open one leaves none open.
pub remove_step-open_step :
    (index : ℕ) (e : Editor)
    → (e.open_index ≢ some index → open_step (remove_step index e) ≡ open_step e)
      × (e.open_index ≡ some index → (remove_step index e).open_index ≡ none)
unfolding remove_step open_after_remove
remove_step-open_step index e =
    (λ n. step_at-remove_at index e.open_index e.steps n, λ h. rw h (ground arith))

mem_text-append_last :
    (s t : Text) (ts : List Text) → mem_text s (ts ++ t ∷ []) ≡ (mem_text s ts || text_eq t s)
unfolding mem_text
mem_text-append_last s t [] = ground arith
mem_text-append_last s t (r ∷ ts) = ground (arith, mem_text-append_last s t ts)

text_eq_sym : (s t : Text) → text_eq s t ≡ false → text_eq t s ≡ false
text_eq_sym s t h = elim (Bool-cases (text_eq t s)) [
  | inl e ↦ absurd (false≢true (sym h ∙ rw (text_eq→eq t s e) (text_eq_refl s)))
  | inr e ↦ e
]

distinct-append_last :
    (t : Text) (ts : List Text)
    → distinct ts ≡ true
    → mem_text t ts ≡ false
    → distinct (ts ++ t ∷ []) ≡ true
unfolding mem_text
distinct-append_last t [] d n = refl
distinct-append_last t (r ∷ ts) d n =
    ground (arith, distinct-append_last t ts, mem_text-append_last r t ts, text_eq_sym r t)

map-append_last :
    (steps : List Step) (s : Step)
    → map step_key (steps ++ s ∷ []) ≡ map step_key steps ++ s.key ∷ []
map-append_last [] s = refl
map-append_last (t ∷ steps) s = ap (λ ks. t.key ∷ ks) (map-append_last steps s)

new_step_fresh :
    (now : Text) (steps : List Step)
    → length steps < 998
    → mem_text (new_step now steps).key (map step_key steps) ≡ false
unfolding new_step empty_step
new_step_fresh now steps h =
    unique_key_fresh now _ (map step_key steps) (omega arith)
      (omega (arith, length-map step_key steps))

-- With fewer than 998 steps, a new step has a key of its own and is open for editing; the steps before it stay. So distinct
-- keys stay distinct. (The button is off at 30 steps.)
pub add_step_lem :
    (now : Text) (e : Editor)
    → length e.steps < 998
    → distinct (map step_key e.steps) ≡ true
    → (distinct (map step_key (add_step now e).steps) ≡ true)
      × (open_step (add_step now e) ≡ some (new_step now e.steps))
      × ((i : ℕ) → i < length e.steps → get_elem? (add_step now e).steps i ≡ get_elem? e.steps i)
unfolding add_step
add_step_lem now e few d = (
  rw (map-append_last e.steps (new_step now e.steps))
      (distinct-append_last _ _ d (new_step_fresh now e.steps few)),
  get_elem?-append_last e.steps (new_step now e.steps),
  λ i h. get_elem?-append_left e.steps _ i h,
)
