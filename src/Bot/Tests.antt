-- ===== src/Bot/Tests.antt =====
-- The bot builder of pages/BotBuilderPage.tsx and botbuilder/ at concrete inputs.
use whatsapp_bots_saa_s.Base.{
  ◌≡◌, refl, true, false, Option, none, some, List, [], ◌∷◌, map, arith, get_elem?, take, replicate,
}
use whatsapp_bots_saa_s.Text.{Text, distinct, codes, mem_text, text_eq, trim}
use whatsapp_bots_saa_s.Dict.{lookup, keys}
use whatsapp_bots_saa_s.Bot.Config.{
  Step, Flow, StepType, FileKind, choice, file, lead, human_handoff, image, pdf, BotSettings,
  RawSettings, unique_key, empty_profile,
}
use whatsapp_bots_saa_s.Bot.Config.UniqueKey.{unique_key_fresh}
use whatsapp_bots_saa_s.Bot.Accepted.{
  is_within, is_optional_within, is_key_char, is_step_key, choice_fits, seen_options, options_fit,
  step_accepted, steps_accepted, parts_accepted, flow_accepted,
}
use whatsapp_bots_saa_s.Bot.Steps.{Editor, step_key, change_type}
use whatsapp_bots_saa_s.Bot.Steps.WellFormed.{IsWellFormed, change_type-IsWellFormed}
use whatsapp_bots_saa_s.Bot.Builder.{
  Builder, Event, load_ok, add, save_ok, initial, truthy, switch_type, handle, step,
}
use whatsapp_bots_saa_s.Bot.Builder.Contract.{FitsType, change_type-FitsType}
use whatsapp_bots_saa_s.Bot.Builder.ActiveTab.{
  IsSound, flow_keys, tab_in, Reach, start, after, Reach-IsSound,
}
use whatsapp_bots_saa_s.Bot.Builder.Saving.{save_ok_drops_added_flow}

abbrev forty : Text
forty = replicate 40 b'x'

abbrev taken_keys : List Text
taken_keys = forty ∷ []

key_facts : (mem_text forty taken_keys ≡ true) × (mem_text (take 40 forty) taken_keys ≡ true)
unfolding mem_text text_eq
key_facts = (refl, refl)

unique_key_fresh_example :
    mem_text (unique_key (codes "17") (codes "step") (codes "step" ∷ [])) (codes "step" ∷ [])
    ≡ false
unique_key_fresh_example =
    unique_key_fresh (codes "17") (codes "step") (codes "step" ∷ []) (omega arith) (omega arith)

-- A handoff flow without a message, as an old configuration may hold it.
abbrev old_flow : Flow
old_flow = record {
  label = codes "Help";
  flow_type = human_handoff;
  steps = [];
  service_name = none;
  message = none;
}

abbrev raw : RawSettings
raw = record {
  lead_steps = some ((codes "help", old_flow) ∷ []);
  bot_profile = none;
  handoff_keywords = none;
  is_published = none;
}

abbrev asked : StepType → Option (List FileKind) → Text → Step
asked type accept key = record {
  key = key;
  question = codes "?";
  type = type;
  required = true;
  validate = none;
  options = none;
  accept = accept;
  error_message = none;
}

abbrev upload : Step
upload = asked file (some (image ∷ pdf ∷ [])) (codes "photo")

change_type-IsWellFormed_example :
    (s' : Step) × (get_elem? (change_type 0 choice (upload ∷ [])) 0 ≡ some s')
    × (s'.type ≡ choice)
    × IsWellFormed s'
    × (s'.key ≡ upload.key)
    × (s'.question ≡ upload.question)
    × (s'.required ≡ upload.required)
change_type-IsWellFormed_example = change_type-IsWellFormed 0 choice (upload ∷ []) refl

abbrev editor : Editor
editor = record { steps = upload ∷ asked choice none (codes "size") ∷ []; open_index = some 1 }

editor_keys : distinct (map step_key editor.steps) ≡ true
unfolding mem_text text_eq
editor_keys = refl

abbrev settings : BotSettings
settings = record {
  lead_steps = (codes "help", old_flow) ∷ [];
  bot_profile = empty_profile;
  handoff_keywords = [];
  is_published = true;
}

abbrev page : Builder
page = record {
  config = some settings;
  active_key = some (codes "help");
  loading = false;
  load_error = none;
  saving = true;
  save_error = none;
  saved = false;
  ai_open = false;
  editing_type = false;
}

page_facts :
    (truthy page.active_key ≡ some (codes "help"))
    × (lookup (codes "help") settings.lead_steps ≡ some old_flow)
unfolding truthy lookup text_eq
page_facts = (refl, refl)

old_flow_accepted : parts_accepted old_flow ≡ true
unfolding parts_accepted is_within is_optional_within steps_accepted trim
old_flow_accepted = refl

-- A label that is blank and a step whose key has a capital are refused.
refused :
    (flow_accepted (record old_flow { label = codes " " }) ≡ false)
    × (step_accepted (record upload { key = codes "Photo" }) ≡ false)
    × (step_accepted upload ≡ true)
    × (step_accepted (record upload { type = choice; options = some (codes "a" ∷ codes " a" ∷ []) })
        ≡ false)
unfolding flow_accepted parts_accepted step_accepted is_within is_optional_within is_step_key
    is_key_char options_fit choice_fits seen_options trim
refused = (refl, refl, refl, refl)

change_type-FitsType_example :
    (c' : BotSettings) × ((handle (Event.change_type lead) page).config ≡ some c')
    × (lookup (codes "help") c'.lead_steps ≡ some (switch_type lead old_flow))
    × ((switch_type lead old_flow).flow_type ≡ lead)
    × (flow_accepted (switch_type lead old_flow) ≡ true)
    × FitsType (switch_type lead old_flow)
    × ((j : Text)
        → text_eq (codes "help") j ≡ false
        → lookup j c'.lead_steps ≡ lookup j settings.lead_steps)
    × (c'.bot_profile ≡ settings.bot_profile)
    × ((handle (Event.change_type lead) page).saved ≡ false)
    × ((handle (Event.change_type lead) page).editing_type ≡ false)
change_type-FitsType_example =
    change_type-FitsType lead page settings (codes "help") old_flow refl (page_facts.0)
      (page_facts.1) old_flow_accepted

abbrev two_events : Builder
two_events = step (add (codes "17")) (step (load_ok (some raw)) initial)

two_events-Reach : Reach two_events
two_events-Reach = after (after start (load_ok (some raw)) tt) (add (codes "17")) tt

Reach-IsSound_example : IsSound two_events
Reach-IsSound_example = Reach-IsSound two_events-Reach

save_ok_drops_added_flow_example :
    (flow_keys (handle (save_ok raw) (handle (add (codes "17")) page)).config
      ≡ some (keys settings.lead_steps))
    × (tab_in
          (flow_keys (handle (save_ok raw) (handle (add (codes "17")) page)).config)
          (handle (save_ok raw) (handle (add (codes "17")) page)).active_key
        ≡ false)
    × ((handle (save_ok raw) (handle (add (codes "17")) page)).saved ≡ true)
save_ok_drops_added_flow_example =
    save_ok_drops_added_flow (codes "17") page settings raw refl (omega arith) refl
