-- ===== src/Bot/Config.antt =====
-- frontend/src/botbuilder: the bot's configuration (types.ts) and its editing helpers (config.ts).
-- A `Record<string, …>` is the list of its entries in the order of insertion. A property that is
-- absent, `undefined` or `null` is `none`.
pub mod UniqueKey
pub mod Defaults
use whatsapp_bots_saa_s.Base.{
  ℕ, zero, suc, ◌+◌, Bool, true, false, Option, none, some, List, [], ◌∷◌, ◌++◌, if◌then◌else◌,
  get_or_else, take, is_empty,
}
use whatsapp_bots_saa_s.Text.{Text, codes, mem_text, trim}
use whatsapp_bots_saa_s.Text.Decimal.{show}

pub data StepType : Type 0 where
  text phone email choice file : StepType

pub data FlowType : Type 0 where
  lead human_handoff booking : FlowType

pub data FileKind : Type 0 where
  image pdf doc ppt : FileKind

pub data Language : Type 0 where
  he en : Language

abbrev pub max_flows : ℕ
max_flows = 20

abbrev pub max_steps_per_flow : ℕ
max_steps_per_flow = 30

abbrev pub min_choice_options : ℕ
min_choice_options = 2

abbrev pub max_choice_options : ℕ
max_choice_options = 12

abbrev pub file_kinds : List FileKind
file_kinds = image ∷ pdf ∷ doc ∷ ppt ∷ []

pub record Step : Type 0 where
  pub key : Text
  pub question : Text
  pub type : StepType
  pub required : Bool
  pub validate : Option Text
  pub options : Option (List Text)
  pub accept : Option (List FileKind)
  pub error_message : Option Text

pub record Flow : Type 0 where
  pub label : Text
  pub flow_type : FlowType
  pub steps : List Step
  pub service_name : Option Text
  pub message : Option Text

pub record BotProfile : Type 0 where
  pub name : Option Text
  pub system_prompt : Option Text
  pub tone : Option Text
  pub language : Option Language
  pub greeting : Option Text
  pub escalation_message : Option Text
  pub auto_close_minutes : Option ℕ
  pub menu_keywords : Option (List Text)

abbrev pub Flows : Type 0
Flows = List (Text × Flow)

pub record BotSettings : Type 0 where
  pub lead_steps : Flows
  pub bot_profile : BotProfile
  pub handoff_keywords : List Text
  pub is_published : Bool

-- `Partial<BotSettings>`.
pub record RawSettings : Type 0 where
  pub lead_steps : Option Flows
  pub bot_profile : Option BotProfile
  pub handoff_keywords : Option (List Text)
  pub is_published : Option Bool

abbrev pub is_choice : StepType → Bool
is_choice choice = true
is_choice _ = false

abbrev pub is_file : StepType → Bool
is_file file = true
is_file _ = false

-- `base || 'flow'`.
unfoldable pub seed_of : Text → Text
seed_of [] = codes "flow"
seed_of (c ∷ s) = c ∷ s

-- `` `${seed}_${i}`.slice(0, 40) ``
unfoldable pub candidate : Text → Text → Text
candidate seed suffix = take 40 (seed ++ b'_' ∷ suffix)

-- The loop of `uniqueKey`: `n` rounds from `i` on.
unfoldable pub search_key : Text → List Text → ℕ → ℕ → Option Text
search_key seed taken zero i = none
search_key seed taken (suc n) i =
    let rest = search_key seed taken n (i + 1) in
    if mem_text (candidate seed (show i)) taken then rest else some (candidate seed (show i))

-- `now` is the text of `Date.now()`.
unfoldable pub unique_key : Text → Text → List Text → Text
unique_key now base taken =
    let seed = seed_of base in
    if mem_text seed taken
    then get_or_else (search_key seed taken 998 2) (candidate seed now)
    else seed

unfoldable pub empty_step : StepType → Step
empty_step t = record {
  key = (0x5e9 ∷ 0x5dd ∷ b'_' ∷ 0x5de ∷ 0x5dc ∷ 0x5d0 ∷ []);
  question =
      (0x5de ∷ 0x5d4 ∷ 0x20 ∷ 0x5d4 ∷ 0x5e9 ∷ 0x5dd ∷ 0x20 ∷ 0x5d4 ∷ 0x5de ∷ 0x5dc ∷ 0x5d0 ∷ 0x20
        ∷ 0x5e9 ∷ 0x5dc ∷ 0x5da ∷ b'?' ∷ []);
  type = t;
  required = true;
  validate = none;
  options = if is_choice t then some ([] ∷ [] ∷ []) else none;
  accept = if is_file t then some file_kinds else none;
  error_message = none;
}

abbrev pub default_handoff_message : Text
default_handoff_message =
    (0x5ea ∷ 0x5d5 ∷ 0x5d3 ∷ 0x5d4 ∷ 0x20 ∷ 0x5e9 ∷ 0x5e4 ∷ 0x5e0 ∷ 0x5d9 ∷ 0x5ea ∷ 0x20 ∷ 0x5d0
      ∷ 0x5dc ∷ 0x5d9 ∷ 0x5e0 ∷ 0x5d5 ∷ b'!' ∷ 0x20 ∷ 0x5e0 ∷ 0x5e6 ∷ 0x5d9 ∷ 0x5d2 ∷ 0x20 ∷ 0x5de
      ∷ 0x5d8 ∷ 0x5e2 ∷ 0x5de ∷ 0x5e0 ∷ 0x5d5 ∷ 0x20 ∷ 0x5d9 ∷ 0x5d7 ∷ 0x5d6 ∷ 0x5d5 ∷ 0x5e8 ∷ 0x20
      ∷ 0x5d0 ∷ 0x5dc ∷ 0x5d9 ∷ 0x5da ∷ 0x20 ∷ 0x5d1 ∷ 0x5d4 ∷ 0x5e7 ∷ 0x5d3 ∷ 0x5dd ∷ b'.' ∷ [])

abbrev pub default_booking_message : Text
default_booking_message =
    (0x5e0 ∷ 0x5e9 ∷ 0x5de ∷ 0x5d7 ∷ 0x20 ∷ 0x5dc ∷ 0x5d4 ∷ 0x5d9 ∷ 0x5e4 ∷ 0x5d2 ∷ 0x5e9 ∷ b'!'
      ∷ 0x20 ∷ 0x5dc ∷ 0x5e7 ∷ 0x5d1 ∷ 0x5d9 ∷ 0x5e2 ∷ 0x5ea ∷ 0x20 ∷ 0x5e4 ∷ 0x5d2 ∷ 0x5d9 ∷ 0x5e9
      ∷ 0x5d4 ∷ 0x20 ∷ 0x5e0 ∷ 0x5d0 ∷ 0x20 ∷ 0x5d4 ∷ 0x5d9 ∷ 0x5db ∷ 0x5e0 ∷ 0x5e1 ∷ b'/' ∷ 0x5d9
      ∷ 0x20 ∷ 0x5dc ∷ 0x5de ∷ 0x5e2 ∷ 0x5e8 ∷ 0x5db ∷ 0x5ea ∷ b':' ∷ 0x20 ∷ b'{' ∷ b'l' ∷ b'i'
      ∷ b'n' ∷ b'k' ∷ b'}' ∷ [])

unfoldable pub empty_flow : Text → FlowType → Flow
empty_flow label lead = record {
  label = label;
  flow_type = lead;
  steps = empty_step text ∷ [];
  service_name = none;
  message = none;
}
empty_flow label human_handoff = record {
  label = label;
  flow_type = human_handoff;
  steps = [];
  service_name = none;
  message = some default_handoff_message;
}
empty_flow label booking = record {
  label = label;
  flow_type = booking;
  steps = [];
  service_name = some [];
  message = some default_booking_message;
}

abbrev pub empty_profile : BotProfile
empty_profile = record {
  name = none;
  system_prompt = none;
  tone = none;
  language = none;
  greeting = none;
  escalation_message = none;
  auto_close_minutes = none;
  menu_keywords = none;
}

unfoldable pub empty_settings : BotSettings
empty_settings = record {
  lead_steps = [];
  bot_profile = empty_profile;
  handoff_keywords =
      (0x5e0 ∷ 0x5e6 ∷ 0x5d9 ∷ 0x5d2 ∷ [])
      ∷ (0x5d0 ∷ 0x5d3 ∷ 0x5dd ∷ [])
      ∷ codes "human"
      ∷ codes "agent"
      ∷ [];
  is_published = false;
}

-- `!(message ?? '').trim()`.
unfoldable pub is_blank : Option Text → Bool
is_blank message = is_empty (trim (get_or_else message []))

-- One round of `withDefaultMessages`.
unfoldable pub fill_message : FlowType → Flow → Flow
fill_message human_handoff flow =
    if is_blank flow.message then record flow { message = some default_handoff_message } else flow
fill_message booking flow =
    if is_blank flow.message then record flow { message = some default_booking_message } else flow
fill_message lead flow = flow

unfoldable pub with_default_message : Flow → Flow
with_default_message flow = fill_message flow.flow_type flow

unfoldable pub with_default_messages : Flows → Flows
with_default_messages [] = []
with_default_messages ((key, flow) ∷ flows) =
    (key, with_default_message flow) ∷ with_default_messages flows

unfoldable pub normalize_settings : Option RawSettings → BotSettings
normalize_settings none = empty_settings
normalize_settings (some raw) = record {
  lead_steps = with_default_messages (get_or_else raw.lead_steps []);
  bot_profile = get_or_else raw.bot_profile empty_profile;
  handoff_keywords = get_or_else raw.handoff_keywords empty_settings.handoff_keywords;
  is_published = get_or_else raw.is_published false;
}
