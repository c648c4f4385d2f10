-- ===== src/Bot/Builder.antt =====
-- frontend/src/pages/BotBuilderPage.tsx: the page's state and its handlers. A handler that waits for
-- the server is two events, its start and its end; `now` is the text of `Date.now()`.
pub mod Contract
pub mod ActiveTab
pub mod Saving
use whatsapp_bots_saa_s.Base.{
  Bool, true, false, ◌||◌, Option, none, some, List, [], ◌∷◌, leb, ◌==◌, if◌then◌else◌, get_or_else,
  is_none, length, head?, is_empty,
}
use whatsapp_bots_saa_s.Text.{Text, codes, text_eq, trim}
use whatsapp_bots_saa_s.Dict.{lookup, put, delete, keys}
use whatsapp_bots_saa_s.Api.{Caught, api_error, other_error}
use whatsapp_bots_saa_s.Bot.Config.{
  Step, Flow, Flows, FlowType, lead, human_handoff, booking, BotProfile, BotSettings, RawSettings,
  default_handoff_message, default_booking_message, empty_flow, normalize_settings, unique_key,
  max_flows,
}

pub data LoadError : Type 0 where
  session_expired load_failed : LoadError

pub data SaveError : Type 0 where
  invalid_fields session_expired no_connection save_failed : SaveError

unfoldable pub describe_save_error : Caught → SaveError
describe_save_error (api_error e) =
    if e.status == 422
    then invalid_fields
    else if e.status == 401
    then SaveError.session_expired
    else if e.status == 0
    then no_connection
    else save_failed
describe_save_error other_error = save_failed

unfoldable pub describe_load_error : Caught → LoadError
describe_load_error (api_error e) =
    if e.status == 401 then LoadError.session_expired else load_failed
describe_load_error other_error = load_failed

pub record Builder : Type 0 where
  pub config : Option BotSettings
  pub active_key : Option Text
  pub loading : Bool
  pub load_error : Option LoadError
  pub saving : Bool
  pub save_error : Option SaveError
  pub saved : Bool
  pub ai_open : Bool
  pub editing_type : Bool

unfoldable pub initial : Builder
initial = record {
  config = none;
  active_key = none;
  loading = true;
  load_error = none;
  saving = false;
  save_error = none;
  saved = false;
  ai_open = false;
  editing_type = false;
}

-- A string in a test: the empty one counts as absent.
unfoldable pub truthy : Option Text → Option Text
truthy none = none
truthy (some []) = none
truthy (some (c ∷ s)) = some (c ∷ s)

unfoldable pub first_key : BotSettings → Option Text
first_key c = head? (keys c.lead_steps)

-- `mutate(next)`.
unfoldable pub mutate : BotSettings → Builder → Builder
mutate next b = record b { config = some next; saved = false }

unfoldable pub with_flows : Flows → BotSettings → BotSettings
with_flows flows c = record c { lead_steps = flows }

unfoldable pub add_flow : Text → BotSettings → Builder → Builder
add_flow now c b =
    let key = unique_key now (codes "flow") (keys c.lead_steps) in
    let fresh =
      empty_flow ((0x5de ∷ 0x5e1 ∷ 0x5dc ∷ 0x5d5 ∷ 0x5dc ∷ 0x20 ∷ 0x5d7 ∷ 0x5d3 ∷ 0x5e9 ∷ []))
        lead in
    record (mutate (with_flows (put key fresh c.lead_steps) c) b) { active_key = some key }

unfoldable pub delete_flow : Text → BotSettings → Builder → Builder
delete_flow key c b =
    let next = with_flows (delete key c.lead_steps) c in
    record (mutate next b) { active_key = first_key next }

-- The end of `renameFlowLabel` and of `patchActiveFlow`, with what was found under the key.
unfoldable pub patch_found : Text → (Flow → Flow) → BotSettings → Builder → Option Flow → Builder
patch_found key f c b none = b
patch_found key f c b (some flow) = mutate (with_flows (put key (f flow) c.lead_steps) c) b

unfoldable pub patch_flow : Text → (Flow → Flow) → BotSettings → Builder → Builder
patch_flow key f c b = patch_found key f c b (lookup key c.lead_steps)

unfoldable pub set_label : Text → Flow → Flow
set_label label flow = record flow { label = label }

unfoldable pub patch_active_flow : (Flow → Flow) → Option Text → BotSettings → Builder → Builder
patch_active_flow f none c b = b
patch_active_flow f (some key) c b = patch_flow key f c b

-- The message of a flow that becomes a handoff or a booking: the type's own default when there is
-- none, or when the other type's default was left over.
unfoldable pub message_for : Text → Text → Option Text → Text
message_for own other none = own
message_for own other (some message) =
    if is_empty (trim message) || text_eq message other then own else message

unfoldable pub switch_type : FlowType → Flow → Flow
switch_type human_handoff flow = record flow {
  flow_type = human_handoff;
  steps = [];
  service_name = none;
  message = some (message_for default_handoff_message default_booking_message flow.message);
}
switch_type lead flow = record flow {
  flow_type = lead;
  steps = if is_empty flow.steps then (empty_flow [] lead).steps else flow.steps;
  service_name = none;
}
switch_type booking flow = record flow {
  flow_type = booking;
  service_name = some (get_or_else flow.service_name []);
  message = some (message_for default_booking_message default_handoff_message flow.message);
}

-- The tab that stays open when the AI panel hands over a configuration.
unfoldable pub keep_tab : BotSettings → Option Text → Option Text
keep_tab c none = first_key c
keep_tab c (some key) = if is_none (lookup key c.lead_steps) then first_key c else some key

pub data Event : Type 0 where
  load_ok : Option RawSettings → Event
  load_fail : Caught → Event
  set_profile : (BotProfile → BotProfile) → Event
  select_tab : Text → Event
  add : Text → Event
  remove : Text → Event
  rename_label : Text → Text → Event
  patch_active : (Flow → Flow) → Event
  change_type : FlowType → Event
  set_steps : List Step → Event
  ai_changes : RawSettings → Event
  open_ai : Bool → Event
  edit_type : Event
  published : Bool → Event
  save : Event
  save_ok : RawSettings → Event
  save_fail : Caught → Event

-- A handler that begins with `if (!config) return`.
unfoldable pub on_config :
    Option BotSettings → (BotSettings → Builder → Builder) → Builder → Builder
on_config none f b = b
on_config (some c) f b = f c b

unfoldable pub with_config : Builder → (BotSettings → Builder → Builder) → Builder
unfolding on_config
with_config b f = on_config b.config f b

unfoldable pub handle : Event → Builder → Builder
handle (load_ok raw) b =
    let c = normalize_settings raw in
    record b { config = some c; active_key = first_key c; loading = false }
handle (load_fail err) b = record b { load_error = some (describe_load_error err); loading = false }
handle (set_profile f) b = with_config b (λ c. mutate (record c { bot_profile = f c.bot_profile }))
handle (select_tab key) b = record b { active_key = some key }
handle (add now) b =
    with_config b
      (λ c b'. if leb max_flows (length (keys c.lead_steps)) then b' else add_flow now c b')
handle (remove key) b = with_config b (delete_flow key)
handle (rename_label key label) b = with_config b (patch_flow key (set_label label))
handle (patch_active f) b = with_config b (patch_active_flow f (truthy b.active_key))
handle (change_type t) b =
    let c = with_config b (patch_active_flow (switch_type t) (truthy b.active_key)) in
    record c { editing_type = false }
handle (set_steps steps) b =
    with_config b (patch_active_flow (λ flow. record flow { steps = steps }) (truthy b.active_key))
handle (ai_changes next) b =
    let c = normalize_settings (some next) in
    record b { config = some c; saved = false; active_key = keep_tab c (truthy b.active_key) }
handle (open_ai shown) b = record b { ai_open = shown }
handle edit_type b = record b { editing_type = true }
handle (published value) b =
    with_config b (λ c b'. record b' { config = some (record c { is_published = value }) })
handle save b = with_config b (λ c b'.
    if b'.saving || b'.loading
    then b'
    else record b' { saving = true; save_error = none; saved = false })
handle (save_ok result) b = record b {
  config = some (normalize_settings (some result));
  saved = true;
  saving = false;
}
handle (save_fail err) b = record b { save_error = some (describe_save_error err); saving = false }

abbrev pub option_text_eq : Option Text → Option Text → Bool
option_text_eq none none = true
option_text_eq (some s) (some t) = text_eq s t
option_text_eq _ _ = false

-- The effect on `activeKey`: a change of tab folds the type editor.
unfoldable pub fold_type_editor : Option Text → Builder → Builder
fold_type_editor before b =
    if option_text_eq before b.active_key then b else record b { editing_type = false }

unfoldable pub step : Event → Builder → Builder
step ev b = fold_type_editor b.active_key (handle ev b)

unfoldable pub active_flow : Builder → Option Flow
active_flow b = elim b.config [
  | none ↦ none
  | some c ↦ elim (truthy b.active_key) [ none ↦ none | some key ↦ lookup key c.lead_steps ]
]
