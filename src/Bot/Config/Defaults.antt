-- ===== src/Bot/Config/Defaults.antt =====
-- What `normalizeSettings` and `emptyFlow` of config.ts promise about the messages of the flows.
use whatsapp_bots_saa_s.Base.{
  ◌≡◌, refl, ap, Bool, true, false, not, Option, none, some, [], ◌∷◌, arith, get_or_else, All,
}
use mathlib.Core.Path.{ap₂}
use whatsapp_bots_saa_s.Text.{Text, trim}
use whatsapp_bots_saa_s.Bot.Config.{
  Flow, Flows, FlowType, lead, human_handoff, booking, BotSettings, RawSettings,
  default_handoff_message, default_booking_message, empty_settings, is_blank, fill_message,
  with_default_message, with_default_messages, normalize_settings,
}

-- A flow that speaks for itself has a message to send.
abbrev pub message_ok : FlowType → Option Text → Bool
message_ok lead message = true
message_ok _ message = not (is_blank message)

abbrev pub HasMessage : Text × Flow → Type 0
HasMessage entry = message_ok entry.1.flow_type entry.1.message ≡ true

pub defaults_not_blank :
    (is_blank (some default_handoff_message) ≡ false)
    × (is_blank (some default_booking_message) ≡ false)
unfolding is_blank trim
defaults_not_blank = (refl, refl)

fill_message_lem :
    (t : FlowType) (flow : Flow)
    → flow.flow_type ≡ t
    → (message_ok (fill_message t flow).flow_type (fill_message t flow).message ≡ true)
      × (fill_message t (fill_message t flow) ≡ fill_message t flow)
      × ((fill_message t flow).flow_type ≡ flow.flow_type)
unfolding fill_message
fill_message_lem lead flow e = ground (arith, defaults_not_blank)
fill_message_lem human_handoff flow e = ground (arith, defaults_not_blank)
fill_message_lem booking flow e = ground (arith, defaults_not_blank)

with_default_message_lem :
    (flow : Flow)
    → (message_ok (with_default_message flow).flow_type (with_default_message flow).message ≡ true)
      × (with_default_message (with_default_message flow) ≡ with_default_message flow)
unfolding with_default_message fill_message
with_default_message_lem flow =
    let (ok, again, same) = fill_message_lem flow.flow_type flow refl in (ok, rw same again)

with_default_messages-HasMessage : (flows : Flows) → All HasMessage (with_default_messages flows)
unfolding with_default_messages
with_default_messages-HasMessage [] = tt
with_default_messages-HasMessage ((key, flow) ∷ flows) =
    ((with_default_message_lem flow).0, with_default_messages-HasMessage flows)

with_default_messages_idempotent :
    (flows : Flows)
    → with_default_messages (with_default_messages flows) ≡ with_default_messages flows
unfolding with_default_messages
with_default_messages_idempotent [] = refl
with_default_messages_idempotent ((key, flow) ∷ flows) =
    ap₂ (λ (f : Flow) (r : Flows). (key, f) ∷ r) (with_default_message_lem flow).1
      (with_default_messages_idempotent flows)

-- The settings handed back to `normalizeSettings`, as after a save.
abbrev pub as_raw : BotSettings → RawSettings
as_raw s = record {
  lead_steps = some s.lead_steps;
  bot_profile = some s.bot_profile;
  handoff_keywords = some s.handoff_keywords;
  is_published = some s.is_published;
}

-- Whatever the raw configuration holds or lacks, after `normalizeSettings` every handoff and every
-- booking flow has a message that is not blank.
pub normalize_settings-HasMessage :
    (raw : Option RawSettings) → All HasMessage (normalize_settings raw).lead_steps
unfolding normalize_settings empty_settings
normalize_settings-HasMessage none = tt
normalize_settings-HasMessage (some raw) =
    with_default_messages-HasMessage (get_or_else raw.lead_steps [])

-- Normalizing normalized settings changes nothing.
pub normalize_settings_idempotent :
    (raw : Option RawSettings)
    → normalize_settings (some (as_raw (normalize_settings raw))) ≡ normalize_settings raw
unfolding normalize_settings empty_settings with_default_messages
normalize_settings_idempotent none = refl
normalize_settings_idempotent (some raw) =
    ap (λ flows. record (normalize_settings (some raw)) { lead_steps = flows })
      (with_default_messages_idempotent (get_or_else raw.lead_steps []))
