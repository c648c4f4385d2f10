-- ===== src/Bot/Builder/Contract.antt =====
-- The change of a flow's type in BotBuilderPage.tsx, against what the server takes for a flow.
use whatsapp_bots_saa_s.Base.{
  ◌≡◌, refl, ap, ◌∙◌, Bool, true, false, not, ◌&&◌, Option, none, some, List, [], ◌∷◌, arith,
  is_empty, if◌then◌else◌, get_or_else,
}
use whatsapp_bots_saa_s.Text.{Text, text_eq, trim}
use whatsapp_bots_saa_s.Dict.{lookup, put}
use whatsapp_bots_saa_s.Dict.Laws.{lookup-put, lookup-put_self}
use whatsapp_bots_saa_s.Bot.Accepted.{
  is_within, is_optional_within, is_key_char, is_step_key, options_fit, step_accepted, steps_fit,
  steps_accepted, parts_accepted, flow_accepted,
}
use whatsapp_bots_saa_s.Bot.Config.{
  empty_step, Step, Flow, FlowType, lead, human_handoff, booking, BotSettings,
  default_handoff_message, default_booking_message, is_blank, empty_flow,
}
use whatsapp_bots_saa_s.Bot.Config.Defaults.{defaults_not_blank}
use whatsapp_bots_saa_s.Bot.Builder.{
  Builder, truthy, mutate, with_flows, patch_found, patch_flow, patch_active_flow, message_for,
  switch_type, with_config, on_config, handle, change_type,
}

-- The message is there, and is not the default of the other type of flow.
abbrev pub message_fits : Text → Option Text → Bool
message_fits other none = false
message_fits other (some message) = not (is_empty (trim message)) && not (text_eq message other)

-- What the page itself leaves of the other types: a handoff has no steps, a lead flow has one at least, only
-- a booking has the name of a service, which may be empty, and a handoff and a booking have a message
-- of their own.
abbrev pub type_fits : FlowType → List Step → Option Text → Option Text → Bool
type_fits human_handoff [] none message = message_fits default_booking_message message
type_fits lead (s ∷ steps) none message = true
type_fits booking steps (some service) message = message_fits default_handoff_message message
type_fits _ _ _ _ = false

abbrev pub FitsType : Flow → Type 0
FitsType flow = type_fits flow.flow_type flow.steps flow.service_name flow.message ≡ true

message_for_fits :
    (own other : Text) (message : Option Text)
    → is_empty (trim own) ≡ false
    → text_eq own other ≡ false
    → message_fits other (some (message_for own other message)) ≡ true
unfolding message_for
message_for_fits own other none h k = ground arith
message_for_fits own other (some message) h k = ground arith

defaults_differ :
    (text_eq default_handoff_message default_booking_message ≡ false)
    × (text_eq default_booking_message default_handoff_message ≡ false)
unfolding text_eq
defaults_differ = (refl, refl)

switch_type-FitsType : (t : FlowType) (flow : Flow) → FitsType (switch_type t flow)
unfolding switch_type is_blank empty_flow
switch_type-FitsType human_handoff flow =
    message_for_fits default_handoff_message default_booking_message flow.message
      defaults_not_blank.0 defaults_differ.0
switch_type-FitsType booking flow =
    message_for_fits default_booking_message default_handoff_message flow.message
      defaults_not_blank.1 defaults_differ.1
switch_type-FitsType lead flow = ground arith

switch_type-flow_type : (t : FlowType) (flow : Flow) → (switch_type t flow).flow_type ≡ t
unfolding switch_type
switch_type-flow_type lead flow = refl
switch_type-flow_type _ flow = refl

-- What `patchActiveFlow` leaves behind, when the active flow is there.
patch_active_flow_lem :
    (f : Flow → Flow) (key : Text) (c : BotSettings) (b : Builder) (flow : Flow)
    → lookup key c.lead_steps ≡ some flow
    → patch_active_flow f (some key) c b ≡ mutate (with_flows (put key (f flow) c.lead_steps) c) b
unfolding patch_active_flow patch_flow patch_found
patch_active_flow_lem f key c b flow h = rw h

is_optional_within-message_for :
    (own other : Text) (message : Option Text)
    → is_optional_within 1000 (some own) ≡ true
    → is_optional_within 1000 message ≡ true
    → is_optional_within 1000 (some (message_for own other message)) ≡ true
unfolding message_for is_optional_within
is_optional_within-message_for own other none h k = h
is_optional_within-message_for own other (some message) h k = ground arith

defaults_within :
    (is_optional_within 1000 (some default_handoff_message) ≡ true)
    × (is_optional_within 1000 (some default_booking_message) ≡ true)
unfolding is_optional_within trim
defaults_within = (refl, refl)

empty_flow-accepted : steps_accepted (empty_flow [] lead).steps ≡ true
unfolding empty_flow empty_step steps_accepted step_accepted is_within is_optional_within
    is_step_key is_key_char options_fit trim
empty_flow-accepted = refl

no_steps_accepted : steps_accepted [] ≡ true
unfolding steps_accepted
no_steps_accepted = refl

all_true :
    (a b c d e : Bool)
    → a ≡ true
    → b ≡ true
    → c ≡ true
    → d ≡ true
    → e ≡ true
    → (a && b && c && d && e) ≡ true
all_true a b c d e p q r s t = ground arith

parts_of :
    (flow : Flow)
    → parts_accepted flow ≡ true
    → (is_within 80 flow.label ≡ true)
      × (is_optional_within 80 flow.service_name ≡ true)
      × (is_optional_within 1000 flow.message ≡ true)
      × (steps_accepted flow.steps ≡ true)
unfolding parts_accepted
parts_of flow h = ground arith

service_within :
    (o : Option Text)
    → is_optional_within 80 o ≡ true
    → is_optional_within 80 (some (get_or_else o [])) ≡ true
unfolding is_optional_within trim
service_within none h = refl
service_within (some s) h = h

lead_steps_accepted :
    (steps : List Step)
    → steps_accepted steps ≡ true
    → (steps_accepted (if is_empty steps then (empty_flow [] lead).steps else steps) ≡ true)
      × (is_empty (if is_empty steps then (empty_flow [] lead).steps else steps) ≡ false)
lead_steps_accepted [] h = (empty_flow-accepted, unfold empty_flow in refl)
lead_steps_accepted (s ∷ steps) h = (h, refl)

switch_type-accepted :
    (t : FlowType) (flow : Flow)
    → parts_accepted flow ≡ true
    → flow_accepted (switch_type t flow) ≡ true
unfolding flow_accepted parts_accepted steps_fit switch_type
switch_type-accepted human_handoff flow h =
    let (l, s, m, k) = parts_of flow h in
    all_true _ _ _ _ _ l (unfold is_optional_within in refl)
      (is_optional_within-message_for default_handoff_message default_booking_message flow.message
        defaults_within.0 m)
      no_steps_accepted refl
switch_type-accepted booking flow h =
    let (l, s, m, k) = parts_of flow h in
    all_true _ _ _ _ _ l (service_within flow.service_name s)
      (is_optional_within-message_for default_booking_message default_handoff_message flow.message
        defaults_within.1 m)
      k refl
switch_type-accepted lead flow h =
    let (l, s, m, k) = parts_of flow h in
    let (q, r) = lead_steps_accepted flow.steps k in
    all_true _ _ _ _ _ l (unfold is_optional_within in refl) m q (ap not r)

abbrev folded : Builder → Builder
folded b = record b { editing_type = false }

-- If the label, the name of the service, the message and the steps of the active flow pass the server's
-- rules that do not look at its type, then changing its type gives a flow of that type, under the
-- same key, that passes all rules of the server's models `Flow` and `Step`, and that has the shape of its
-- type: a handoff has no steps, a lead flow has one at least, exactly a booking has the name of a
-- service, and the message of a handoff or a booking is there and not the other's default. Every other flow and the
-- bot's profile stay, the change counts as unsaved, and the type editor is folded.
pub change_type-FitsType :
    (t : FlowType) (b : Builder) (c : BotSettings) (key : Text) (flow : Flow)
    → b.config ≡ some c
    → truthy b.active_key ≡ some key
    → lookup key c.lead_steps ≡ some flow
    → parts_accepted flow ≡ true
    → (c' : BotSettings) × ((handle (change_type t) b).config ≡ some c')
      × (lookup key c'.lead_steps ≡ some (switch_type t flow))
      × ((switch_type t flow).flow_type ≡ t)
      × (flow_accepted (switch_type t flow) ≡ true)
      × FitsType (switch_type t flow)
      × ((j : Text) → text_eq key j ≡ false → lookup j c'.lead_steps ≡ lookup j c.lead_steps)
      × (c'.bot_profile ≡ c.bot_profile)
      × ((handle (change_type t) b).saved ≡ false)
      × ((handle (change_type t) b).editing_type ≡ false)
unfolding handle with_config mutate with_flows
change_type-FitsType t b c key flow hc hk hf hp =
    let e : handle (change_type t) b
        ≡ folded (mutate (with_flows (put key (switch_type t flow) c.lead_steps) c) b) =
      ap folded (
        ap (λ o. on_config o (patch_active_flow (switch_type t) (truthy b.active_key)) b) hc
        ∙ ap (λ k. patch_active_flow (switch_type t) k c b) hk
        ∙ patch_active_flow_lem (switch_type t) key c b flow hf) in
    (
      with_flows (put key (switch_type t flow) c.lead_steps) c,
      ap (λ (s : Builder). s.config) e,
      lookup-put_self key _ _,
      switch_type-flow_type t flow,
      switch_type-accepted t flow hp,
      switch_type-FitsType t flow,
      λ j n. lookup-put key j _ c.lead_steps ∙ rw n,
      refl,
      ap (λ (s : Builder). s.saved) e,
      ap (λ (s : Builder). s.editing_type) e,
    )
