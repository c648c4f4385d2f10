-- ===== src/Bot/Accepted.antt =====
-- What the server takes for a flow: the models `Step` and `Flow` of backend/app/models/bot_builder.py.
--
-- A text is stripped with `trim` of JavaScript, whose white space differs from Python's in a few control
-- characters. Its length is counted in code units, so an upper bound that holds here holds of the
-- code points that the server counts. The kinds that a step accepts are a closed type here, so they
-- need no rule.
use whatsapp_bots_saa_s.Base.{
  ℕ, Bool, true, not, ◌&&◌, ◌||◌, Option, none, some, List, [], ◌∷◌, ◌++◌, map, leb, ◌==◌,
  if◌then◌else◌, get_or_else, length, all, is_empty,
}
use whatsapp_bots_saa_s.Text.{Text, trim, mem_text, distinct}
use whatsapp_bots_saa_s.Bot.Config.{
  StepType, text, phone, email, choice, file, FlowType, lead, human_handoff, booking, Step, Flow,
  max_steps_per_flow,
}

-- `min_length=1` and `max_length`, on the stripped text.
unfoldable pub is_within : ℕ → Text → Bool
is_within most s = not (is_empty (trim s)) && leb (length (trim s)) most

unfoldable pub is_optional_within : ℕ → Option Text → Bool
is_optional_within most none = true
is_optional_within most (some s) = leb (length (trim s)) most

-- A character of `KEY_PATTERN`.
unfoldable pub is_key_char : ℕ → Bool
is_key_char c =
    (leb b'a' c && leb c b'z')
    || (leb b'0' c && leb c b'9')
    || c == b'_'
    || c == b' '
    || (leb 0x590 c && leb c 0x5ff)

unfoldable pub is_step_key : Text → Bool
unfolding is_key_char is_within
is_step_key key = is_within 40 key && all is_key_char (trim key)

-- `seen`: the options, stripped, without the blank ones and each once.
unfoldable pub seen_options : List Text → List Text → List Text
unfolding mem_text
seen_options [] seen = seen
seen_options (o ∷ options) seen =
    seen_options options
      (if is_empty (trim o) || mem_text (trim o) seen then seen else seen ++ trim o ∷ [])

unfoldable pub choice_fits : List Text → Bool
choice_fits seen = leb 2 (length seen) && leb (length seen) 12 && all (λ o. leb (length o) 80) seen

unfoldable pub options_fit : StepType → Option (List Text) → Bool
unfolding choice_fits seen_options
options_fit choice options = choice_fits (seen_options (get_or_else options []) [])
options_fit text options = true
options_fit phone options = true
options_fit email options = true
options_fit file options = true

unfoldable pub step_accepted : Step → Bool
unfolding is_step_key is_within is_optional_within options_fit
step_accepted s =
    is_step_key s.key
    && is_within 500 s.question
    && is_optional_within 40 s.validate
    && is_optional_within 200 s.error_message
    && options_fit s.type s.options

-- The rules of `_enforce_flow_rules` on the steps, but for their keys.
unfoldable pub steps_fit : FlowType → List Step → Bool
steps_fit human_handoff steps = is_empty steps
steps_fit lead steps = not (is_empty steps)
steps_fit booking steps = true

-- The rules that do not look at the type.
unfoldable pub steps_accepted : List Step → Bool
unfolding step_accepted
steps_accepted steps =
    leb (length steps) max_steps_per_flow
    && all step_accepted steps
    && distinct (map (λ s. trim s.key) steps)

unfoldable pub parts_accepted : Flow → Bool
unfolding is_within is_optional_within steps_accepted
parts_accepted flow =
    is_within 80 flow.label
    && is_optional_within 80 flow.service_name
    && is_optional_within 1000 flow.message
    && steps_accepted flow.steps

unfoldable pub flow_accepted : Flow → Bool
unfolding parts_accepted steps_fit
flow_accepted flow = parts_accepted flow && steps_fit flow.flow_type flow.steps
