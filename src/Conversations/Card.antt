-- ===== src/Conversations/Card.antt =====
-- One row of the list, frontend/src/components/dashboard/ConversationCard.tsx: what it is titled, its
-- changes of status, and the outcome that the owner records. The answers of the server are arguments.
pub mod Outcomes
use whatsapp_bots_saa_s.Base.{
  ◌-◌, Bool, true, false, not, ◌&&◌, ◌||◌, Option, none, some, List, [], ◌∷◌, ◌++◌, leb,
  if◌then◌else◌, get_or_else, length, drop, all, is_empty,
}
use whatsapp_bots_saa_s.Text.{Text, codes, text_eq, trim, before, is_digit}
use whatsapp_bots_saa_s.Conversations.{Status, human, closed, Conversation, same_status}

-- How the lead was resolved.
pub data Outcome : Type 0 where
  deal plain_closed : Outcome

pub record Card : Type 0 where
  pub lead : Option Text
  pub busy : Bool
  pub action_error : Bool
  pub show_chat : Bool
  pub outcome : Option Outcome
  pub outcome_error : Bool

pub data Request : Type 0 where
  set_conversation : Text → Status → Request
  set_lead : Text → Outcome → Text → Request

unfoldable pub new_card : Conversation → Card
unfolding same_status
new_card c = record {
  lead = none;
  busy = false;
  action_error = false;
  show_chat = same_status c.status human;
  outcome = none;
  outcome_error = false;
}

-- `changeStatus`: the request, if one is made.
unfoldable pub change_status : Status → Conversation → Card → Option Request × Card
unfolding same_status
change_status next c s = if s.busy || same_status next c.status then (none, s) else (
  some (set_conversation c.conversation_id next),
  record s { busy = true; action_error = false },
)

-- Its answer: the status that the server tells, for the parent too, or a failure.
unfoldable pub status_answer : Option Status → Card → Option Status × Card
unfolding same_status
status_answer none s = (none, record s { action_error = true; busy = false })
status_answer (some status) s =
    (some status, record s { show_chat = same_status status human || s.show_chat; busy = false })

unfoldable pub take_over : Conversation → Card → Option Request × Card
unfolding change_status same_status
take_over c s =
    if not (same_status c.status human)
    then change_status human c s
    else (none, record s { show_chat = true })

-- How `confirmOutcome` ends: the requests that were made, what the parent is told, and the card.
pub record Confirmed : Type 0 where
  pub requests : List Request
  pub told : Option Status
  pub card : Card

unfoldable pub close_conversation : List Request → Option Status → Conversation → Card → Confirmed
close_conversation made none c s = record {
  requests = made ++ set_conversation c.conversation_id closed ∷ [];
  told = none;
  card = record s { outcome_error = true; busy = false };
}
close_conversation made (some status) c s = record {
  requests = made ++ set_conversation c.conversation_id closed ∷ [];
  told = some status;
  card = record s { outcome = none; busy = false };
}

-- The lead first, if there is one, then the conversation. `lead_ok` and `answer` are the answers.
unfoldable pub save_outcome :
    Outcome → Text → Bool → Option Status → Conversation → Option Text → Card → Confirmed
unfolding close_conversation
save_outcome outcome note lead_ok answer c none s = close_conversation [] answer c s
save_outcome outcome note lead_ok answer c (some lead) s =
    if lead_ok then close_conversation (set_lead lead outcome note ∷ []) answer c s else record {
      requests = set_lead lead outcome note ∷ [];
      told = none;
      card = record s { outcome_error = true; busy = false };
    }

abbrev pub confirm_with :
    Option Outcome → Text → Bool → Option Status → Conversation → Card → Confirmed
confirm_with none note lead_ok answer c s = record { requests = []; told = none; card = s }
confirm_with (some outcome) note lead_ok answer c s =
    if s.busy || same_status c.status closed
    then record { requests = []; told = none; card = s }
    else save_outcome outcome note lead_ok answer c s.lead
        (record s { busy = true; outcome_error = false })

unfoldable pub confirm_outcome : Text → Bool → Option Status → Conversation → Card → Confirmed
unfolding save_outcome same_status
confirm_outcome note lead_ok answer c s = confirm_with s.outcome note lead_ok answer c s

unfoldable pub ends_with : Text → Text → Bool
unfolding text_eq
ends_with suffix s = text_eq (drop (length s - length suffix) s) suffix

-- `/^\d{9,15}$/`.
unfoldable pub is_phone_number : Text → Bool
unfolding is_digit
is_phone_number s = all is_digit s && leb 9 (length s) && leb (length s) 15

unfoldable pub jid_title : Text → Option Text
unfolding before is_phone_number ends_with
jid_title id =
    if is_phone_number (before b'@' id) && not (ends_with (codes "@lid") id)
    then some (before b'@' id)
    else none

-- The title, with `none` for the placeholder.
unfoldable pub display_name : Conversation → Option Text
unfolding trim jid_title
display_name c =
    let name = trim (get_or_else c.contact_name []) in
    let phone = trim (get_or_else c.phone []) in
    if not (is_empty name)
    then some name
    else if not (is_empty phone)
    then some phone
    else jid_title c.conversation_id
