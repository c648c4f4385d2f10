-- ===== src/Conversations/Page.antt =====
-- frontend/src/pages/ConversationsPage.tsx: the tabs, the list with its requests, the open row, and the
-- changes of status that the rows report. A handler and the effect that it sets off are one step.
-- `list_of` is no variable of the program: it notes the tab that the list was loaded for.
pub mod Shown
pub mod Stale
use whatsapp_bots_saa_s.Base.{
  ℕ, ◌+◌, Bool, true, false, Option, none, some, List, [], ◌∷◌, map, if◌then◌else◌, get_or_else,
  filter_by,
}
use whatsapp_bots_saa_s.Text.{Text, text_eq}
use whatsapp_bots_saa_s.Fetch.{Call, cancel_calls, find_call, drop_call}
use whatsapp_bots_saa_s.Conversations.{Status, waiting, Conversation, same_status}

pub data Filter : Type 0 where
  everything : Filter
  only : Status → Filter

pub record ConversationsPage : Type 0 where
  pub filter : Filter
  pub conversations : Option (List Conversation)
  pub list_of : Filter
  pub loading : Bool
  pub error : Bool
  pub open_id : Option Text
  pub calls : List (Call Filter)
  pub next_id : ℕ
  pub kept : Option ℕ
  pub badge_refreshes : ℕ

-- `filter === 'all' || c.status === filter`.
unfoldable pub matches : Filter → Conversation → Bool
unfolding same_status
matches everything c = true
matches (only status) c = same_status c.status status

unfoldable pub same_filter : Filter → Filter → Bool
unfolding same_status
same_filter everything everything = true
same_filter everything (only t) = false
same_filter (only s) everything = false
same_filter (only s) (only t) = same_status s t

unfoldable pub load : Filter → ConversationsPage → ConversationsPage
load filter s = record s {
  loading = true;
  error = false;
  calls = record { id = s.next_id; key = filter; cancelled = false } ∷ s.calls;
  next_id = s.next_id + 1;
}

-- The effect: the clean-up of the one before, then `load`, whose clean-up is kept.
unfoldable pub load_effect : ConversationsPage → ConversationsPage
unfolding load
load_effect s =
    let t = record s { calls = cancel_calls s.kept s.calls } in
    record (load s.filter t) { kept = some s.next_id }

-- Before the first effect; the address may name a conversation.
abbrev pub first_render : Option Text → ConversationsPage
first_render focus = record {
  filter = only waiting;
  conversations = none;
  list_of = everything;
  loading = true;
  error = false;
  open_id = focus;
  calls = [];
  next_id = 0;
  kept = none;
  badge_refreshes = 0;
}

unfoldable pub open_page : Option Text → ConversationsPage
unfolding load_effect
open_page focus = load_effect (first_render focus)

-- A click on a tab; the effect runs if it is another one.
unfoldable pub choose_tab : Filter → ConversationsPage → ConversationsPage
unfolding load_effect same_filter
choose_tab filter s =
    if same_filter s.filter filter then s else load_effect (record s { filter = filter })

-- The refresh button, whose clean-up is dropped.
unfoldable pub refresh : ConversationsPage → ConversationsPage
unfolding load
refresh s = load s.filter s

unfoldable pub settle : Filter → Option (List Conversation) → ConversationsPage → ConversationsPage
settle filter none s = record s { error = true; loading = false }
settle filter (some list) s = record s {
  conversations = some list;
  list_of = filter;
  loading = false;
  badge_refreshes = s.badge_refreshes + 1;
}

unfoldable pub answer_call :
    Option (Call Filter) → Option (List Conversation) → ConversationsPage → ConversationsPage
unfolding settle drop_call
answer_call none answer s = s
answer_call (some c) answer s =
    let t = record s { calls = drop_call c.id s.calls } in
    if c.cancelled then t else settle c.key answer t

unfoldable pub answered_with :
    ℕ → Option (List Conversation) → ConversationsPage → ConversationsPage
unfolding answer_call find_call
answered_with id answer s = answer_call (find_call id s.calls) answer s

abbrev pub map_list :
    (List Conversation → List Conversation)
    → Option (List Conversation)
    → Option (List Conversation)
map_list f none = none
map_list f (some list) = some (f list)

unfoldable pub set_status : Text → Status → Conversation → Conversation
unfolding text_eq
set_status id status c = if text_eq c.conversation_id id then record c { status = status } else c

unfoldable pub updated : Filter → Text → Status → List Conversation → List Conversation
unfolding set_status matches
updated filter id status list = filter_by (matches filter) (map (set_status id status) list)

-- `handleStatusChange` of the render with the tab `filter`.
unfoldable pub handle_status_change : Filter → Text → Status → ConversationsPage → ConversationsPage
unfolding updated
handle_status_change filter id status s = record s {
  conversations = map_list (updated filter id status) s.conversations;
}

unfoldable pub read_one : Text → Conversation → Conversation
unfolding text_eq
read_one id c = if text_eq c.conversation_id id then record c { unread = 0 } else c

abbrev pub is_id : Option Text → Text → Bool
is_id none id = false
is_id (some other) id = text_eq other id

-- A click on a row: it closes if it is open; else it opens, and counts as read.
unfoldable pub toggle : Text → ConversationsPage → ConversationsPage
unfolding read_one text_eq
toggle id s = if is_id s.open_id id then record s { open_id = none } else record s {
  open_id = some id;
  conversations = map_list (map (read_one id)) s.conversations;
  badge_refreshes = s.badge_refreshes + 1;
}

-- What a tab tells: the unread messages of the list, on the chosen one.
abbrev pub total_unread : List Conversation → ℕ
total_unread [] = 0
total_unread (c ∷ list) = c.unread + total_unread list

unfoldable pub tab_count : Filter → ConversationsPage → Option ℕ
unfolding same_filter
tab_count tab s =
    if same_filter tab s.filter then some (total_unread (get_or_else s.conversations [])) else none

pub data PageEvent : Type 0 where
  tab_chosen : Filter → PageEvent
  refreshed : PageEvent
  replied : ℕ → Option (List Conversation) → PageEvent
  status_changed : Filter → Text → Status → PageEvent
  toggled : Text → PageEvent

unfoldable pub handle : PageEvent → ConversationsPage → ConversationsPage
unfolding choose_tab refresh answered_with handle_status_change toggle
handle (tab_chosen filter) s = choose_tab filter s
handle refreshed s = refresh s
handle (replied id answer) s = answered_with id answer s
handle (status_changed filter id status) s = handle_status_change filter id status s
handle (toggled id) s = toggle id s

abbrev pub run : List PageEvent → ConversationsPage → ConversationsPage
run [] s = s
run (ev ∷ evs) s = run evs (handle ev s)
