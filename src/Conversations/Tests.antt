-- ===== src/Conversations/Tests.antt =====
-- The conversations on concrete lists, and the witnesses of their theorems.
use whatsapp_bots_saa_s.Base.{
  ℕ, ◌≡◌, refl, ap, subst, true, false, Option, none, some, List, [], ◌∷◌,
}
use mathlib.Core.Option.{some-injective}
use whatsapp_bots_saa_s.Text.{codes, trim}
use whatsapp_bots_saa_s.Fetch.{Call, cancel_calls, find_call}
use whatsapp_bots_saa_s.Conversations.{waiting, closed, Conversation}
use whatsapp_bots_saa_s.Conversations.Page.{
  Filter, only, ConversationsPage, open_page, handle_status_change, tab_count, matches, PageEvent,
  tab_chosen, replied, toggled, run, handle, answered_with, choose_tab,
}
use whatsapp_bots_saa_s.Conversations.Page.Shown.{AllMatch, run-shows_chosen_tab}
use whatsapp_bots_saa_s.Conversations.Page.Stale.{stale_change-empties_list}
use whatsapp_bots_saa_s.Conversations.Card.{
  deal, Card, set_conversation, set_lead, confirm_outcome, display_name, new_card,
}
use whatsapp_bots_saa_s.Conversations.Card.Outcomes.{IsRecorded, confirm_outcome-IsRecorded}
use whatsapp_bots_saa_s.Conversations.Chat.{
  ChatPanel, opened_panel, served, owner, send, reply_answered, ChatEvent, polled, drafted,
  chat_run, is_reply, is_sending,
}
use whatsapp_bots_saa_s.Conversations.Chat.Replies.{failed_reply_lem}

abbrev ann : Conversation
ann = record {
  conversation_id = codes "972501234567@s.whatsapp.net";
  status = waiting;
  unread = 2;
  contact_name = none;
  phone = none;
}

abbrev bob : Conversation
bob = record {
  conversation_id = codes "77@lid";
  status = closed;
  unread = 0;
  contact_name = some (codes " Bob ");
  phone = none;
}

titles :
    (display_name ann ≡ some (codes "972501234567"))
    × (display_name bob ≡ some (codes "Bob"))
    × (display_name (record bob { contact_name = none }) ≡ none)
unfolding display_name
titles = (refl, refl, refl)

abbrev visits : List PageEvent
visits =
    replied 0 (some (ann ∷ []))
    ∷ toggled ann.conversation_id
    ∷ tab_chosen (only closed)
    ∷ replied 1 (some (bob ∷ []))
    ∷ []

counts_read :
    (tab_count (only waiting) (run (replied 0 (some (ann ∷ [])) ∷ []) (open_page none)) ≡ some 2)
    × (tab_count (only closed) (run visits (open_page none)) ≡ some 0)
unfolding tab_count handle open_page
counts_read = (refl, refl)

abbrev call_key : Call Filter → Filter
call_key c = c.key

run-shows_chosen_tab_example : AllMatch (only closed) (run visits (open_page none)).conversations
unfolding handle open_page matches find_call
run-shows_chosen_tab_example =
    run-shows_chosen_tab none visits
      (
        λ c e.
            subst (λ k. AllMatch k (some (ann ∷ []))) (ap call_key (some-injective _ _ e))
              (refl, tt),
        (
          tt,
          (
            tt,
            (
              λ c e.
                  subst (λ k. AllMatch k (some (bob ∷ []))) (ap call_key (some-injective _ _ e))
                    (refl, tt),
              tt,
            ),
          ),
        ),
      )
      refl refl

-- The tab of the waiting ones, loaded.
abbrev waiting_tab : ConversationsPage
waiting_tab = run (replied 0 (some (ann ∷ [])) ∷ []) (open_page none)

-- While the status of one changes, the owner goes to the closed ones.
stale_change_example :
    let u = answered_with 1 (some (bob ∷ [])) (choose_tab (only closed) waiting_tab) in
    let t = handle_status_change (only waiting) ann.conversation_id closed u in
    (u.conversations ≡ some (bob ∷ []))
    × (u.filter ≡ only closed)
    × (t.conversations ≡ some [])
    × (t.filter ≡ only closed)
    × (t.loading ≡ false)
    × ((n : ℕ) (answer : Option (List Conversation))
        → (answered_with n answer t).conversations ≡ some [])
unfolding handle open_page matches cancel_calls
stale_change_example =
    stale_change-empties_list waiting_tab waiting closed closed ann.conversation_id (bob ∷ []) refl
      refl refl refl refl (refl, tt)

abbrev resolved : Card
resolved = record (new_card ann) { lead = some (codes "L1"); outcome = some deal }

requests_made :
    (confirm_outcome (codes "paid") true (some closed) ann resolved).requests
    ≡ set_lead (codes "L1") deal (codes "paid") ∷ set_conversation ann.conversation_id closed ∷ []
unfolding confirm_outcome new_card
requests_made = refl

confirm_outcome_example :
    IsRecorded ann resolved
      (codes "paid")
      true
      (some closed)
      (confirm_outcome (codes "paid") true (some closed) ann resolved)
confirm_outcome_example = confirm_outcome-IsRecorded (codes "paid") true (some closed) ann resolved

abbrev panel : ChatPanel
panel = record opened_panel {
  messages = served (codes "customer") (codes "hi") ∷ [];
  loading = false;
  draft = codes " hello ";
}

abbrev meanwhile : List ChatEvent
meanwhile = polled false (some []) ∷ drafted (codes "and") ∷ polled false none ∷ []

failed_reply_example :
    let during = chat_run meanwhile (send panel) in
    let after = reply_answered false waiting during in
    (during.messages
      ≡ served (codes "customer") (codes "hi") ∷ owner 0 (trim (codes " hello ")) ∷ [])
    × (after.messages ≡ served (codes "customer") (codes "hi") ∷ [])
    × (after.draft ≡ trim (codes " hello "))
    × (after.send_error ≡ true)
    × (is_sending after.sending ≡ false)
unfolding trim is_reply
failed_reply_example = failed_reply_lem panel meanwhile waiting refl refl (refl, tt)
