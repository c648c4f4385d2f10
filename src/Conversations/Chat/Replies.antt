-- ===== src/Conversations/Chat/Replies.antt =====
-- A reply of ChatPanel.tsx while it is under way, and when it fails.
use whatsapp_bots_saa_s.Base.{
  ℕ, ◌≡◌, refl, sym, ap, ◌∙◌, subst, Bool, true, false, not, ◌||◌, Option, none, some, List, [],
  ◌∷◌, ◌++◌, arith, if◌then◌else◌, filter_by, is_empty, All,
}
use mathlib.Core.Bool.{false≢true}
use whatsapp_bots_saa_s.Text.{Text, trim}
use whatsapp_bots_saa_s.Conversations.{Status}
use whatsapp_bots_saa_s.Conversations.Chat.{
  Bubble, owner, replying, ChatPanel, is_sending, refreshed, edit_draft, insert_emoji, begin_send,
  send, is_reply, roll_back, reply_in, reply_answered, ChatEvent, polled, drafted, emoji_picked,
  sent_again, chat_step, chat_run,
}

-- While a reply is under way: the bubbles from before it, and its own.
record IsUnderWay (before : List Bubble) (n : ℕ) (text : Text) (s : ChatPanel) : Type 0 where
  phase : s.sending ≡ replying n text
  pending : s.pending ≡ true
  messages : s.messages ≡ before ++ owner n text ∷ []

send_again :
    (before : List Bubble) (n : ℕ) (text : Text) (s : ChatPanel)
    → IsUnderWay before n text s
    → send s ≡ s
unfolding send
send_again before n text s u =
    go (is_empty (trim s.draft)) (is_sending s.sending) (ap is_sending u.phase)
  where
    go : (a b : Bool) → b ≡ true → (if a || b then s else begin_send (trim s.draft) s) ≡ s
    go true b h = refl
    go false b h = rw h refl

refreshed-IsUnderWay :
    (before : List Bubble) (n : ℕ) (text : Text) (initial : Bool) (answer : Option (List Bubble))
    (s : ChatPanel)
    → IsUnderWay before n text s
    → IsUnderWay before n text (refreshed initial answer s)
unfolding refreshed
refreshed-IsUnderWay before n text initial none s u = record {
  phase = u.phase;
  pending = u.pending;
  messages = u.messages;
}
refreshed-IsUnderWay before n text initial (some list) s u = go s.pending u.pending
  where
    t : ChatPanel
    t = record s { loading = if initial then false else s.loading }

    go :
        (p : Bool)
        → p ≡ true
        → IsUnderWay before n text
            (if p then t else record t { messages = list; load_error = false })
    go true h = record { phase = u.phase; pending = u.pending; messages = u.messages }
    go false h = absurd (false≢true h)

chat_step-IsUnderWay :
    (before : List Bubble) (n : ℕ) (text : Text) (e : ChatEvent) (s : ChatPanel)
    → IsUnderWay before n text s
    → IsUnderWay before n text (chat_step e s)
unfolding chat_step edit_draft insert_emoji
chat_step-IsUnderWay before n text (polled initial answer) s u =
    refreshed-IsUnderWay before n text initial answer s u
chat_step-IsUnderWay before n text (drafted d) s u = record {
  phase = u.phase;
  pending = u.pending;
  messages = u.messages;
}
chat_step-IsUnderWay before n text (emoji_picked e i j) s u = record {
  phase = u.phase;
  pending = u.pending;
  messages = u.messages;
}
chat_step-IsUnderWay before n text sent_again s u =
    subst (IsUnderWay before n text) (sym (send_again before n text s u)) u

chat_run-IsUnderWay :
    (before : List Bubble) (n : ℕ) (text : Text) (es : List ChatEvent) (s : ChatPanel)
    → IsUnderWay before n text s
    → IsUnderWay before n text (chat_run es s)
chat_run-IsUnderWay before n text [] s u = u
chat_run-IsUnderWay before n text (e ∷ es) s u =
    chat_run-IsUnderWay before n text es (chat_step e s) (chat_step-IsUnderWay before n text e s u)

-- No bubble has the number of a reply that is still to come.
abbrev pub AllOld : ℕ → List Bubble → Type 0
AllOld n bubbles = All (λ b. is_reply n b ≡ false) bubbles

is_reply_own : (n : ℕ) (text : Text) → is_reply n (owner n text) ≡ true
unfolding is_reply
is_reply_own n text = ground arith

filter_by-old :
    (n : ℕ) (text : Text) (before : List Bubble)
    → AllOld n before
    → filter_by (λ b. not (is_reply n b)) (before ++ owner n text ∷ []) ≡ before
filter_by-old n text [] h = rw (is_reply_own n text) refl
filter_by-old n text (b ∷ before) (h, hs) = rw h (ap (λ r. b ∷ r) (filter_by-old n text before hs))

send_begins : (a b : Bool) (x y : ChatPanel) → a ≡ false → b ≡ false → (if a || b then x else y) ≡ y
send_begins a b x y h k = rw (h, k) refl

send-IsUnderWay :
    (s : ChatPanel)
    → is_empty (trim s.draft) ≡ false
    → is_sending s.sending ≡ false
    → IsUnderWay s.messages s.next_reply (trim s.draft) (send s)
unfolding send begin_send
send-IsUnderWay s h k =
    subst (IsUnderWay s.messages s.next_reply (trim s.draft))
      (sym (
        send_begins (is_empty (trim s.draft)) (is_sending s.sending) s (begin_send (trim s.draft) s)
          h k))
      (record { phase = refl; pending = refl; messages = refl })

-- A reply is sent, and until the server refuses it the transcript is polled, the draft edited, emojis
-- picked and the button pressed, in any order: the bubble of the reply stays last in a transcript that
-- is otherwise the one from before, and after the refusal the transcript is as before, the reply is in
-- the draft again, the error is shown, and the panel can send.
pub failed_reply_lem :
    (s : ChatPanel) (es : List ChatEvent) (status : Status)
    → is_empty (trim s.draft) ≡ false
    → is_sending s.sending ≡ false
    → AllOld s.next_reply s.messages
    → let during = chat_run es (send s) in
      let after = reply_answered false status during in
      (during.messages ≡ s.messages ++ owner s.next_reply (trim s.draft) ∷ [])
      × (after.messages ≡ s.messages)
      × (after.draft ≡ trim s.draft)
      × (after.send_error ≡ true)
      × (is_sending after.sending ≡ false)
unfolding reply_answered reply_in roll_back
failed_reply_lem s es status h k old =
    let n = s.next_reply in
    let text = trim s.draft in
    let during = chat_run es (send s) in
    let u = chat_run-IsUnderWay s.messages n text es (send s) (send-IsUnderWay s h k) in
    let e : reply_in during.sending false status during ≡ roll_back n text during =
      ap (λ p. reply_in p false status during) u.phase in
    (
      u.messages,
      ap (λ t. t.messages) e
          ∙ ap (filter_by (λ b. not (is_reply n b))) u.messages
          ∙ filter_by-old n text s.messages old,
      ap (λ t. t.draft) e,
      ap (λ t. t.send_error) e,
      ap (λ t. is_sending t.sending) e,
    )
