-- ===== src/Conversations/Chat.antt =====
-- frontend/src/components/dashboard/ChatPanel.tsx: the transcript with its polls, and the reply that is
-- shown before the server has it. The panel is one conversation's. A poll is answered whenever its
-- answer comes; `none` is a failure. A bubble that was not served has the number of the reply.
pub mod Replies
use whatsapp_bots_saa_s.Base.{
  ℕ, ◌+◌, Bool, true, false, not, ◌||◌, Option, none, some, List, [], ◌∷◌, ◌++◌, ◌==◌,
  if◌then◌else◌, take, drop, filter_by, is_empty,
}
use whatsapp_bots_saa_s.Text.{Text, trim}
use whatsapp_bots_saa_s.Conversations.{Status, human, same_status}

pub data Bubble : Type 0 where
  served : Text → Text → Bubble
  owner : ℕ → Text → Bubble

-- A reply is being sent (`replying`), or the transcript is being read again after it (`reading`).
pub data Phase : Type 0 where
  idle : Phase
  replying reading : ℕ → Text → Phase

pub record ChatPanel : Type 0 where
  pub messages : List Bubble
  pub loading : Bool
  pub load_error : Bool
  pub draft : Text
  pub sending : Phase
  pub send_error : Bool
  pub pending : Bool
  pub next_reply : ℕ
  pub taken_over : ℕ

-- After the effect's first run.
abbrev pub opened_panel : ChatPanel
opened_panel = record {
  messages = [];
  loading = true;
  load_error = false;
  draft = [];
  sending = idle;
  send_error = false;
  pending = false;
  next_reply = 0;
  taken_over = 0;
}

abbrev pub is_sending : Phase → Bool
is_sending idle = false
is_sending (replying n t) = true
is_sending (reading n t) = true

-- The answer of `refresh(initial)`, while the panel is mounted.
unfoldable pub refreshed : Bool → Option (List Bubble) → ChatPanel → ChatPanel
refreshed initial (some list) s =
    let t = record s { loading = if initial then false else s.loading } in
    if s.pending then t else record t { messages = list; load_error = false }
refreshed initial none s = record s {
  loading = if initial then false else s.loading;
  load_error = if initial then true else s.load_error;
}

unfoldable pub edit_draft : Text → ChatPanel → ChatPanel
edit_draft text s = record s { draft = text }

-- Into the draft at the selection.
unfoldable pub insert_emoji : Text → ℕ → ℕ → ChatPanel → ChatPanel
insert_emoji emoji start end s = record s {
  draft = take start s.draft ++ emoji ++ drop end s.draft;
}

unfoldable pub begin_send : Text → ChatPanel → ChatPanel
begin_send text s = record s {
  sending = replying s.next_reply text;
  send_error = false;
  pending = true;
  messages = s.messages ++ owner s.next_reply text ∷ [];
  draft = [];
  next_reply = s.next_reply + 1;
}

-- `send` as far as its first request.
unfoldable pub send : ChatPanel → ChatPanel
unfolding trim begin_send
send s = if is_empty (trim s.draft) || is_sending s.sending then s else begin_send (trim s.draft) s

-- `setMessages((prev) => prev.filter((m) => m !== optimistic))`.
unfoldable pub is_reply : ℕ → Bubble → Bool
is_reply n (served role body) = false
is_reply n (owner m body) = m == n

unfoldable pub roll_back : ℕ → Text → ChatPanel → ChatPanel
unfolding is_reply
roll_back n text s = record s {
  messages = filter_by (λ b. not (is_reply n b)) s.messages;
  draft = text;
  send_error = true;
  pending = false;
  sending = idle;
}

-- The reply was taken or not; `status` is the conversation's when it was sent.
unfoldable pub reply_in : Phase → Bool → Status → ChatPanel → ChatPanel
unfolding roll_back same_status
reply_in idle ok status s = s
reply_in (reading n text) ok status s = s
reply_in (replying n text) ok status s =
    if ok
    then record s {
      pending = false;
      sending = reading n text;
      taken_over = if same_status status human then s.taken_over else s.taken_over + 1;
    }
    else roll_back n text s

unfoldable pub reply_answered : Bool → Status → ChatPanel → ChatPanel
unfolding reply_in
reply_answered ok status s = reply_in s.sending ok status s

-- The transcript that is read after the reply.
unfoldable pub reading_in : Phase → Option (List Bubble) → ChatPanel → ChatPanel
unfolding roll_back
reading_in idle answer s = s
reading_in (replying n text) answer s = s
reading_in (reading n text) none s = roll_back n text s
reading_in (reading n text) (some list) s = record s {
  messages = list;
  pending = false;
  sending = idle;
}

unfoldable pub reading_answered : Option (List Bubble) → ChatPanel → ChatPanel
unfolding reading_in
reading_answered answer s = reading_in s.sending answer s

-- What may come while a reply is under way.
pub data ChatEvent : Type 0 where
  polled : Bool → Option (List Bubble) → ChatEvent
  drafted : Text → ChatEvent
  emoji_picked : Text → ℕ → ℕ → ChatEvent
  sent_again : ChatEvent

unfoldable pub chat_step : ChatEvent → ChatPanel → ChatPanel
unfolding refreshed edit_draft insert_emoji send
chat_step (polled initial answer) s = refreshed initial answer s
chat_step (drafted text) s = edit_draft text s
chat_step (emoji_picked emoji start end) s = insert_emoji emoji start end s
chat_step sent_again s = send s

abbrev pub chat_run : List ChatEvent → ChatPanel → ChatPanel
chat_run [] s = s
chat_run (e ∷ es) s = chat_run es (chat_step e s)
