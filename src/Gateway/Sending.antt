-- ===== src/Gateway/Sending.antt =====
-- The sending half of gateway/src/session.js: one message after another with a gap between them, and
-- what was sent is remembered, within bounds.
--
-- A clock of natural numbers, in milliseconds, stands for `Date.now()`. What the event loop and the
-- network do is an input: each job has the time it was enqueued, how late the chain and the timer go
-- on, how long the send takes and how it ends.
pub mod Order
pub mod Remembered
use whatsapp_bots_saa_s.Base.{
  ℕ, ◌+◌, ◌-◌, Option, none, some, List, [], ◌∷◌, ◌++◌, ltb, ◌==◌, if◌then◌else◌, get_or_else,
  length, drop, is_empty,
}
use whatsapp_bots_saa_s.Text.{Text, mem_text, trim}
use whatsapp_bots_saa_s.Dict.{lookup, put}
use whatsapp_bots_saa_s.Gateway.Value.{Value, string?}

abbrev pub send_min_gap_ms : ℕ
send_min_gap_ms = 1000

abbrev pub sent_id_cap : ℕ
sent_id_cap = 200

abbrev pub sent_msg_cap : ℕ
sent_msg_cap = 500

-- What WhatsApp answers to a send: it rejects, or it gives the id and the content.
pub data Outcome : Type 0 where
  rejected : Outcome
  sent : Option Text → Option Value → Outcome

pub record Job : Type 0 where
  pub enqueued : ℕ
  pub lag : ℕ
  pub late : ℕ
  pub duration : ℕ
  pub outcome : Outcome

pub record SendLog : Type 0 where
  pub started : ℕ
  pub finished : ℕ
  pub outcome : Outcome

-- `lastSentAt`, and when the last promise of `sendChain` settled.
pub record SendChain : Type 0 where
  pub last_sent_at : ℕ
  pub settled_at : ℕ

abbrev pub later_of : ℕ → ℕ → ℕ
later_of a b = if ltb a b then b else a

-- `Math.max(0, lastSentAt + SEND_MIN_GAP_MS - now)`.
unfoldable pub send_wait : ℕ → ℕ → ℕ
send_wait last_sent_at now = last_sent_at + send_min_gap_ms - now

-- One link of the chain: it goes on when the link before it has settled, however that ended.
unfoldable pub run_job : SendChain → Job → SendLog
unfolding send_wait
run_job chain job =
    let now = later_of chain.settled_at job.enqueued + job.lag in
    let wait = send_wait chain.last_sent_at now in
    let started = if wait == 0 then now else now + wait + job.late in
    record { started = started; finished = started + job.duration; outcome = job.outcome }

unfoldable pub after_job : SendLog → SendChain
after_job entry = record { last_sent_at = entry.finished; settled_at = entry.finished }

-- The sends of `enqueueSend`, in the order of the calls.
unfoldable pub drain : SendChain → List Job → List SendLog
unfolding run_job after_job
drain chain [] = []
drain chain (job ∷ jobs) = run_job chain job ∷ drain (after_job (run_job chain job)) jobs

pub record SentMemory : Type 0 where
  pub sent_message_ids : List Text
  pub sent_messages : List (Text × Value)

-- The oldest goes when there are more than `cap`.
unfoldable pub evict {ℓ} : {A : Type ℓ} → ℕ → List A → List A
evict cap xs = if ltb cap (length xs) then drop 1 xs else xs

-- `Set.add`, which keeps the place of an id that is there.
unfoldable pub add_id : Text → List Text → List Text
add_id id ids = if mem_text id ids then ids else ids ++ id ∷ []

unfoldable pub remember_id : Text → List Text → List Text
unfolding add_id evict
remember_id id ids = evict sent_id_cap (add_id id ids)

unfoldable pub remember_message : Text → Option Value → List (Text × Value) → List (Text × Value)
unfolding put evict
remember_message id none messages = messages
remember_message id (some message) messages = evict sent_msg_cap (put id message messages)

unfoldable pub remember_sent_message : Option Text → Option Value → SentMemory → SentMemory
unfolding remember_id remember_message
remember_sent_message none message memory = memory
remember_sent_message (some []) message memory = memory
remember_sent_message (some (c ∷ id)) message memory = record {
  sent_message_ids = remember_id (c ∷ id) memory.sent_message_ids;
  sent_messages = remember_message (c ∷ id) message memory.sent_messages;
}

-- What `sendText` does with the outcome.
unfoldable pub after_send : Outcome → SentMemory → SentMemory
unfolding remember_sent_message
after_send rejected memory = memory
after_send (sent id message) memory = remember_sent_message id message memory

-- `getMessage` of the socket.
unfoldable pub get_message : SentMemory → Text → Option Value
unfolding lookup
get_message memory id = lookup id memory.sent_messages

-- A reply that is sent: a string that is not blank.
unfoldable pub reply_text : Value → Text
unfolding string?
reply_text reply = get_or_else (string? reply) []

-- The texts that `sendReplies` hands to `sendText`, one after the other.
unfoldable pub texts_to_send : List Value → List Text
unfolding reply_text trim
texts_to_send [] = []
texts_to_send (reply ∷ replies) =
    let rest = texts_to_send replies in
    if is_empty (trim (reply_text reply)) then rest else reply_text reply ∷ rest

-- `replies` is an array or something else, which sends nothing.
unfoldable pub send_replies : Option (List Value) → List Text
unfolding texts_to_send
send_replies none = []
send_replies (some replies) = texts_to_send replies
