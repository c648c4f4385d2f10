-- ===== src/Gateway/Upsert/Echo.antt =====
-- Messages of a session that come back to it.
use whatsapp_bots_saa_s.Base.{
  ℕ, ◌<◌, ◌≡◌, refl, sym, subst, Bool, true, false, not, ◌&&◌, Option, some, List, [], ◌∷◌,
  if◌then◌else◌, length, All,
}
use whatsapp_bots_saa_s.Text.{Text, mem_text}
use whatsapp_bots_saa_s.Gateway.Value.{Value, is_truthy}
use whatsapp_bots_saa_s.Gateway.Contract.{WaMessage, extract_text, extract_media}
use whatsapp_bots_saa_s.Gateway.Sending.{Outcome, sent, SentMemory, after_send, sent_id_cap}
use whatsapp_bots_saa_s.Gateway.Sending.Remembered.{after_sends, echo_known}
use whatsapp_bots_saa_s.Gateway.Inbound.{
  Services, Session, Effect, is_echo, is_self_chat, on_content, handle_inbound,
}
use whatsapp_bots_saa_s.Gateway.Upsert.{
  Dispatch, undecrypted, skipped, handled, dispatch, on_upsert,
}

-- What is done with a message that is not taken up: one that could not be decrypted goes to the handler
-- of such failures, and only there; any other has no effect.
abbrev pub IsQuiet : WaMessage → Dispatch → Type 0
IsQuiet msg (undecrypted other) = (msg.stub_ciphertext ≡ true) × (other ≡ msg)
IsQuiet msg skipped = msg.stub_ciphertext ≡ false
IsQuiet msg (handled other es) = (msg.stub_ciphertext ≡ false) × (other ≡ msg) × (es ≡ [])

-- So for every message of an event, in their order.
abbrev pub AllQuiet : List WaMessage → List Dispatch → Type 0
AllQuiet [] [] = Unit
AllQuiet [] (d ∷ ds) = ⊥
AllQuiet (msg ∷ messages) [] = ⊥
AllQuiet (msg ∷ messages) (d ∷ ds) = IsQuiet msg d × AllQuiet messages ds

echo_dropped :
    (a b c : Bool) (es : List Effect)
    → b ≡ true
    → (if not a then [] else if b then [] else if c then [] else es) ≡ []
echo_dropped true b c es h = rw h refl
echo_dropped false b c es h = refl

handle_inbound_echo :
    (env : Services) (s : Session) (msg : WaMessage)
    → is_echo s msg.key.id ≡ true
    → handle_inbound env s msg ≡ []
unfolding handle_inbound
handle_inbound_echo env s msg h =
    echo_dropped (is_truthy msg.message) (is_echo s msg.key.id)
      (msg.key.from_me && not (is_self_chat env.normalize s.identity msg.key.remote_jid))
      (on_content env s msg (extract_text msg.message) (extract_media msg.message)) h

dispatch_echo :
    (env : Services) (s : Session) (is_notify : Bool) (msg : WaMessage)
    → is_echo s msg.key.id ≡ true
    → IsQuiet msg (dispatch env s is_notify msg)
unfolding dispatch
dispatch_echo env s is_notify msg h = go msg.stub_ciphertext is_notify refl
  where
    go :
        (stub notify : Bool)
        → msg.stub_ciphertext ≡ stub
        → IsQuiet msg (
            if stub
            then undecrypted msg
            else if not notify
            then skipped
            else handled msg (handle_inbound env s msg))
    go true notify e = (e, refl)
    go false true e = (e, refl, handle_inbound_echo env s msg h)
    go false false e = e

on_upsert_echo :
    (env : Services) (s : Session) (is_notify : Bool) (id : Option Text) (messages : List WaMessage)
    → is_echo s id ≡ true
    → All (λ msg. msg.key.id ≡ id) messages
    → AllQuiet messages (on_upsert env s is_notify messages)
unfolding on_upsert
on_upsert_echo env s is_notify id [] h k = tt
on_upsert_echo env s is_notify id (msg ∷ messages) h (k, ks) = (
  dispatch_echo env s is_notify msg (subst (λ i. is_echo s i ≡ true) (sym k) h),
  on_upsert_echo env s is_notify id messages h ks,
)

-- A message that the session has sent under a new id is not taken up when it comes back, however
-- often, in whatever event, from whichever chat and with whatever content, as long as fewer than 200
-- other sends have come after it: it has no effect, unless it could not be decrypted, when it goes to
-- the handler of such failures and nowhere else.
pub sent_message_ignored :
    (env : Services) (s : Session) (is_notify : Bool) (messages : List WaMessage)
    → (c : ℕ) (id : Text) (m : Option Value) (os : List Outcome) (memory : SentMemory)
    → mem_text (c ∷ id) memory.sent_message_ids ≡ false
    → length os < sent_id_cap
    → All (λ msg. msg.key.id ≡ some (c ∷ id)) messages
    → AllQuiet messages (
        on_upsert env
          (record s {
            sent_message_ids =
                (after_sends os (after_send (sent (some (c ∷ id)) m) memory)).sent_message_ids;
          })
          is_notify
          messages)
unfolding is_echo
sent_message_ignored env s is_notify messages c id m os memory h k a =
    on_upsert_echo env
      (record s {
        sent_message_ids =
            (after_sends os (after_send (sent (some (c ∷ id)) m) memory)).sent_message_ids;
      })
      is_notify (some (c ∷ id)) messages (echo_known c id m os memory h k) a
