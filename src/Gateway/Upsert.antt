-- ===== src/Gateway/Upsert.antt =====
-- `messages.upsert` of gateway/src/session.js: the messages that arrive together, each handed to its
-- handler. The handlers are not awaited, so each message has its own effects.
pub mod Echo
use whatsapp_bots_saa_s.Base.{Bool, not, List, [], ◌∷◌, if◌then◌else◌}
use whatsapp_bots_saa_s.Gateway.Contract.{WaMessage}
use whatsapp_bots_saa_s.Gateway.Inbound.{Services, Session, Effect, handle_inbound}

-- What is done with a message.
pub data Dispatch : Type 0 where
  undecrypted : WaMessage → Dispatch
  skipped : Dispatch
  handled : WaMessage → List Effect → Dispatch

unfoldable pub dispatch : Services → Session → Bool → WaMessage → Dispatch
unfolding handle_inbound
dispatch env s is_notify msg =
    if msg.stub_ciphertext
    then undecrypted msg
    else if not is_notify
    then skipped
    else handled msg (handle_inbound env s msg)

-- The event; `is_notify` tells that its type is `notify`.
unfoldable pub on_upsert : Services → Session → Bool → List WaMessage → List Dispatch
unfolding dispatch
on_upsert env s is_notify [] = []
on_upsert env s is_notify (msg ∷ messages) =
    dispatch env s is_notify msg ∷ on_upsert env s is_notify messages
