-- ===== src/Gateway/Routes.antt =====
-- gateway/src/routes.js: the HTTP routes of the gateway. The digest of Node's crypto is an argument; two
-- digests are compared as a whole. A sent message is what WhatsApp makes of it, an argument too.
pub mod Guarded
use whatsapp_bots_saa_s.Base.{
  ℕ, Bool, true, false, not, ◌&&◌, ◌||◌, Option, none, some, List, [], if◌then◌else◌, get_or_else,
  is_empty,
}
use whatsapp_bots_saa_s.Text.{Text, codes, text_eq, trim}
use whatsapp_bots_saa_s.Gateway.Value.{Value, get, string?}
use whatsapp_bots_saa_s.Gateway.Sending.{Outcome, rejected, sent}
use whatsapp_bots_saa_s.Gateway.Inbound.{nonempty}
use whatsapp_bots_saa_s.Gateway.Lifecycle.{Life, can_send, is_connected}
use whatsapp_bots_saa_s.Gateway.Manager.{Manager, get_session, session_count}

pub record HttpReply : Type 0 where
  pub status : ℕ
  pub ok : Bool
  pub error : Option Text
  pub message_id : Option Text

abbrev pub failure : ℕ → Text → HttpReply
failure status error = record { status = status; ok = false; error = some error; message_id = none }

abbrev pub success : Option Text → HttpReply
success message_id = record { status = 200; ok = true; error = none; message_id = message_id }

-- The health route: 200, and how many sessions there are.
unfoldable pub healthz : Manager → ℕ × ℕ
unfolding session_count
healthz m = (200, session_count m)

unfoldable pub gateway_token_valid : (Text → List ℕ) → Text → Option Text → Bool
unfolding text_eq
gateway_token_valid sha256 token none = false
gateway_token_valid sha256 token (some provided) =
    not (is_empty provided) && text_eq (sha256 provided) (sha256 token)

-- What `sendText` gives; `none` is its exception.
unfoldable pub send_text : Life → Outcome → Option (Option Text)
unfolding can_send nonempty
send_text s rejected = none
send_text s (sent id message) = if can_send s then some (nonempty id) else none

pub record SendRequest : Type 0 where
  pub token : Option Text
  pub body : Value

-- A message that is handed to the session of a business.
pub record Handed : Type 0 where
  pub business_id : Text
  pub to : Text
  pub text : Text

unfoldable pub string_field : Text → Value → Text
unfolding get string?
string_field key body = get_or_else (string? (get key body)) []

unfoldable pub handed_of : Value → Handed
unfolding string_field trim
handed_of body = record {
  business_id = trim (string_field (codes "business_id") body);
  to = trim (string_field (codes "to") body);
  text = string_field (codes "text") body;
}

unfoldable pub is_missing : Handed → Bool
unfolding trim
is_missing h = is_empty h.business_id || is_empty h.to || is_empty (trim h.text)

unfoldable pub send_reply : Option (Option Text) → HttpReply
send_reply none = failure 500 (codes "send failed")
send_reply (some message_id) = success message_id

unfoldable pub hand_over : (Handed → Outcome) → Handed → Option Life → HttpReply × Option Handed
unfolding is_connected send_reply send_text
hand_over deliver h none = (failure 503 (codes "not connected"), none)
hand_over deliver h (some s) =
    if not (is_connected s.status)
    then (failure 503 (codes "not connected"), none)
    else (send_reply (send_text s (deliver h)), some h)

-- `POST /send-bot`: the reply, and the message that was handed over.
unfoldable pub send_bot :
    (Text → List ℕ) → Text → (Handed → Outcome) → Manager → SendRequest → HttpReply × Option Handed
unfolding gateway_token_valid handed_of is_missing hand_over get_session
send_bot sha256 token deliver m req =
    let h = handed_of req.body in
    if not (gateway_token_valid sha256 token req.token)
    then (failure 401 (codes "unauthorized"), none)
    else if is_missing h
    then (failure 400 (codes "missing business_id, to or text"), none)
    else hand_over deliver h (get_session h.business_id m)
