-- ===== src/Gateway/Tests.antt =====
-- The gateway on concrete messages: what it receives, forwards and answers, and the witnesses of its
-- theorems.
mod Runs
use whatsapp_bots_saa_s.Base.{◌≡◌, refl, true, false, none, some, [], ◌∷◌, arith, length, All}
use whatsapp_bots_saa_s.Text.{codes, mem_text}
use whatsapp_bots_saa_s.Text.Decimal.{read}
use whatsapp_bots_saa_s.Gateway.Value.{
  Value, undefined, null, num, str, long, obj, arr, nil, entry, no_items, item, get, find_key,
  is_object,
}
use whatsapp_bots_saa_s.Gateway.Contract.{
  MessageKey, is_wrapper, text_of, media_of, WaMessage, image_message, too_big, bad_type,
  message_type, extract_text, extract_media, check_media_allowed, jid_to_e164,
}
use whatsapp_bots_saa_s.Gateway.Contract.Unwrapping.{Wraps, bare, wrapped, read_wrapped}
use whatsapp_bots_saa_s.Gateway.InternalApi.{list_sessions, load_creds, save_creds, report_status}
use whatsapp_bots_saa_s.Gateway.Inbound.{Services, Session, handle_inbound}
use whatsapp_bots_saa_s.Gateway.Inbound.Forwarding.{
  forwards, IsForwarded, HasPassed, handle_inbound-IsForwarded,
}
use whatsapp_bots_saa_s.Gateway.Routes.{SendRequest, Handed, send_bot}
use whatsapp_bots_saa_s.Gateway.Routes.Guarded.{IsAnswer, send_bot-IsAnswer}
use whatsapp_bots_saa_s.Gateway.Sending.{Outcome, sent}
use whatsapp_bots_saa_s.Gateway.Manager.{Manager, started}
use whatsapp_bots_saa_s.Gateway.Lifecycle.{Life, connected}

abbrev photo_node : Value
photo_node = obj (
    entry (codes "mimetype") (str (codes "Image/JPEG; charset=x")) (
      entry (codes "fileLength") (long (some 2048))
        (entry (codes "caption") (str (codes "my roof")) nil)))

abbrev photo : Value
photo = obj (entry (codes "imageMessage") photo_node nil)

-- A disappearing message with a photo in it, with metadata in front.
abbrev vanishing : Value
vanishing = obj (
    entry (codes "messageContextInfo") (obj nil)
      (entry (codes "ephemeralMessage") (obj (entry (codes "message") photo nil)) nil))

abbrev plain : Value
plain = obj (entry (codes "conversation") (str (codes "hello")) nil)

types :
    (message_type vanishing ≡ codes "imageMessage")
    × (message_type plain ≡ codes "conversation")
    × (message_type (obj nil) ≡ codes "unknown")
unfolding message_type
types = (refl, refl, refl)

texts :
    (extract_text vanishing ≡ codes "my roof")
    × (extract_text plain ≡ codes "hello")
    × (extract_text undefined ≡ [])
unfolding extract_text
texts = (refl, refl, refl)

guards :
    (check_media_allowed photo_node ≡ none)
    × (check_media_allowed (obj (entry (codes "fileLength") (str (codes "99999999")) nil))
        ≡ some too_big)
    × (check_media_allowed (obj nil) ≡ some bad_type)
unfolding check_media_allowed read
guards = (refl, refl, refl)

phones :
    (jid_to_e164 (some (codes "972501234567:12@s.whatsapp.net")) ≡ codes "+972501234567")
    × (jid_to_e164 (some (codes "group@g.us")) ≡ [])
    × (jid_to_e164 none ≡ [])
unfolding jid_to_e164
phones = (refl, refl, refl)

-- The conflict of the shapes: an id that is not a string or empty is left out.
lists :
    (list_sessions (
        some (record {
          status_code = 200;
          body = some (
              obj (
                entry
                  (codes "sessions")
                  (arr (item (str (codes "b1")) (item (num 3) (item (str []) no_items))))
                  nil));
        }))
      ≡ codes "b1" ∷ [])
    × (list_sessions none ≡ [])
unfolding list_sessions
lists = (refl, refl)

saves :
    (save_creds (some (record { status_code = 500; body = none })) ≡ false)
    × (load_creds (some (record { status_code = 404; body = none })) ≡ none)
    × (load_creds (some (record { status_code = 200; body = none })) ≡ some null)
    × (report_status (some (record { status_code = 409; body = some (obj nil) })) ≡ null)
unfolding save_creds load_creds report_status
saves = (refl, refl, refl, refl)

vanishing-Wraps : Wraps 1 vanishing photo
unfolding get find_key is_wrapper is_object
vanishing-Wraps =
    wrapped 0 (codes "ephemeralMessage") vanishing photo refl refl (bare photo refl refl)

read_wrapped_example :
    (message_type vanishing ≡ codes "imageMessage")
    × (message_type photo ≡ codes "imageMessage")
    × (extract_text vanishing ≡ codes "my roof")
    × (extract_text photo ≡ codes "my roof")
    × (extract_media vanishing ≡ some (record { node = photo_node; type = image_message }))
    × (extract_media photo ≡ some (record { node = photo_node; type = image_message }))
unfolding text_of media_of mem_text
read_wrapped_example = read_wrapped vanishing-Wraps (omega arith)

abbrev customer_key : MessageKey
customer_key = record {
  remote_jid = some (codes "77@lid");
  sender_pn = some (codes "972501234567@s.whatsapp.net");
  participant = none;
  id = some (codes "M1");
  from_me = false;
}

abbrev photo_message : WaMessage
photo_message = record {
  key = customer_key;
  push_name = none;
  message_timestamp = num 1700000000;
  message = vanishing;
  stub_ciphertext = false;
}

abbrev services : Services
services = record {
  normalize = λ jid. some jid;
  download = λ msg. some (1 ∷ 2 ∷ []);
  post_media = λ form. some (record {
    status_code = 200;
    body = some (obj (entry (codes "file_id") (str (codes "f1")) nil));
  });
  post_webhook = λ payload. some (record {
    status_code = 200;
    body = some (obj (entry (codes "replies") (arr (item (str (codes "hi")) no_items)) nil));
  });
}

abbrev session : Session
session = record {
  business_id = codes "b1";
  identity = record { own_jid = some (codes "1@s"); own_lid = none };
  sent_message_ids = codes "OLD" ∷ [];
}

-- The photo goes on to the backend, once.
photo_forwarded : length (forwards (handle_inbound services session photo_message)) ≡ 1
unfolding handle_inbound
photo_forwarded = refl

handle_inbound-IsForwarded_example :
    All
      (λ p. HasPassed services session photo_message × IsForwarded services session photo_message p)
      (forwards (handle_inbound services session photo_message))
handle_inbound-IsForwarded_example = handle_inbound-IsForwarded services session photo_message

abbrev connected_life : Life
connected_life = record started { status = connected; sock = some 0 }

abbrev manager : Manager
manager = record {
  sessions = (codes "b1", connected_life) ∷ [];
  stopping = [];
  syncing = false;
  polling = true;
}

abbrev send_request : SendRequest
send_request = record {
  token = some (codes "secret");
  body = obj (
      entry (codes "business_id") (str (codes " b1 ")) (
        entry (codes "to") (str (codes "77@lid"))
          (entry (codes "text") (str (codes "shalom")) nil)));
}

abbrev deliver : Handed → Outcome
deliver h = sent (some (codes "M2")) none

-- The message reaches the session of the business; without the token, it does not.
statuses :
    ((send_bot (λ s. s) (codes "secret") deliver manager send_request).0.status ≡ 200)
    × ((send_bot (λ s. s) (codes "other") deliver manager send_request).0.status ≡ 401)
unfolding send_bot started
statuses = (refl, refl)

send_bot-IsAnswer_example :
    IsAnswer
      (λ s. s)
      (codes "secret")
      deliver
      manager
      send_request
      (send_bot (λ s. s) (codes "secret") deliver manager send_request)
send_bot-IsAnswer_example = send_bot-IsAnswer (λ s. s) (codes "secret") deliver manager send_request
