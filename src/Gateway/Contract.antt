-- ===== src/Gateway/Contract.antt =====
-- gateway/src/contract.js: what a WhatsApp message holds, which attachments are taken, and the body of
-- the webhook call to the backend.
pub mod Unwrapping
pub mod Payloads
use whatsapp_bots_saa_s.Base.{
  ℕ, zero, suc, ◌*◌, Bool, not, Option, none, some, List, [], ◌∷◌, ltb, ◌==◌, if◌then◌else◌,
  get_or_else, filter_by, is_empty,
}
use whatsapp_bots_saa_s.Text.{Text, codes, mem_text, trim, to_lower, before, is_digit}
use whatsapp_bots_saa_s.Gateway.Value.{
  Value, undefined, null, bool, num, str, long, obj, arr, nil, get, find_key, is_object, is_truthy,
  string_or_empty, number_of, number_of_text,
}

abbrev pub wrapper_keys : List Text
wrapper_keys =
    codes "ephemeralMessage"
    ∷ codes "viewOnceMessage"
    ∷ codes "viewOnceMessageV2"
    ∷ codes "viewOnceMessageV2Extension"
    ∷ codes "documentWithCaptionMessage"
    ∷ []

abbrev pub meta_keys : List Text
meta_keys = codes "messageContextInfo" ∷ codes "senderKeyDistributionMessage" ∷ []

unfoldable pub is_wrapper : Text → Bool
unfolding mem_text
is_wrapper k = mem_text k wrapper_keys

unfoldable pub is_content_key : Text → Bool
unfolding mem_text
is_content_key k = not (mem_text k meta_keys)

-- The message inside the wrapper, if a wrapper is found and an object is inside.
unfoldable pub inner_message : Value → Option Text → Option Value
unfolding get is_object
inner_message current none = none
inner_message current (some key) =
    let inner = get (codes "message") (get key current) in
    if is_object inner then some inner else none

-- The rounds of the loop that are left.
unfoldable pub peel : ℕ → Value → Value
unfolding inner_message is_wrapper find_key
peel zero current = current
peel (suc rounds) current = elim (inner_message current (find_key is_wrapper current)) [
  | none ↦ current
  | some inner ↦ peel rounds inner
]

unfoldable pub unwrap_message : Value → Value
unfolding peel is_object
unwrap_message message = peel 5 (if is_object message then message else obj nil)

unfoldable pub message_type : Value → Text
unfolding unwrap_message find_key is_content_key
message_type message =
    let key = get_or_else (find_key is_content_key (unwrap_message message)) [] in
    if is_empty key then codes "unknown" else key

-- `a || b` on strings.
unfoldable pub or_text : Text → Text → Text
or_text [] other = other
or_text (c ∷ s) other = c ∷ s

unfoldable pub text_of : Value → Text
unfolding or_text string_or_empty get
text_of content = or_text (string_or_empty (get (codes "conversation") content)) (
    or_text (string_or_empty (get (codes "text") (get (codes "extendedTextMessage") content))) (
      or_text (string_or_empty (get (codes "caption") (get (codes "imageMessage") content))) (
        or_text (string_or_empty (get (codes "caption") (get (codes "videoMessage") content)))
          (string_or_empty (get (codes "caption") (get (codes "documentMessage") content))))))

unfoldable pub extract_text : Value → Text
unfolding is_truthy text_of unwrap_message
extract_text message = if is_truthy message then text_of (unwrap_message message) else []

-- 10 MiB.
abbrev pub max_media_bytes : ℕ
max_media_bytes = 10 * 1024 * 1024

abbrev pub allowed_media_mime : List Text
allowed_media_mime =
    codes "image/jpeg"
    ∷ codes "image/png"
    ∷ codes "image/webp"
    ∷ codes "application/pdf"
    ∷ codes "application/msword"
    ∷ codes "application/vnd.openxmlformats-officedocument.wordprocessingml.document"
    ∷ codes "application/vnd.ms-powerpoint"
    ∷ codes "application/vnd.openxmlformats-officedocument.presentationml.presentation"
    ∷ []

pub data MediaType : Type 0 where
  image_message document_message : MediaType

pub record Media : Type 0 where
  pub node : Value
  pub type : MediaType

unfoldable pub media_of : Value → Option Media
unfolding is_truthy get
media_of content =
    if is_truthy (get (codes "imageMessage") content)
    then some (record { node = get (codes "imageMessage") content; type = image_message })
    else if is_truthy (get (codes "documentMessage") content)
    then some (record { node = get (codes "documentMessage") content; type = document_message })
    else none

unfoldable pub extract_media : Value → Option Media
unfolding media_of unwrap_message
extract_media message = media_of (unwrap_message message)

unfoldable pub size_of : Value → ℕ
unfolding number_of number_of_text
size_of undefined = 0
size_of null = 0
size_of (num n) = n
size_of (str s) = get_or_else (number_of_text s) 0
size_of (long n) = get_or_else n 0
size_of (bool b) = get_or_else (number_of (bool b)) 0
size_of (obj fs) = get_or_else (number_of (obj fs)) 0
size_of (arr vs) = get_or_else (number_of (arr vs)) 0

unfoldable pub media_size : Value → ℕ
unfolding get size_of
media_size node = size_of (get (codes "fileLength") node)

unfoldable pub media_mime : Value → Text
unfolding get to_lower trim before string_or_empty
media_mime node = to_lower (trim (before b';' (string_or_empty (get (codes "mimetype") node))))

-- The three refusals, which are told to the sender.
pub data Refusal : Type 0 where
  too_big bad_type failed : Refusal

-- Why an attachment is refused before it is downloaded; `none` where it is allowed.
unfoldable pub check_media_allowed : Value → Option Refusal
unfolding media_size media_mime mem_text
check_media_allowed node =
    if ltb max_media_bytes (media_size node)
    then some too_big
    else if not (mem_text (media_mime node) allowed_media_mime)
    then some bad_type
    else none

unfoldable pub jid_to_e164 : Option Text → Text
unfolding before is_digit
jid_to_e164 none = []
jid_to_e164 (some jid) =
    let user = filter_by is_digit (before b':' (before b'@' jid)) in
    if is_empty user then [] else b'+' ∷ user

-- The key of a message and the message, as Baileys declares them. `stub_ciphertext` tells that the
-- stub type is CIPHERTEXT: the message could not be decrypted.
pub record MessageKey : Type 0 where
  pub remote_jid : Option Text
  pub sender_pn : Option Text
  pub participant : Option Text
  pub id : Option Text
  pub from_me : Bool

pub record WaMessage : Type 0 where
  pub key : MessageKey
  pub push_name : Option Text
  pub message_timestamp : Value
  pub message : Value
  pub stub_ciphertext : Bool

-- A file that the backend has stored.
pub record StoredFile : Type 0 where
  pub file_id : Text
  pub mime_type : Text
  pub name : Text

pub record PayloadOptions : Type 0 where
  pub self_test : Bool
  pub conversation_id : Option Text
  pub media : Option StoredFile

-- The body of the call; `self_test` and `media` are left out where they are `false` and `none`.
pub record Payload : Type 0 where
  pub gateway_account_id : Text
  pub from : Text
  pub push_name : Text
  pub message_id : Text
  pub timestamp : Option ℕ
  pub type : Text
  pub text : Text
  pub raw : WaMessage
  pub conversation_id : Text
  pub self_test : Bool
  pub media : Option StoredFile

-- `a || b` on strings that may be missing.
unfoldable pub or_option : Option Text → Option Text → Option Text
or_option none other = other
or_option (some []) other = other
or_option (some (c ∷ s)) other = some (c ∷ s)

-- `msg.message || {}`.
unfoldable pub or_object : Value → Value
unfolding is_truthy
or_object v = if is_truthy v then v else obj nil

-- `n || null`.
unfoldable pub nonzero : Option ℕ → Option ℕ
nonzero none = none
nonzero (some n) = if n == 0 then none else some n

unfoldable pub attached : Option StoredFile → Option StoredFile
attached none = none
attached (some stored) = if is_empty stored.file_id then none else some stored

unfoldable pub build_webhook_payload : WaMessage → Text → PayloadOptions → Payload
unfolding or_option or_object nonzero attached jid_to_e164 message_type extract_text number_of
build_webhook_payload msg gateway_account_id opts = record {
  gateway_account_id = gateway_account_id;
  from = jid_to_e164 (or_option msg.key.sender_pn msg.key.remote_jid);
  push_name = get_or_else msg.push_name [];
  message_id = get_or_else msg.key.id [];
  timestamp = nonzero (number_of msg.message_timestamp);
  type = message_type (or_object msg.message);
  text = extract_text (or_object msg.message);
  raw = msg;
  conversation_id = get_or_else (or_option opts.conversation_id msg.key.remote_jid) [];
  self_test = opts.self_test;
  media = attached opts.media;
}
