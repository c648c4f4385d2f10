-- ===== src/Gateway/Inbound.antt =====
-- The receiving half of gateway/src/session.js: whose messages go on to the backend, and what happens
-- to an attachment.
--
-- The library's `jidNormalizedUser` and `downloadMediaMessage` and the backend are arguments. What a
-- message sets off is a list of effects, in order.
pub mod Forwarding
use whatsapp_bots_saa_s.Base.{
  ℕ, Bool, false, not, ◌&&◌, ◌||◌, Option, none, some, List, [], ◌∷◌, ◌++◌, map, ltb, if◌then◌else◌,
  length, filter_by, is_empty,
}
use whatsapp_bots_saa_s.Text.{Text, codes, mem_text, text_eq, trim, before, is_digit}
use whatsapp_bots_saa_s.Gateway.Value.{get, is_truthy, array?, string_or_empty}
use whatsapp_bots_saa_s.Gateway.Contract.{
  WaMessage, Media, Refusal, too_big, failed, StoredFile, Payload, PayloadOptions, extract_text,
  extract_media, check_media_allowed, media_mime, max_media_bytes, or_option, build_webhook_payload,
}
use whatsapp_bots_saa_s.Gateway.InternalApi.{
  Response, Upload, UploadForm, field_of, upload_media, forward_to_backend,
}
use whatsapp_bots_saa_s.Gateway.Sending.{send_replies}

-- What the session calls: the library, where `none` is an exception, and the backend.
pub record Services : Type 0 where
  pub normalize : Text → Option Text
  pub download : WaMessage → Option (List ℕ)
  pub post_media : UploadForm → Option Response
  pub post_webhook : Payload → Option Response

unfoldable pub nonempty : Option Text → Option Text
nonempty none = none
nonempty (some s) = if is_empty s then none else some s

unfoldable pub normalize_jid_safe : (Text → Option Text) → Option Text → Option Text
normalize_jid_safe normalize none = none
normalize_jid_safe normalize (some jid) = if is_empty jid then none else normalize jid

-- The digits of the user, without the server, the device and the agent.
unfoldable pub jid_user : Option Text → Option Text
unfolding before is_digit nonempty
jid_user none = none
jid_user (some jid) =
    nonempty (some (filter_by is_digit (before b'.' (before b':' (before b'@' jid)))))

pub record Identity : Type 0 where
  pub own_jid : Option Text
  pub own_lid : Option Text

-- The ids that the socket knows of its owner.
pub record SocketIds : Type 0 where
  pub user_id : Option Text
  pub user_lid : Option Text
  pub me_id : Option Text
  pub me_lid : Option Text
  pub creds_lid : Option Text

-- What was found, or else what was known before.
unfoldable pub learned : Option Text → Option Text → Option Text
unfolding nonempty
learned found known = elim (nonempty found) [ none ↦ known | some id ↦ some id ]

unfoldable pub capture_own_ids : (Text → Option Text) → SocketIds → Identity → Identity
unfolding learned normalize_jid_safe or_option
capture_own_ids normalize sock own = record {
  own_jid = learned (normalize_jid_safe normalize (or_option sock.user_id sock.me_id)) own.own_jid;
  own_lid =
      learned
        (normalize_jid_safe normalize
          (or_option sock.user_lid (or_option sock.me_lid sock.creds_lid)))
        own.own_lid;
}

-- `own && n === own`.
unfoldable pub is_own : Option Text → Text → Bool
unfolding text_eq
is_own none n = false
is_own (some own) n = not (is_empty own) && text_eq n own

unfoldable pub is_self : Identity → Option Text → Bool
unfolding is_own
is_self own none = false
is_self own (some n) = not (is_empty n) && (is_own own.own_jid n || is_own own.own_lid n)

unfoldable pub is_self_chat : (Text → Option Text) → Identity → Option Text → Bool
unfolding is_self normalize_jid_safe
is_self_chat normalize own remote_jid = is_self own (normalize_jid_safe normalize remote_jid)

unfoldable pub own_phone_digits : Identity → Option Text
unfolding before is_digit nonempty
own_phone_digits own = elim (nonempty own.own_jid) [
  | none ↦ none
  | some jid ↦ nonempty (some (filter_by is_digit (before b':' (before b'@' jid))))
]

pub record Session : Type 0 where
  pub business_id : Text
  pub identity : Identity
  pub sent_message_ids : List Text

pub data Effect : Type 0 where
  downloaded : WaMessage → Effect
  uploaded : Upload → Effect
  refused : Option Text → Refusal → Effect
  forwarded : Payload → Effect
  replied : Option Text → Text → Effect

pub data MediaOutcome : Type 0 where
  error : Refusal → MediaOutcome
  fetched : StoredFile → MediaOutcome

unfoldable pub upload_of : Session → WaMessage → Media → List ℕ → Upload
unfolding media_mime get string_or_empty
upload_of s msg media bytes = record {
  business_id = s.business_id;
  bytes = bytes;
  mime_type = media_mime media.node;
  file_name = field_of (some (string_or_empty (get (codes "fileName") media.node)));
  conversation_id = msg.key.remote_jid;
  message_id = msg.key.id;
}

unfoldable pub stored_result : Option StoredFile → MediaOutcome
stored_result none = error failed
stored_result (some f) = fetched f

-- The checks of the bytes that have arrived, then the upload.
unfoldable pub store_bytes :
    Services → Session → WaMessage → Media → Option (List ℕ) → MediaOutcome × List Effect
unfolding upload_of stored_result upload_media
store_bytes env s msg media none = (error failed, [])
store_bytes env s msg media (some bytes) =
    if is_empty bytes
    then (error failed, [])
    else if ltb max_media_bytes (length bytes)
    then (error too_big, [])
    else (
      stored_result (upload_media env.post_media (upload_of s msg media bytes)),
      uploaded (upload_of s msg media bytes) ∷ [],
    )

unfoldable pub fetch_and_store_media :
    Services → Session → WaMessage → Media → MediaOutcome × List Effect
unfolding store_bytes
fetch_and_store_media env s msg media =
    let r = store_bytes env s msg media (env.download msg) in (r.0, downloaded msg ∷ r.1)

unfoldable pub options_of : Services → Session → WaMessage → Option StoredFile → PayloadOptions
unfolding is_self_chat
options_of env s msg stored = record {
  self_test = is_self_chat env.normalize s.identity msg.key.remote_jid;
  conversation_id = msg.key.remote_jid;
  media = stored;
}

-- The webhook call, and the replies to its answer.
unfoldable pub forward : Services → Session → WaMessage → Option StoredFile → List Effect
unfolding options_of build_webhook_payload forward_to_backend send_replies get array?
forward env s msg stored =
    let payload = build_webhook_payload msg s.business_id (options_of env s msg stored) in
    let response = forward_to_backend env.post_webhook payload in
    forwarded payload
    ∷ map (replied msg.key.remote_jid) (send_replies (array? (get (codes "replies") response)))

unfoldable pub after_fetch : Services → Session → WaMessage → MediaOutcome → List Effect
unfolding forward
after_fetch env s msg (error reason) = refused msg.key.remote_jid reason ∷ []
after_fetch env s msg (fetched f) = forward env s msg (some f)

unfoldable pub after_check : Services → Session → WaMessage → Media → Option Refusal → List Effect
unfolding fetch_and_store_media after_fetch
after_check env s msg media (some reason) = refused msg.key.remote_jid reason ∷ []
after_check env s msg media none =
    let r = fetch_and_store_media env s msg media in r.1 ++ after_fetch env s msg r.0

unfoldable pub on_content : Services → Session → WaMessage → Text → Option Media → List Effect
unfolding after_check forward check_media_allowed trim
on_content env s msg text none = if is_empty (trim text) then [] else forward env s msg none
on_content env s msg text (some media) =
    after_check env s msg media (check_media_allowed media.node)

-- The session sent this message itself.
unfoldable pub is_echo : Session → Option Text → Bool
unfolding mem_text
is_echo s none = false
is_echo s (some id) = not (is_empty id) && mem_text id s.sent_message_ids

unfoldable pub handle_inbound : Services → Session → WaMessage → List Effect
unfolding is_truthy is_echo is_self_chat on_content extract_text extract_media
handle_inbound env s msg =
    if not (is_truthy msg.message)
    then []
    else if is_echo s msg.key.id
    then []
    else if msg.key.from_me && not (is_self_chat env.normalize s.identity msg.key.remote_jid)
    then []
    else on_content env s msg (extract_text msg.message) (extract_media msg.message)
