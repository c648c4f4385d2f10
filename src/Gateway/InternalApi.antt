-- ===== src/Gateway/InternalApi.antt =====
-- gateway/src/internalApi.js and webhook.js: the calls of the backend, and what the gateway takes from
-- the answers. The HTTP client and the parsing of JSON are third-party: a call is answered by a
-- status and a body, which is `none` where it is not JSON, or it throws, which is `none`.
use whatsapp_bots_saa_s.Base.{
  ℕ, Bool, false, Option, none, some, List, [], ◌∷◌, ltb, leb, if◌then◌else◌, get_or_else, is_empty,
}
use whatsapp_bots_saa_s.Text.{Text, codes}
use whatsapp_bots_saa_s.Gateway.Value.{
  Value, null, get, is_truthy, array?, string?, string_of, is_nullish,
}
use whatsapp_bots_saa_s.Gateway.Contract.{StoredFile, Payload}

pub record Response : Type 0 where
  pub status_code : ℕ
  pub body : Option Value

-- `_json`.
unfoldable pub json : Response → Value
json res = get_or_else res.body null

-- The ids that are strings and not empty.
unfoldable pub ids_of : List Value → List Text
unfolding string?
ids_of [] = []
ids_of (v ∷ vs) =
    let rest = ids_of vs in
    let id = get_or_else (string? v) [] in if is_empty id then rest else id ∷ rest

unfoldable pub list_sessions : Option Response → List Text
unfolding json ids_of get array?
list_sessions none = []
list_sessions (some res) = ids_of (get_or_else (array? (get (codes "sessions") (json res))) [])

-- The stored state of a session: the call throws (`none`), or gives the state or `null`.
unfoldable pub load_creds : Option Response → Option Value
unfolding json get is_nullish
load_creds none = none
load_creds (some res) =
    let state = get (codes "auth_state") (json res) in
    if leb 400 res.status_code then none else some (if is_nullish state then null else state)

unfoldable pub save_creds : Option Response → Bool
save_creds none = false
save_creds (some res) = ltb res.status_code 400

unfoldable pub report_status : Option Response → Value
unfolding json
report_status none = null
report_status (some res) = if ltb res.status_code 400 then json res else null

-- `resp?.conflict`.
unfoldable pub has_conflict : Value → Bool
unfolding is_truthy get
has_conflict resp = is_truthy (get (codes "conflict") resp)

pub record Upload : Type 0 where
  pub business_id : Text
  pub bytes : List ℕ
  pub mime_type : Text
  pub file_name : Option Text
  pub conversation_id : Option Text
  pub message_id : Option Text

-- The fields of the form: those that are empty are left out.
pub record UploadForm : Type 0 where
  pub business_id : Text
  pub conversation_id : Option Text
  pub message_id : Option Text
  pub mime_type : Option Text
  pub file_name : Option Text
  pub file : List ℕ
  pub file_type : Text

unfoldable pub field_of : Option Text → Option Text
field_of none = none
field_of (some s) = if is_empty s then none else some s

unfoldable pub upload_form : Upload → UploadForm
unfolding field_of
upload_form up = record {
  business_id = up.business_id;
  conversation_id = field_of up.conversation_id;
  message_id = field_of up.message_id;
  mime_type = field_of (some up.mime_type);
  file_name = field_of up.file_name;
  file = up.bytes;
  file_type = if is_empty up.mime_type then codes "application/octet-stream" else up.mime_type;
}

-- The type that the backend found, or else the declared one.
unfoldable pub stored_mime : Value → Text → Text
unfolding is_truthy string_of
stored_mime mime declared = if is_truthy mime then string_of mime else declared

unfoldable pub stored_of : Upload → Value → Option StoredFile
unfolding get is_truthy string_of stored_mime
stored_of up data_of =
    if is_truthy (get (codes "file_id") data_of)
    then some (record {
      file_id = string_of (get (codes "file_id") data_of);
      mime_type = stored_mime (get (codes "mime_type") data_of) up.mime_type;
      name = get_or_else up.file_name [];
    })
    else none

unfoldable pub upload_media : (UploadForm → Option Response) → Upload → Option StoredFile
unfolding upload_form json stored_of
upload_media post up = answered (post (upload_form up))
  where
    answered : Option Response → Option StoredFile
    answered none = none
    answered (some res) = if leb 400 res.status_code then none else stored_of up (json res)

-- The body of the webhook's answer; `null` where there is none.
unfoldable pub forward_to_backend : (Payload → Option Response) → Payload → Value
unfolding json
forward_to_backend post payload = answered (post payload)
  where
    answered : Option Response → Value
    answered none = null
    answered (some res) = json res
