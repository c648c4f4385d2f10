-- ===== src/Gateway/Contract/Payloads.antt =====
-- The body that gateway/src/contract.js builds, and its check of attachments.
use whatsapp_bots_saa_s.Base.{
  ℕ, ◌≤◌, ◌≡◌, refl, ◌↔◌, ◌⊎◌, inl, inr, Bool, true, false, not, Option, none, some, List, [], ◌∷◌,
  arith, ltb, if◌then◌else◌, Bool-cases, get_or_else, all, filter_by, is_empty,
}
use whatsapp_bots_saa_s.Text.{Text, mem_text, before, is_digit}
use whatsapp_bots_saa_s.Gateway.Value.{Value}
use whatsapp_bots_saa_s.Gateway.Contract.{
  too_big, bad_type, check_media_allowed, media_size, media_mime, max_media_bytes,
  allowed_media_mime, jid_to_e164, WaMessage, StoredFile, PayloadOptions, build_webhook_payload,
  attached, or_option,
}

-- Empty, or a plus sign and digits, at least one.
pub data IsPhone : Text → Type 0 where
  absent : IsPhone []
  plus_digits : (d : ℕ) (ds : Text) → all is_digit (d ∷ ds) ≡ true → IsPhone (b'+' ∷ d ∷ ds)

all-filter_by : (p : ℕ → Bool) (s : List ℕ) → all p (filter_by p s) ≡ true
all-filter_by p [] = refl
all-filter_by p (c ∷ s) = ground (arith, all-filter_by p s)

plus-IsPhone :
    (user : Text) → all is_digit user ≡ true → IsPhone (if is_empty user then [] else b'+' ∷ user)
plus-IsPhone [] h = absent
plus-IsPhone (d ∷ ds) h = plus_digits d ds h

jid_to_e164-IsPhone : (jid : Option Text) → IsPhone (jid_to_e164 jid)
unfolding jid_to_e164
jid_to_e164-IsPhone none = absent
jid_to_e164-IsPhone (some jid) =
    plus-IsPhone (filter_by is_digit (before b':' (before b'@' jid)))
      (all-filter_by is_digit (before b':' (before b'@' jid)))

-- Where a file is attached, it is the one that was stored, and it has an id.
abbrev pub HasFile : Option StoredFile → Option StoredFile → Type 0
HasFile media stored =
    (media ≡ none)
    ⊎ ((f : StoredFile) × (media ≡ some f) × (stored ≡ some f) × (is_empty f.file_id ≡ false))

attached-HasFile : (stored : Option StoredFile) → HasFile (attached stored) stored
unfolding attached
attached-HasFile none = inl refl
attached-HasFile (some f) = elim (Bool-cases (is_empty f.file_id)) [
  | inl e ↦ inl (rw e refl)
  | inr e ↦ inr (f, rw e refl, refl, e)
]

conversation_lem :
    (id jid : Option Text) (c : ℕ) (s : Text)
    → (id ≡ some (c ∷ s)) ⊎ ((id ≡ none) × (jid ≡ some (c ∷ s)))
    → get_or_else (or_option id jid) [] ≡ c ∷ s
unfolding or_option
conversation_lem id jid c s (inl e) = rw e refl
conversation_lem id jid c s (inr (e, f)) = rw (e, f) refl

-- The sender is told as a phone number or as nothing; the message counts as the owner's test and
-- carries a file exactly as the options tell, and the file has an id; the conversation is the one
-- given, or the chat of the message where none is given.
pub build_webhook_payload_lem :
    (msg : WaMessage) (account : Text) (opts : PayloadOptions) (c : ℕ) (s : Text)
    → (opts.conversation_id ≡ some (c ∷ s))
      ⊎ ((opts.conversation_id ≡ none) × (msg.key.remote_jid ≡ some (c ∷ s)))
    → let p = build_webhook_payload msg account opts in
      IsPhone p.from
      × (p.gateway_account_id ≡ account)
      × (p.self_test ≡ opts.self_test)
      × HasFile p.media opts.media
      × (p.conversation_id ≡ c ∷ s)
unfolding build_webhook_payload
build_webhook_payload_lem msg account opts c s h = (
  jid_to_e164-IsPhone (or_option msg.key.sender_pn msg.key.remote_jid),
  refl,
  refl,
  attached-HasFile opts.media,
  conversation_lem opts.conversation_id msg.key.remote_jid c s h,
)

guards_iff :
    (size limit : ℕ) (listed : Bool)
    → ((if ltb limit size then some too_big else if not listed then some bad_type else none) ≡ none)
      ↔ ((size ≤ limit) × (listed ≡ true))
guards_iff size limit listed = ground arith

-- An attachment is allowed exactly if it says that it has at most 10 MiB and a type of the list.
pub check_media_allowed_iff :
    (node : Value)
    → (check_media_allowed node ≡ none) ↔ (
        (media_size node ≤ max_media_bytes)
        × (mem_text (media_mime node) allowed_media_mime ≡ true))
unfolding check_media_allowed
check_media_allowed_iff node =
    guards_iff (media_size node) max_media_bytes (mem_text (media_mime node) allowed_media_mime)
