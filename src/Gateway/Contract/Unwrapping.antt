-- ===== src/Gateway/Contract/Unwrapping.antt =====
-- Reading the content of a message through its wrappers, gateway/src/contract.js.
use whatsapp_bots_saa_s.Base.{
  ℕ, zero, suc, ◌≤◌, ◌≡◌, refl, ap, ◌∙◌, inl, inr, Bool, true, false, not, Option, none, some, [],
  ◌∷◌, arith, if◌then◌else◌, get_or_else, is_empty, Bool-cases,
}
use whatsapp_bots_saa_s.Text.{Text, codes, mem_text}
use whatsapp_bots_saa_s.Gateway.Value.{
  Value, undefined, null, bool, num, str, long, obj, arr, Fields, nil, entry, get, find_key,
  find_field, is_object, is_truthy,
}
use whatsapp_bots_saa_s.Gateway.Contract.{
  is_wrapper, is_content_key, meta_keys, inner_message, peel, unwrap_message, message_type,
  extract_text, extract_media, text_of, media_of,
}

-- `Wraps n v c`: `v` is the object `c`, which holds no wrapper, in `n` wrappers. The wrapper may stand
-- among other fields, before or after them.
pub data Wraps : ℕ → Value → Value → Type 0 where
  bare : (v : Value) → is_object v ≡ true → find_key is_wrapper v ≡ none → Wraps 0 v v
  wrapped :
      (n : ℕ) (key : Text) (v c : Value)
      → is_object v ≡ true
      → find_key is_wrapper v ≡ some key
      → Wraps n (get (codes "message") (get key v)) c
      → Wraps (suc n) v c

Wraps-object : {n : ℕ} {v c : Value} → Wraps n v c → is_object v ≡ true
Wraps-object (bare v o h) = o
Wraps-object (wrapped n key v c o h w) = o

Wraps-content : {n : ℕ} {v c : Value} → Wraps n v c → Wraps 0 c c
Wraps-content (bare v o h) = bare v o h
Wraps-content (wrapped n key v c o h w) = Wraps-content w

inner_message_of :
    (key : Text) (v : Value)
    → is_object (get (codes "message") (get key v)) ≡ true
    → inner_message v (some key) ≡ some (get (codes "message") (get key v))
unfolding inner_message
inner_message_of key v o = rw o refl

peel-Wraps : (rounds : ℕ) {n : ℕ} {v c : Value} → Wraps n v c → n ≤ rounds → peel rounds v ≡ c
unfolding peel
peel-Wraps zero (bare v o h) l = refl
peel-Wraps (suc r) (bare v o h) l = rw (peel, h, inner_message) refl
peel-Wraps zero (wrapped n key v c o h w) l = absurd (omega arith)
peel-Wraps (suc r) (wrapped n key v c o h w) l =
    rw (peel, h, inner_message_of key v (Wraps-object w)) (peel-Wraps r w (omega arith))

unwrap-Wraps : {n : ℕ} {v c : Value} → Wraps n v c → n ≤ 5 → unwrap_message v ≡ c
unfolding unwrap_message
unwrap-Wraps w l = rw (Wraps-object w) (peel-Wraps 5 w l)

is_object-is_truthy : (v : Value) → is_object v ≡ true → is_truthy v ≡ true
unfolding is_object is_truthy
is_object-is_truthy (obj fs) h = refl
is_object-is_truthy (long n) h = refl
is_object-is_truthy (arr vs) h = refl
is_object-is_truthy undefined h = cc
is_object-is_truthy null h = cc
is_object-is_truthy (bool b) h = cc
is_object-is_truthy (num n) h = cc
is_object-is_truthy (str s) h = cc

extract_text-Wraps : {n : ℕ} {v c : Value} → Wraps n v c → n ≤ 5 → extract_text v ≡ text_of c
unfolding extract_text
extract_text-Wraps {n} {v} w l = rw (is_object-is_truthy v (Wraps-object w), unwrap-Wraps w l) refl

-- The first name of a field that is no metadata.
abbrev pub first_named : Fields → Text
first_named nil = codes "unknown"
first_named (entry k v fs) =
    if mem_text k meta_keys then first_named fs else if is_empty k then codes "unknown" else k

abbrev pub own_type : Value → Text
own_type (obj fs) = first_named fs
own_type _ = codes "unknown"

named_type : Option Text → Text
named_type o = if is_empty (get_or_else o []) then codes "unknown" else get_or_else o []

first_named_lem : (fs : Fields) → named_type (find_field is_content_key fs) ≡ first_named fs
unfolding named_type find_field is_content_key
first_named_lem nil = refl
first_named_lem (entry k v fs) = elim (Bool-cases (mem_text k meta_keys)) [
  | inl meta ↦ rw meta (first_named_lem fs)
  | inr content ↦ rw content refl
]

own_type_lem : (v : Value) → named_type (find_key is_content_key v) ≡ own_type v
unfolding find_key named_type
own_type_lem (obj fs) = first_named_lem fs
own_type_lem undefined = refl
own_type_lem null = refl
own_type_lem (bool b) = refl
own_type_lem (num n) = refl
own_type_lem (str s) = refl
own_type_lem (long n) = refl
own_type_lem (arr vs) = refl

message_type-Wraps : {n : ℕ} {v c : Value} → Wraps n v c → n ≤ 5 → message_type v ≡ own_type c
unfolding message_type named_type
message_type-Wraps {n} {v} {c} w l =
    ap (λ u. named_type (find_key is_content_key u)) (unwrap-Wraps w l) ∙ own_type_lem c

-- A message in at most five wrappers has the type, the text and the attachment of the content that
-- is wrapped, and the content has those of its own fields: its type is the first name of a field that
-- is no metadata, and `unknown` where there is none or it is empty.
pub read_wrapped :
    {n : ℕ} {v c : Value}
    → Wraps n v c
    → n ≤ 5
    → (message_type v ≡ own_type c)
      × (message_type c ≡ own_type c)
      × (extract_text v ≡ text_of c)
      × (extract_text c ≡ text_of c)
      × (extract_media v ≡ media_of c)
      × (extract_media c ≡ media_of c)
unfolding extract_media
read_wrapped {n} {v} {c} w l =
    let k = Wraps-content w in
    let e = unwrap-Wraps w l in
    let f = unwrap-Wraps k (omega arith) in
    (
      message_type-Wraps w l,
      message_type-Wraps k (omega arith),
      extract_text-Wraps w l,
      extract_text-Wraps k (omega arith),
      rw e refl,
      rw f refl,
    )

find_field-holds :
    (p : Text → Bool) (fs : Fields) (k : Text) → find_field p fs ≡ some k → p k ≡ true
unfolding find_field
find_field-holds p nil k h = cc
find_field-holds p (entry j v fs) k h = ground (arith, find_field-holds p fs k)

find_key-holds : (p : Text → Bool) (v : Value) (k : Text) → find_key p v ≡ some k → p k ≡ true
unfolding find_key
find_key-holds p (obj fs) k h = find_field-holds p fs k h
find_key-holds p undefined k h = cc
find_key-holds p null k h = cc
find_key-holds p (bool b) k h = cc
find_key-holds p (num n) k h = cc
find_key-holds p (str s) k h = cc
find_key-holds p (long n) k h = cc
find_key-holds p (arr vs) k h = cc

not-true : (b : Bool) → not b ≡ true → b ≡ false
not-true true h = cc
not-true false h = refl

unknown_lem : mem_text (codes "unknown") meta_keys ≡ false
unfolding mem_text
unknown_lem = refl

named_type_lem :
    (o : Option Text)
    → ((k : Text) → o ≡ some k → is_content_key k ≡ true)
    → mem_text (named_type o) meta_keys ≡ false
unfolding named_type is_content_key
named_type_lem none h = unknown_lem
named_type_lem (some []) h = unknown_lem
named_type_lem (some (c ∷ s)) h = not-true (mem_text (c ∷ s) meta_keys) (h (c ∷ s) refl)

-- The type of a message is never the key of its metadata.
pub message_type_lem : (v : Value) → mem_text (message_type v) meta_keys ≡ false
unfolding message_type named_type
message_type_lem v =
    named_type_lem (find_key is_content_key (unwrap_message v))
      (find_key-holds is_content_key (unwrap_message v))
