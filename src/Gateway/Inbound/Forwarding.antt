-- ===== src/Gateway/Inbound/Forwarding.antt =====
-- Which messages reach the backend, and with which file.
use whatsapp_bots_saa_s.Base.{
  ℕ, ◌≤◌, ◌≡◌, refl, sym, ap, ◌∙◌, subst, inl, inr, Bool, true, false, not, ◌&&◌, Option, none,
  some, List, [], ◌∷◌, ◌++◌, map, arith, ltb, if◌then◌else◌, Bool-cases, length, is_empty, All,
}
use whatsapp_bots_saa_s.Text.{Text, codes, trim}
use whatsapp_bots_saa_s.Gateway.Value.{get, is_truthy, array?}
use whatsapp_bots_saa_s.Gateway.Contract.{
  WaMessage, Media, Refusal, StoredFile, Payload, extract_text, extract_media, check_media_allowed,
  max_media_bytes, build_webhook_payload,
}
use whatsapp_bots_saa_s.Gateway.InternalApi.{upload_media, forward_to_backend}
use whatsapp_bots_saa_s.Gateway.Sending.{send_replies}
use whatsapp_bots_saa_s.Gateway.Inbound.{
  Services, Session, Effect, downloaded, uploaded, refused, forwarded, replied, MediaOutcome, error,
  fetched, upload_of, stored_result, store_bytes, fetch_and_store_media, options_of, forward,
  after_fetch, after_check, on_content, is_echo, is_self_chat, handle_inbound,
}

-- The payloads that are sent to the backend.
abbrev pub forwards : List Effect → List Payload
forwards [] = []
forwards (forwarded p ∷ es) = p ∷ forwards es
forwards (downloaded m ∷ es) = forwards es
forwards (uploaded u ∷ es) = forwards es
forwards (refused j r ∷ es) = forwards es
forwards (replied j t ∷ es) = forwards es

forwards-replied : (j : Option Text) (ts : List Text) → forwards (map (replied j) ts) ≡ []
forwards-replied j [] = refl
forwards-replied j (t ∷ ts) = forwards-replied j ts

module _ (env : Services) (s : Session) (msg : WaMessage) where
  abbrev pub payload_of : Option StoredFile → Payload
  payload_of stored = build_webhook_payload msg s.business_id (options_of env s msg stored)

  abbrev pub from_owner : Bool
  from_owner = is_self_chat env.normalize s.identity msg.key.remote_jid

  -- The file `f` was allowed, has arrived whole within the limit, and is the one that was stored.
  abbrev pub HasStored : Media → StoredFile → Type 0
  HasStored media f =
      (bytes : List ℕ) × (check_media_allowed media.node ≡ none)
      × (env.download msg ≡ some bytes)
      × (1 ≤ length bytes)
      × (length bytes ≤ max_media_bytes)
      × (upload_media env.post_media (upload_of s msg media bytes) ≡ some f)

  -- The content that a payload is forwarded for.
  pub data IsForwarded (p : Payload) : Type 0 where
    as_text :
        extract_media msg.message ≡ none
        → is_empty (trim (extract_text msg.message)) ≡ false
        → p ≡ payload_of none
        → IsForwarded p
    as_file :
        (media : Media) (f : StoredFile)
        → extract_media msg.message ≡ some media
        → HasStored media f
        → p ≡ payload_of (some f)
        → IsForwarded p

  -- The guards that a forwarded message has passed.
  abbrev pub HasPassed : Type 0
  HasPassed =
      (is_truthy msg.message ≡ true)
      × (is_echo s msg.key.id ≡ false)
      × ((msg.key.from_me && not from_owner) ≡ false)

  forwards-forward :
      (stored : Option StoredFile) → forwards (forward env s msg stored) ≡ payload_of stored ∷ []
  unfolding forward
  forwards-forward stored =
      ap (λ r. payload_of stored ∷ r)
        (forwards-replied msg.key.remote_jid (
          send_replies (
            array?
              (get (codes "replies") (forward_to_backend env.post_webhook (payload_of stored))))))

  forward-IsForwarded :
      (stored : Option StoredFile)
      → IsForwarded (payload_of stored)
      → All IsForwarded (forwards (forward env s msg stored))
  forward-IsForwarded stored w = subst (All IsForwarded) (sym (forwards-forward stored)) (w, tt)

  IsStored : Media → Option (List ℕ) → MediaOutcome → Type 0
  IsStored media got (error r) = Unit
  IsStored media got (fetched f) =
      (bytes : List ℕ) × (got ≡ some bytes)
      × (1 ≤ length bytes)
      × (length bytes ≤ max_media_bytes)
      × (upload_media env.post_media (upload_of s msg media bytes) ≡ some f)

  stored_result-IsStored :
      (media : Media) (bytes : List ℕ) (o : Option StoredFile)
      → is_empty bytes ≡ false
      → ltb max_media_bytes (length bytes) ≡ false
      → upload_media env.post_media (upload_of s msg media bytes) ≡ o
      → IsStored media (some bytes) (stored_result o)
  unfolding stored_result IsStored
  stored_result-IsStored media bytes none h k e = tt
  stored_result-IsStored media [] (some f) h k e = cc
  stored_result-IsStored media (b ∷ bytes) (some f) h k e =
      (b ∷ bytes, refl, omega arith, within (length (b ∷ bytes)) max_media_bytes k, e)
    where
      within : (n m : ℕ) → ltb m n ≡ false → n ≤ m
      within n m l = ground arith

  store_bytes-IsStored :
      (media : Media) (got : Option (List ℕ))
      → IsStored media got (store_bytes env s msg media got).0
        × (forwards (store_bytes env s msg media got).1 ≡ [])
  unfolding store_bytes IsStored
  store_bytes-IsStored media none = (tt, refl)
  store_bytes-IsStored media (some bytes) = elim (Bool-cases (is_empty bytes)) [
    | inl e ↦ rw e (tt, refl)
    | inr e ↦ elim (Bool-cases (ltb max_media_bytes (length bytes))) [
      | inl l ↦ rw (e, l) (tt, refl)
      | inr l ↦
          rw (e, l)
            (
              stored_result-IsStored media bytes
                  (upload_media env.post_media (upload_of s msg media bytes)) e l refl,
              refl,
            )
    ]
  ]

  after_fetch-IsForwarded :
      (media : Media) (got : MediaOutcome)
      → extract_media msg.message ≡ some media
      → check_media_allowed media.node ≡ none
      → IsStored media (env.download msg) got
      → All IsForwarded (forwards (after_fetch env s msg got))
  unfolding after_fetch IsStored
  after_fetch-IsForwarded media (error r) h k i = tt
  after_fetch-IsForwarded media (fetched f) h k (bytes, d, l, m, u) =
      forward-IsForwarded (some f) (as_file media f h (bytes, k, d, l, m, u) refl)

  forwards-append : (es fs : List Effect) → forwards (es ++ fs) ≡ forwards es ++ forwards fs
  forwards-append [] fs = refl
  forwards-append (forwarded p ∷ es) fs = ap (λ r. p ∷ r) (forwards-append es fs)
  forwards-append (downloaded m ∷ es) fs = forwards-append es fs
  forwards-append (uploaded u ∷ es) fs = forwards-append es fs
  forwards-append (refused j r ∷ es) fs = forwards-append es fs
  forwards-append (replied j t ∷ es) fs = forwards-append es fs

  after_check-IsForwarded :
      (media : Media) (o : Option Refusal)
      → extract_media msg.message ≡ some media
      → check_media_allowed media.node ≡ o
      → All IsForwarded (forwards (after_check env s msg media o))
  unfolding after_check fetch_and_store_media
  after_check-IsForwarded media (some r) h k = tt
  after_check-IsForwarded media none h k =
      let got = env.download msg in
      let r = store_bytes env s msg media got in
      rw (forwards-append r.1 (after_fetch env s msg r.0), (store_bytes-IsStored media got).1)
        (after_fetch-IsForwarded media r.0 h k (store_bytes-IsStored media got).0)

  on_content-IsForwarded :
      (o : Option Media)
      → extract_media msg.message ≡ o
      → All IsForwarded (forwards (on_content env s msg (extract_text msg.message) o))
  unfolding on_content
  on_content-IsForwarded none h = split (is_empty (trim (extract_text msg.message))) refl
    where
      split :
          (b : Bool)
          → is_empty (trim (extract_text msg.message)) ≡ b
          → All IsForwarded (forwards (if b then [] else forward env s msg none))
      split true e = tt
      split false e = forward-IsForwarded none (as_text h e refl)
  on_content-IsForwarded (some media) h =
      after_check-IsForwarded media (check_media_allowed media.node) h refl

  -- What the session hands on: only a message that is not its own echo, and one of the owner's only
  -- from the chat with himself; a text that is not blank, or a file that was allowed by type and
  -- declared size, has arrived, whose length is within the limit too, and that the backend has stored.
  pub handle_inbound-IsForwarded :
      All (λ p. HasPassed × IsForwarded p) (forwards (handle_inbound env s msg))
  unfolding handle_inbound
  handle_inbound-IsForwarded =
      guards (is_truthy msg.message) (is_echo s msg.key.id) (msg.key.from_me && not from_owner) refl
        refl refl
    where
      with_guards :
          (ps : List Payload)
          → HasPassed
          → All IsForwarded ps
          → All (λ p. HasPassed × IsForwarded p) ps
      with_guards [] g h = tt
      with_guards (p ∷ ps) g (h, hs) = ((g, h), with_guards ps g hs)

      content : List Effect
      content = on_content env s msg (extract_text msg.message) (extract_media msg.message)

      guards :
          (a b c : Bool)
          → is_truthy msg.message ≡ a
          → is_echo s msg.key.id ≡ b
          → (msg.key.from_me && not from_owner) ≡ c
          → All
              (λ p. HasPassed × IsForwarded p)
              (forwards (if not a then [] else if b then [] else if c then [] else content))
      guards false b c d e f = tt
      guards true true c d e f = tt
      guards true false true d e f = tt
      guards true false false d e f =
          with_guards (forwards content) (d, e, f)
            (on_content-IsForwarded (extract_media msg.message) refl)

  guards_lem :
      (a b c : Bool) (es : List Effect)
      → a ≡ true
      → b ≡ false
      → c ≡ false
      → (if not a then [] else if b then [] else if c then [] else es) ≡ es
  guards_lem a b c es d e f = rw (d, e, f) refl

  on_content_text :
      (text : Text)
      → is_empty (trim text) ≡ false
      → on_content env s msg text none ≡ forward env s msg none
  unfolding on_content
  on_content_text text e = rw e refl

  -- A message that passes the guards and has a text and no attachment reaches the backend, once.
  pub handle_inbound_text :
      HasPassed
      → extract_media msg.message ≡ none
      → is_empty (trim (extract_text msg.message)) ≡ false
      → forwards (handle_inbound env s msg) ≡ payload_of none ∷ []
  unfolding handle_inbound
  handle_inbound_text (a, b, c) h e =
      let text = extract_text msg.message in
      ap forwards (
        guards_lem (is_truthy msg.message) (is_echo s msg.key.id)
          (msg.key.from_me && not from_owner)
          (on_content env s msg text (extract_media msg.message)) a b c)
      ∙ ap (λ o. forwards (on_content env s msg text o)) h
      ∙ ap forwards (on_content_text text e)
      ∙ forwards-forward none
