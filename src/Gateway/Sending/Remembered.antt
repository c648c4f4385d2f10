-- ===== src/Gateway/Sending/Remembered.antt =====
-- How long and how much gateway/src/session.js remembers of what it has sent.
use whatsapp_bots_saa_s.Base.{
  ℕ, suc, ◌+◌, ◌<◌, ◌≤◌, ◌≡◌, refl, inl, inr, true, false, Option, none, some, List, [], ◌∷◌, ◌++◌,
  arith, ltb, Bool-cases, length, drop, length-append,
}
use mathlib.Core.List.{append_assoc}
use whatsapp_bots_saa_s.Text.{Text, mem_text}
use whatsapp_bots_saa_s.Text.Laws.{text_eq_refl}
use whatsapp_bots_saa_s.Dict.{put}
use whatsapp_bots_saa_s.Gateway.Value.{Value}
use whatsapp_bots_saa_s.Gateway.Sending.{
  Outcome, rejected, sent, SentMemory, sent_id_cap, sent_msg_cap, evict, add_id, remember_id,
  remember_message, remember_sent_message, after_send,
}

pub record IsBounded (memory : SentMemory) : Type 0 where
  pub ids : length memory.sent_message_ids ≤ sent_id_cap
  pub messages : length memory.sent_messages ≤ sent_msg_cap

length-evict {ℓ} :
    {A : Type ℓ} (cap : ℕ) (xs : List A) → length xs ≤ suc cap → length (evict cap xs) ≤ cap
unfolding evict
length-evict cap [] h = ground arith
length-evict cap (x ∷ xs) h = ground arith

length-add_id : (id : Text) (ids : List Text) → length (add_id id ids) ≤ suc (length ids)
unfolding add_id
length-add_id id ids = ground (arith, length-append ids (id ∷ []))

length-put :
    (id : Text) (v : Value) (o : List (Text × Value)) → length (put id v o) ≤ suc (length o)
unfolding put
length-put id v [] = omega arith
length-put id v ((k, w) ∷ o) = ground (arith, length-put id v o)

remember_sent_message-IsBounded :
    (id : Option Text) (message : Option Value) (memory : SentMemory)
    → IsBounded memory
    → IsBounded (remember_sent_message id message memory)
unfolding remember_sent_message remember_id
remember_sent_message-IsBounded none message memory b = b
remember_sent_message-IsBounded (some []) message memory b = b
remember_sent_message-IsBounded (some (c ∷ id)) message memory b = record {
  ids =
      length-evict sent_id_cap (add_id (c ∷ id) memory.sent_message_ids)
        (omega (arith, length-add_id (c ∷ id) memory.sent_message_ids, b.ids));
  messages = go message;
}
  where
    go :
        (o : Option Value)
        → length (remember_message (c ∷ id) o memory.sent_messages) ≤ sent_msg_cap
    go none = b.messages
    go (some v) =
        length-evict sent_msg_cap (put (c ∷ id) v memory.sent_messages)
          (omega (arith, length-put (c ∷ id) v memory.sent_messages, b.messages))

abbrev pub after_sends : List Outcome → SentMemory → SentMemory
after_sends [] memory = memory
after_sends (o ∷ os) memory = after_sends os (after_send o memory)

after_send-IsBounded :
    (o : Outcome) (memory : SentMemory) → IsBounded memory → IsBounded (after_send o memory)
unfolding after_send
after_send-IsBounded rejected memory b = b
after_send-IsBounded (sent id message) memory b =
    remember_sent_message-IsBounded id message memory b

-- However many messages a session sends, it remembers at most 200 ids and 500 messages.
pub after_sends-IsBounded :
    (os : List Outcome) (memory : SentMemory) → IsBounded memory → IsBounded (after_sends os memory)
after_sends-IsBounded [] memory b = b
after_sends-IsBounded (o ∷ os) memory b =
    after_sends-IsBounded os (after_send o memory) (after_send-IsBounded o memory b)

-- `x` stands in the list with at most `n` texts after it.
IsWithin : Text → ℕ → List Text → Type 0
IsWithin x n ids =
    (pre : List Text) × (post : List Text) × (ids ≡ pre ++ x ∷ post) × (length post ≤ n)

mem_text-within : (x : Text) (pre post : List Text) → mem_text x (pre ++ x ∷ post) ≡ true
unfolding mem_text
mem_text-within x [] post = ground (arith, text_eq_refl x)
mem_text-within x (p ∷ pre) post = ground (arith, mem_text-within x pre post)

IsWithin-mem_text : (x : Text) (n : ℕ) (ids : List Text) → IsWithin x n ids → mem_text x ids ≡ true
unfolding IsWithin
IsWithin-mem_text x n ids (pre, post, e, l) = rw e (mem_text-within x pre post)

evict-IsWithin :
    (x : Text) (n : ℕ) (pre post : List Text)
    → length post ≤ n
    → n < sent_id_cap
    → IsWithin x n (evict sent_id_cap (pre ++ x ∷ post))
unfolding IsWithin evict
evict-IsWithin x n pre post l k = elim (Bool-cases (ltb sent_id_cap (length (pre ++ x ∷ post)))) [
  | inr e ↦ rw e (pre, post, refl, l)
  | inl e ↦ rw e (go pre e)
]
  where
    go :
        (ps : List Text)
        → ltb sent_id_cap (length (ps ++ x ∷ post)) ≡ true
        → IsWithin x n (drop 1 (ps ++ x ∷ post))
    go [] h = absurd (ground arith)
    go (p ∷ ps) h = (ps, post, refl, l)

remember_id-IsWithin :
    (x y : Text) (n : ℕ) (ids : List Text)
    → suc n < sent_id_cap
    → IsWithin x n ids
    → IsWithin x (suc n) (remember_id y ids)
unfolding remember_id add_id IsWithin
remember_id-IsWithin x y n ids k (pre, post, e, l) = elim (Bool-cases (mem_text y ids)) [
  | inl m ↦ rw (m, e) (evict-IsWithin x (suc n) pre post (omega arith) k)
  | inr m ↦
      rw (m, e, append_assoc pre (x ∷ post) (y ∷ []))
        (evict-IsWithin x (suc n) pre (post ++ y ∷ []) (omega (arith, length-append post (y ∷ [])))
          k)
]

IsWithin-weaken : (x : Text) (n : ℕ) (ids : List Text) → IsWithin x n ids → IsWithin x (suc n) ids
unfolding IsWithin
IsWithin-weaken x n ids (pre, post, e, l) = (pre, post, e, omega arith)

after_send-IsWithin :
    (x : Text) (n : ℕ) (o : Outcome) (memory : SentMemory)
    → suc n < sent_id_cap
    → IsWithin x n memory.sent_message_ids
    → IsWithin x (suc n) (after_send o memory).sent_message_ids
unfolding after_send remember_sent_message
after_send-IsWithin x n rejected memory k w = IsWithin-weaken x n memory.sent_message_ids w
after_send-IsWithin x n (sent none m) memory k w = IsWithin-weaken x n memory.sent_message_ids w
after_send-IsWithin x n (sent (some []) m) memory k w =
    IsWithin-weaken x n memory.sent_message_ids w
after_send-IsWithin x n (sent (some (c ∷ id)) m) memory k w =
    remember_id-IsWithin x (c ∷ id) n memory.sent_message_ids k w

after_sends-IsWithin :
    (x : Text) (n : ℕ) (os : List Outcome) (memory : SentMemory)
    → n + length os < sent_id_cap
    → IsWithin x n memory.sent_message_ids
    → mem_text x (after_sends os memory).sent_message_ids ≡ true
after_sends-IsWithin x n [] memory k w = IsWithin-mem_text x n memory.sent_message_ids w
after_sends-IsWithin x n (o ∷ os) memory k w =
    after_sends-IsWithin x (suc n) os (after_send o memory) (omega arith)
      (after_send-IsWithin x n o memory (omega arith) w)

remembered_first :
    (c : ℕ) (id : Text) (m : Option Value) (memory : SentMemory)
    → mem_text (c ∷ id) memory.sent_message_ids ≡ false
    → IsWithin (c ∷ id) 0 (after_send (sent (some (c ∷ id)) m) memory).sent_message_ids
unfolding after_send remember_sent_message remember_id add_id
remembered_first c id m memory h =
    rw h (evict-IsWithin (c ∷ id) 0 memory.sent_message_ids [] (omega arith) (omega arith))

-- A message that was sent under a new id is known as an echo for as long as fewer than 200 other
-- sends have come after it, whatever their ids and results.
pub echo_known :
    (c : ℕ) (id : Text) (m : Option Value) (os : List Outcome) (memory : SentMemory)
    → mem_text (c ∷ id) memory.sent_message_ids ≡ false
    → length os < sent_id_cap
    → mem_text
        (c ∷ id)
        (after_sends os (after_send (sent (some (c ∷ id)) m) memory)).sent_message_ids
      ≡ true
echo_known c id m os memory h k =
    after_sends-IsWithin (c ∷ id) 0 os (after_send (sent (some (c ∷ id)) m) memory) (omega arith)
      (remembered_first c id m memory h)
