-- ===== src/Gateway/AuthStore/Keys.antt =====
-- The key store of gateway/src/dbAuthState.js as a map from a type and an id to a value.
use whatsapp_bots_saa_s.Base.{
  ℕ, ◌≡◌, refl, sym, ap, ◌∙◌, ◌≢◌, inl, inr, Bool, true, false, ◌&&◌, Option, none, some, List, [],
  ◌∷◌, arith, ◌==◌, if◌then◌else◌, ==_iff, Bool-cases,
}
use whatsapp_bots_saa_s.Text.{Text, codes, text_eq, mem_text}
use whatsapp_bots_saa_s.Text.Laws.{text_eq→eq, text_eq_refl}
use whatsapp_bots_saa_s.Dict.{lookup, put}
use whatsapp_bots_saa_s.Dict.Laws.{lookup-put}
use whatsapp_bots_saa_s.Gateway.Value.{Value, is_truthy}
use whatsapp_bots_saa_s.Gateway.AuthStore.{
  Bucket, KeyStore, AuthStore, bucket, without_key, set_entry, set_entries, set_keys, session_user,
  kept_sessions, cleared_count, clear_sessions_for_users, schedule_save,
}

-- The value under a type and an id.
abbrev pub value_at : Text → Text → KeyStore → Option Value
value_at type id keys = lookup id (bucket type keys)

-- Writing a value, where one that is not truthy deletes.
abbrev pub written : Value → Option Value
written v = if is_truthy v then some v else none

-- What a list of writes leaves under an id: the last one counts.
abbrev pub after_writes : Text → Bucket → Option Value → Option Value
after_writes id [] old = old
after_writes id ((k, v) ∷ writes) old =
    after_writes id writes (if text_eq k id then written v else old)

abbrev pub after_data : Text → Text → KeyStore → Option Value → Option Value
after_data type id [] old = old
after_data type id ((category, writes) ∷ rest) old =
    after_data type id rest (if text_eq category type then after_writes id writes old else old)

lookup-without_key :
    (k j : Text) (b : Bucket)
    → lookup j (without_key k b) ≡ (if text_eq k j then none else lookup j b)
unfolding lookup without_key
lookup-without_key k j [] = ground arith
lookup-without_key k j ((i, w) ∷ b) = ground (
  arith,
  lookup-without_key k j b,
  text_eq→eq i k,
  text_eq→eq i j,
  text_eq→eq k j,
  text_eq_refl k,
)

lookup-set_entry :
    (k j : Text) (v : Value) (b : Bucket)
    → lookup j (set_entry k v b) ≡ (if text_eq k j then written v else lookup j b)
unfolding set_entry
lookup-set_entry k j v b = ground (arith, lookup-put k j v b, lookup-without_key k j b)

lookup-set_entries :
    (id : Text) (writes b : Bucket)
    → lookup id (set_entries writes b) ≡ after_writes id writes (lookup id b)
unfolding set_entries
lookup-set_entries id [] b = refl
lookup-set_entries id ((k, v) ∷ writes) b =
    lookup-set_entries id writes (set_entry k v b)
    ∙ ap (after_writes id writes) (lookup-set_entry k id v b)

value_at-put :
    (category type id : Text) (writes : Bucket) (keys : KeyStore)
    → value_at type id (put category (set_entries writes (bucket category keys)) keys) ≡ (
        if text_eq category type
        then after_writes id writes (value_at type id keys)
        else value_at type id keys)
unfolding bucket
value_at-put category type id writes keys = elim (Bool-cases (text_eq category type)) [
  | inl e ↦
      rw (lookup-put category type (set_entries writes (bucket category keys)) keys, e)
        (rw (sym (text_eq→eq category type e))
          (lookup-set_entries id writes (bucket category keys)))
  | inr e ↦ rw (lookup-put category type (set_entries writes (bucket category keys)) keys, e) refl
]

-- `set` is, for every type and id, the last write of the data that names them, where a value that is
-- not truthy deletes; whatever the data does not name stays as it was.
pub value_at-set_keys :
    (type id : Text) (data_of keys : KeyStore)
    → value_at type id (set_keys data_of keys) ≡ after_data type id data_of (value_at type id keys)
unfolding set_keys
value_at-set_keys type id [] keys = refl
value_at-set_keys type id ((category, writes) ∷ rest) keys =
    value_at-set_keys type id rest (put category (set_entries writes (bucket category keys)) keys)
    ∙ ap (after_data type id rest) (value_at-put category type id writes keys)

lookup-kept :
    (id : Text) (users : List Text) (b : Bucket)
    → lookup id (kept_sessions users b)
      ≡ (if mem_text (session_user id) users then none else lookup id b)
unfolding lookup kept_sessions
lookup-kept id users [] = ground arith
lookup-kept id users ((i, w) ∷ b) = elim (Bool-cases (text_eq i id)) [
  | inl e ↦ rw (text_eq→eq i id e) (ground (arith, lookup-kept id users b, text_eq_refl id))
  | inr e ↦ ground (arith, lookup-kept id users b)
]

kept-none : (users : List Text) (b : Bucket) → cleared_count users b ≡ 0 → kept_sessions users b ≡ b
unfolding kept_sessions cleared_count
kept-none users [] h = refl
kept-none users ((i, w) ∷ b) h = ground (arith, kept-none users b)

value_at-put_kept :
    (users : List Text) (category type id : Text) (keys : KeyStore)
    → value_at type id (put category (kept_sessions users (bucket category keys)) keys) ≡ (
        if text_eq category type && mem_text (session_user id) users
        then none
        else value_at type id keys)
unfolding bucket
value_at-put_kept users category type id keys = elim (Bool-cases (text_eq category type)) [
  | inl e ↦
      rw (lookup-put category type (kept_sessions users (bucket category keys)) keys, e)
        (rw (sym (text_eq→eq category type e)) (lookup-kept id users (bucket category keys)))
  | inr e ↦ rw (lookup-put category type (kept_sessions users (bucket category keys)) keys, e) refl
]

value_at-put_same :
    (category type id : Text) (keys : KeyStore)
    → value_at type id (put category (bucket category keys) keys) ≡ value_at type id keys
unfolding bucket
value_at-put_same category type id keys = elim (Bool-cases (text_eq category type)) [
  | inl e ↦
      rw (lookup-put category type (bucket category keys) keys, e)
        (rw (text_eq→eq category type e) refl)
  | inr e ↦ rw (lookup-put category type (bucket category keys) keys, e) refl
]

-- After clearing, no session of those users is left, on any device, and every other session and every
-- key of another type stays; a save is pending if anything was cleared.
pub clear_sessions_lem :
    (users : List Text) (type id : Text) (s : AuthStore)
    → let r = clear_sessions_for_users users s in
      (value_at type id r.1.keys ≡ (
        if text_eq (codes "session") type && mem_text (session_user id) users
        then none
        else value_at type id s.keys))
      × (r.0 ≢ 0 → r.1.save_timer ≡ true)
unfolding clear_sessions_for_users schedule_save
clear_sessions_lem users type id s = go (cleared == 0) refl
  where
    sessions : Bucket
    sessions = bucket (codes "session") s.keys

    cleared : ℕ
    cleared = cleared_count users sessions

    next : AuthStore
    next = record s { keys = put (codes "session") (kept_sessions users sessions) s.keys }

    Right : AuthStore → Type 0
    Right t = value_at type id t.keys ≡ (
        if text_eq (codes "session") type && mem_text (session_user id) users
        then none
        else value_at type id s.keys)

    go :
        (b : Bool)
        → (cleared == 0) ≡ b
        → let t = if b then s else schedule_save next in
          Right t × (cleared ≢ 0 → t.save_timer ≡ true)
    go true e = (
      sym (value_at-put_same (codes "session") type id s.keys)
          ∙ ap (λ b. value_at type id (put (codes "session") b s.keys))
              (sym (kept-none users sessions ((==_iff cleared 0).0 e)))
          ∙ value_at-put_kept users (codes "session") type id s.keys,
      λ n. absurd (n ((==_iff cleared 0).0 e)),
    )
    go false e = (value_at-put_kept users (codes "session") type id s.keys, λ n. refl)
