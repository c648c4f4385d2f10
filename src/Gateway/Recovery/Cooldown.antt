-- ===== src/Gateway/Recovery/Cooldown.antt =====
-- How often gateway/src/session.js clears the stored sessions of a contact.
use whatsapp_bots_saa_s.Base.{
  ℕ, ◌+◌, ◌<◌, ◌≡◌, refl, sym, ap, ◌∙◌, subst, inl, inr, Bool, true, false, ◌&&◌, ◌||◌, Option,
  none, some, List, [], ◌∷◌, ◌++◌, arith, if◌then◌else◌, Bool-cases, any,
}
use whatsapp_bots_saa_s.Text.{Text, mem_text, text_eq, distinct}
use whatsapp_bots_saa_s.Text.Laws.{text_eq→eq, text_eq_refl}
use whatsapp_bots_saa_s.Dict.{put}
use whatsapp_bots_saa_s.Dict.Laws.{lookup-put}
use whatsapp_bots_saa_s.Gateway.Contract.{MessageKey, WaMessage}
use whatsapp_bots_saa_s.Gateway.Inbound.{jid_user}
use whatsapp_bots_saa_s.Gateway.Recovery.{
  decrypt_clear_cooldown_ms, Failures, add_user, users_of, failures_of, is_due, count_failure,
  count_failures, RecoveryState, cleared_store, handle_decrypt_failure,
}

mem_text-append :
    (s t : Text) (ts : List Text) → mem_text s (ts ++ t ∷ []) ≡ (mem_text s ts || text_eq t s)
unfolding mem_text
mem_text-append s t [] = ground arith
mem_text-append s t (u ∷ ts) = ground (arith, mem_text-append s t ts)

text_eq_swap : (s t : Text) → text_eq s t ≡ true → text_eq t s ≡ true
text_eq_swap s t h = subst (λ r. text_eq t r ≡ true) (sym (text_eq→eq s t h)) (text_eq_refl t)

distinct-append :
    (t : Text) (ts : List Text)
    → mem_text t ts ≡ false
    → distinct ts ≡ true
    → distinct (ts ++ t ∷ []) ≡ true
unfolding mem_text
distinct-append t [] h k = ground arith
distinct-append t (u ∷ ts) h k =
    ground (arith, distinct-append t ts, mem_text-append u t ts, text_eq_swap t u)

add_user-distinct :
    (o : Option Text) (users : List Text)
    → distinct users ≡ true
    → distinct (add_user o users) ≡ true
unfolding add_user
add_user-distinct none users h = h
add_user-distinct (some u) users h = elim (Bool-cases (mem_text u users)) [
  | inl e ↦ rw e h
  | inr e ↦ rw e (distinct-append u users e h)
]

users_of-distinct : (key : MessageKey) → distinct (users_of key) ≡ true
unfolding users_of
users_of-distinct key =
    add_user-distinct (jid_user key.participant)
      (add_user (jid_user key.sender_pn) (add_user (jid_user key.remote_jid) []))
      (add_user-distinct (jid_user key.sender_pn) (add_user (jid_user key.remote_jid) [])
        (add_user-distinct (jid_user key.remote_jid) [] refl))

failures_of-put :
    (u user : Text) (rec : Failures) (failures : List (Text × Failures))
    → failures_of user (put u rec failures)
      ≡ (if text_eq u user then rec else failures_of user failures)
unfolding failures_of
failures_of-put u user rec failures = elim (Bool-cases (text_eq u user)) [
  | inl e ↦ rw (lookup-put u user rec failures, e) refl
  | inr e ↦ rw (lookup-put u user rec failures, e) refl
]

distinct-cons :
    (u : Text) (users : List Text)
    → distinct (u ∷ users) ≡ true
    → (mem_text u users ≡ false) × (distinct users ≡ true)
distinct-cons u users h = ground arith

failures_of-count_failures :
    (now : ℕ) (user : Text) (users : List Text) (failures : List (Text × Failures))
    → distinct users ≡ true
    → failures_of user (count_failures now users failures).1 ≡ (
        if mem_text user users
        then count_failure now (failures_of user failures)
        else failures_of user failures)
unfolding count_failures mem_text
failures_of-count_failures now user [] failures h = refl
failures_of-count_failures now user (u ∷ users) failures h =
    let rec = count_failure now (failures_of u failures) in
    let next = put u rec failures in
    let (m, d) = distinct-cons u users h in
    let ih = failures_of-count_failures now user users next d in
    let p = failures_of-put u user rec failures in
    elim (Bool-cases (text_eq u user)) [
      | inl e ↦
          let eu = text_eq→eq u user e in
          let n : mem_text user users ≡ false = subst (λ r. mem_text r users ≡ false) eu m in
          let q : failures_of user next ≡ count_failure now (failures_of user failures) =
            p ∙ rw e (ap (λ r. count_failure now (failures_of r failures)) eu) in
          ih ∙ rw (e, n) q
      | inr e ↦
          let q : failures_of user next ≡ failures_of user failures = p ∙ rw e refl in
          ih ∙ rw (e, q) refl
    ]

-- A failure of one user at a time.
abbrev pub Failure : Type 0
Failure = ℕ × WaMessage

-- The times at which a failure is due for a user.
abbrev pub clear_times : Text → List Failure → RecoveryState → List ℕ
clear_times user [] s = []
clear_times user ((now, msg) ∷ rest) s =
    let later = clear_times user rest (handle_decrypt_failure now msg s) in
    if mem_text user (users_of msg.key) && is_due now (failures_of user s.failures)
    then now ∷ later
    else later

-- More than a minute lies between two times, and before the first.
abbrev pub IsSpaced : ℕ → List ℕ → Type 0
IsSpaced before [] = Unit
IsSpaced before (t ∷ ts) = (before + decrypt_clear_cooldown_ms < t) × IsSpaced t ts

handled_failures :
    (now : ℕ) (msg : WaMessage) (user : Text) (s : RecoveryState)
    → failures_of user (handle_decrypt_failure now msg s).failures ≡ (
        if mem_text user (users_of msg.key)
        then count_failure now (failures_of user s.failures)
        else failures_of user s.failures)
unfolding handle_decrypt_failure
handled_failures now msg user s =
    failures_of-count_failures now user (users_of msg.key) s.failures (users_of-distinct msg.key)

count_failure-cleared_at :
    (now : ℕ) (rec : Failures)
    → (count_failure now rec).cleared_at ≡ (if is_due now rec then now else rec.cleared_at)
unfolding count_failure
count_failure-cleared_at now rec = elim (Bool-cases (is_due now rec)) [
  | inl e ↦ rw e refl
  | inr e ↦ rw e refl
]

is_due-after :
    (now : ℕ) (rec : Failures)
    → is_due now rec ≡ true
    → rec.cleared_at + decrypt_clear_cooldown_ms < now
unfolding is_due
is_due-after now rec h = ground arith

spaced_lem :
    (user : Text) (failures : List Failure) (s : RecoveryState)
    → IsSpaced (failures_of user s.failures).cleared_at (clear_times user failures s)
spaced_lem user [] s = tt
spaced_lem user ((now, msg) ∷ rest) s =
    split (mem_text user (users_of msg.key)) (is_due now (failures_of user s.failures))
      (spaced_lem user rest (handle_decrypt_failure now msg s)) refl refl
  where
    rec : Failures
    rec = failures_of user s.failures

    next : RecoveryState
    next = handle_decrypt_failure now msg s

    After : Type 0
    After = IsSpaced (failures_of user next.failures).cleared_at (clear_times user rest next)

    split :
        (m d : Bool)
        → After
        → mem_text user (users_of msg.key) ≡ m
        → is_due now rec ≡ d
        → IsSpaced rec.cleared_at
            (if m && d then now ∷ clear_times user rest next else clear_times user rest next)
    split true true ih e f =
        let q : failures_of user next.failures ≡ count_failure now rec =
          handled_failures now msg user s ∙ rw e refl in
        let c : (count_failure now rec).cleared_at ≡ now =
          count_failure-cleared_at now rec ∙ rw f refl in
        (
          is_due-after now rec f,
          subst (λ t. IsSpaced t (clear_times user rest next)) c
              (subst (λ r. IsSpaced r.cleared_at (clear_times user rest next)) q ih),
        )
    split true false ih e f =
        let q : failures_of user next.failures ≡ count_failure now rec =
          handled_failures now msg user s ∙ rw e refl in
        let c : (count_failure now rec).cleared_at ≡ rec.cleared_at =
          count_failure-cleared_at now rec ∙ rw f refl in
        subst (λ t. IsSpaced t (clear_times user rest next)) c
          (subst (λ r. IsSpaced r.cleared_at (clear_times user rest next)) q ih)
    split false d ih e f =
        let q : failures_of user next.failures ≡ rec =
          handled_failures now msg user s ∙ rw e refl in
        subst (λ r. IsSpaced r.cleared_at (clear_times user rest next)) q ih

-- Whether the failure is due for one of its users, by what was counted before it.
abbrev pub is_due_for_one : ℕ → MessageKey → List (Text × Failures) → Bool
is_due_for_one now key failures = any (λ u. is_due now (failures_of u failures)) (users_of key)

-- After every failure the store is as before, but for one that is due for a user of its message: then
-- the stored sessions of all users of the message are cleared.
abbrev pub ClearsWhenDue : List Failure → RecoveryState → Type 0
ClearsWhenDue [] s = Unit
ClearsWhenDue ((now, msg) ∷ rest) s =
    ((handle_decrypt_failure now msg s).auth_store ≡ (
      if is_due_for_one now msg.key s.failures
      then cleared_store (users_of msg.key) s.auth_store
      else s.auth_store))
    × ClearsWhenDue rest (handle_decrypt_failure now msg s)

any-unchanged :
    (now : ℕ) (u : Text) (rec : Failures) (users : List Text) (failures : List (Text × Failures))
    → mem_text u users ≡ false
    → any (λ v. is_due now (failures_of v (put u rec failures))) users
      ≡ any (λ v. is_due now (failures_of v failures)) users
unfolding mem_text
any-unchanged now u rec [] failures h = refl
any-unchanged now u rec (v ∷ users) failures h = elim (Bool-cases (text_eq u v)) [
  | inl e ↦ ground (arith, text_eq_swap u v)
  | inr e ↦
      let q : failures_of v (put u rec failures) ≡ failures_of v failures =
        failures_of-put u v rec failures ∙ rw e refl in
      rw (q, any-unchanged now u rec users failures (ground arith)) refl
]

count_failures-due :
    (now : ℕ) (users : List Text) (failures : List (Text × Failures))
    → distinct users ≡ true
    → (count_failures now users failures).0 ≡ any (λ u. is_due now (failures_of u failures)) users
unfolding count_failures
count_failures-due now [] failures h = refl
count_failures-due now (u ∷ users) failures h =
    let rec = count_failure now (failures_of u failures) in
    let (m, d) = distinct-cons u users h in
    ap (λ b. is_due now (failures_of u failures) || b)
      (count_failures-due now users (put u rec failures) d
        ∙ any-unchanged now u rec users failures m)

clears_lem : (failures : List Failure) (s : RecoveryState) → ClearsWhenDue failures s
unfolding handle_decrypt_failure
clears_lem [] s = tt
clears_lem ((now, msg) ∷ rest) s = (
  ap (λ b. if b then cleared_store (users_of msg.key) s.auth_store else s.auth_store)
      (count_failures-due now (users_of msg.key) s.failures (users_of-distinct msg.key)),
  clears_lem rest (handle_decrypt_failure now msg s),
)

-- In any sequence of messages that cannot be decrypted, each one clears the stored sessions of the users
-- it names exactly if it is due for one of them (enough failures are counted and the cooldown is over),
-- and leaves the store as it was otherwise; and the times at which it is due for a given user lie more than a minute apart, whoever else the messages name.
pub clear_times-IsSpaced :
    (user : Text) (failures : List Failure) (s : RecoveryState)
    → ClearsWhenDue failures s
      × IsSpaced (failures_of user s.failures).cleared_at (clear_times user failures s)
clear_times-IsSpaced user failures s = (clears_lem failures s, spaced_lem user failures s)
