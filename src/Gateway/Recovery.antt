-- ===== src/Gateway/Recovery.antt =====
-- The recovery of gateway/src/session.js from messages that cannot be decrypted: after two of one user
-- the stored sessions of the users of the message are cleared, with a cooldown of a minute.
pub mod Cooldown
use whatsapp_bots_saa_s.Base.{
  ℕ, ◌+◌, Bool, false, ◌&&◌, ◌||◌, Option, none, some, List, [], ◌∷◌, ◌++◌, ltb, leb, if◌then◌else◌,
  get_or_else,
}
use whatsapp_bots_saa_s.Text.{Text, mem_text}
use whatsapp_bots_saa_s.Dict.{lookup, put}
use whatsapp_bots_saa_s.Gateway.Contract.{MessageKey, WaMessage}
use whatsapp_bots_saa_s.Gateway.Inbound.{jid_user}
use whatsapp_bots_saa_s.Gateway.AuthStore.{AuthStore, clear_sessions_for_users}

abbrev pub decrypt_clear_threshold : ℕ
decrypt_clear_threshold = 2

abbrev pub decrypt_clear_cooldown_ms : ℕ
decrypt_clear_cooldown_ms = 60000

pub record Failures : Type 0 where
  pub count : ℕ
  pub cleared_at : ℕ

-- `users.add(u)`.
unfoldable pub add_user : Option Text → List Text → List Text
unfolding mem_text
add_user none users = users
add_user (some u) users = if mem_text u users then users else users ++ u ∷ []

unfoldable pub users_of : MessageKey → List Text
unfolding add_user jid_user
users_of key =
    add_user (jid_user key.participant)
      (add_user (jid_user key.sender_pn) (add_user (jid_user key.remote_jid) []))

unfoldable pub failures_of : Text → List (Text × Failures) → Failures
unfolding lookup
failures_of user failures =
    get_or_else (lookup user failures) (record { count = 0; cleared_at = 0 })

-- Whether this failure is the one that clears.
unfoldable pub is_due : ℕ → Failures → Bool
is_due now rec =
    leb decrypt_clear_threshold (rec.count + 1)
    && ltb (rec.cleared_at + decrypt_clear_cooldown_ms) now

unfoldable pub count_failure : ℕ → Failures → Failures
unfolding is_due
count_failure now rec =
    if is_due now rec
    then record { count = 0; cleared_at = now }
    else record rec { count = rec.count + 1 }

-- The loop over the users, with `shouldClear`.
unfoldable pub count_failures :
    ℕ → List Text → List (Text × Failures) → Bool × List (Text × Failures)
unfolding failures_of is_due count_failure put
count_failures now [] failures = (false, failures)
count_failures now (user ∷ users) failures =
    let rec = failures_of user failures in
    let r = count_failures now users (put user (count_failure now rec) failures) in
    (is_due now rec || r.0, r.1)

pub record RecoveryState : Type 0 where
  pub failures : List (Text × Failures)
  pub auth_store : Option AuthStore

unfoldable pub cleared_store : List Text → Option AuthStore → Option AuthStore
unfolding clear_sessions_for_users
cleared_store users none = none
cleared_store users (some store) = some (clear_sessions_for_users users store).1

unfoldable pub handle_decrypt_failure : ℕ → WaMessage → RecoveryState → RecoveryState
unfolding users_of count_failures cleared_store
handle_decrypt_failure now msg s =
    let users = users_of msg.key in
    let r = count_failures now users s.failures in
    record s {
      failures = r.1;
      auth_store = if r.0 then cleared_store users s.auth_store else s.auth_store;
    }
