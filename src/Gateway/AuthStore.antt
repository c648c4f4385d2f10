-- ===== src/Gateway/AuthStore.antt =====
-- gateway/src/dbAuthState.js: the credentials and the keys of a session, held in memory and written to
-- the backend as one blob.
--
-- Base64, JSON with its `BufferJSON` reviver and the library's fresh credentials are arguments. A save
-- is a snapshot that is under way until it arrives; the order of the arrivals is an input.
pub mod Keys
pub mod Saving
use whatsapp_bots_saa_s.Base.{
  ℕ, suc, Bool, true, false, ◌&&◌, Option, none, some, List, [], ◌∷◌, ◌++◌, ◌==◌, if◌then◌else◌,
  get_or_else, get_elem?, take, drop,
}
use whatsapp_bots_saa_s.Text.{Text, codes, text_eq, mem_text, before}
use whatsapp_bots_saa_s.Dict.{lookup, put}
use whatsapp_bots_saa_s.Gateway.Value.{Value, undefined, is_truthy}

-- The values of one type, by id; `keys[type][id]`.
abbrev pub Bucket : Type 0
Bucket = List (Text × Value)

abbrev pub KeyStore : Type 0
KeyStore = List (Text × Bucket)

pub record Snapshot : Type 0 where
  pub creds : Value
  pub keys : KeyStore

-- The memory; `saves` are the snapshots whose PUT is under way, the oldest first, and `stored` is what
-- the backend holds, with `none` for nothing and for a blob that cannot be read.
pub record AuthStore : Type 0 where
  pub creds : Value
  pub keys : KeyStore
  pub save_timer : Bool
  pub saves : List Snapshot
  pub stored : Option Snapshot

unfoldable pub bucket : Text → KeyStore → Bucket
unfolding lookup
bucket type keys = get_or_else (lookup type keys) []

-- What the answer of the backend holds, if it holds something that can be read.
unfoldable pub read_blob : (Value → Option Snapshot) → Value → Option Snapshot
unfolding is_truthy
read_blob decode auth_state = if is_truthy auth_state then decode auth_state else none

-- The memory that a session starts with: what was read, or fresh credentials.
unfoldable pub opened : Value → Option Snapshot → AuthStore
opened fresh blob = record {
  creds = (get_or_else blob (record { creds = fresh; keys = [] })).creds;
  keys = (get_or_else blob (record { creds = fresh; keys = [] })).keys;
  save_timer = false;
  saves = [];
  stored = blob;
}

-- `none` is the exception of a failed load.
unfoldable pub loaded : (Value → Option Snapshot) → Value → Option Value → Option AuthStore
unfolding read_blob opened
loaded decode fresh none = none
loaded decode fresh (some auth_state) = some (opened fresh (read_blob decode auth_state))

-- `delete bucket[id]`: an object has each key once.
unfoldable pub without_key : Text → Bucket → Bucket
unfolding text_eq
without_key id [] = []
without_key id ((k, v) ∷ b) =
    let rest = without_key id b in if text_eq k id then rest else (k, v) ∷ rest

unfoldable pub set_entry : Text → Value → Bucket → Bucket
unfolding is_truthy put without_key
set_entry id value b = if is_truthy value then put id value b else without_key id b

unfoldable pub set_entries : Bucket → Bucket → Bucket
unfolding set_entry
set_entries [] b = b
set_entries ((id, value) ∷ data_of) b = set_entries data_of (set_entry id value b)

unfoldable pub set_keys : KeyStore → KeyStore → KeyStore
unfolding put set_entries bucket
set_keys [] keys = keys
set_keys ((category, entries) ∷ rest) keys =
    set_keys rest (put category (set_entries entries (bucket category keys)) keys)

-- A value as it is handed out: an app state key in its proto form.
unfoldable pub handed_out : (Value → Value) → Text → Value → Value
unfolding is_truthy text_eq
handed_out from_object type value =
    if text_eq type (codes "app-state-sync-key") && is_truthy value
    then from_object value
    else value

unfoldable pub get_keys : (Value → Value) → Text → List Text → KeyStore → List (Text × Value)
unfolding handed_out bucket lookup put
get_keys from_object type ids keys = collect ids []
  where
    collect : List Text → List (Text × Value) → List (Text × Value)
    collect [] found = found
    collect (id ∷ rest) found = collect rest (
        put id (handed_out from_object type (get_or_else (lookup id (bucket type keys)) undefined))
          found)

unfoldable pub schedule_save : AuthStore → AuthStore
schedule_save s = record s { save_timer = true }

unfoldable pub snapshot : AuthStore → Snapshot
snapshot s = record { creds = s.creds; keys = s.keys }

unfoldable pub do_save : AuthStore → AuthStore
unfolding snapshot
do_save s = record s { save_timer = false; saves = s.saves ++ snapshot s ∷ [] }

-- The timer fires, or `flush` finds it set.
unfoldable pub save_if_pending : AuthStore → AuthStore
unfolding do_save
save_if_pending s = if s.save_timer then do_save s else s

-- `state.keys.set`.
unfoldable pub keys_set : KeyStore → AuthStore → AuthStore
unfolding set_keys schedule_save
keys_set data_of s = schedule_save (record s { keys = set_keys data_of s.keys })

-- The library changes the credentials and calls `saveCreds`.
unfoldable pub save_creds_of : Value → AuthStore → AuthStore
unfolding schedule_save
save_creds_of creds s = schedule_save (record s { creds = creds })

-- The user of a session key, `<user>.<device>`.
unfoldable pub session_user : Text → Text
unfolding before
session_user id = before b':' (before b'.' id)

-- What stays of the sessions, and how many go.
unfoldable pub kept_sessions : List Text → Bucket → Bucket
unfolding session_user mem_text
kept_sessions users [] = []
kept_sessions users ((id, v) ∷ b) =
    let rest = kept_sessions users b in
    if mem_text (session_user id) users then rest else (id, v) ∷ rest

unfoldable pub cleared_count : List Text → Bucket → ℕ
unfolding session_user mem_text
cleared_count users [] = 0
cleared_count users ((id, v) ∷ b) =
    let rest = cleared_count users b in if mem_text (session_user id) users then suc rest else rest

unfoldable pub clear_sessions_for_users : List Text → AuthStore → ℕ × AuthStore
unfolding kept_sessions cleared_count schedule_save put bucket
clear_sessions_for_users users s =
    let sessions = bucket (codes "session") s.keys in
    let cleared = cleared_count users sessions in
    let next = record s { keys = put (codes "session") (kept_sessions users sessions) s.keys } in
    (cleared, if cleared == 0 then s else schedule_save next)

-- The PUT at a place of the list arrives; where there is none, nothing does.
unfoldable pub arrive : ℕ → AuthStore → AuthStore
arrive i s = elim (get_elem? s.saves i) [
  | none ↦ s
  | some state ↦ record s { saves = take i s.saves ++ drop (suc i) s.saves; stored = some state }
]

-- The PUT at a place of the list fails.
unfoldable pub lose : ℕ → AuthStore → AuthStore
lose i s = record s { saves = take i s.saves ++ drop (suc i) s.saves }

pub data StoreEvent : Type 0 where
  set_data : KeyStore → StoreEvent
  set_creds : Value → StoreEvent
  clear : List Text → StoreEvent
  save_due : StoreEvent
  arrives : ℕ → StoreEvent
  is_lost : ℕ → StoreEvent

unfoldable pub store_step : StoreEvent → AuthStore → AuthStore
unfolding keys_set save_creds_of clear_sessions_for_users save_if_pending arrive lose
store_step (set_data data_of) s = keys_set data_of s
store_step (set_creds creds) s = save_creds_of creds s
store_step (clear users) s = (clear_sessions_for_users users s).1
store_step save_due s = save_if_pending s
store_step (arrives i) s = arrive i s
store_step (is_lost i) s = lose i s
