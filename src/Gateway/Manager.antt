-- ===== src/Gateway/Manager.antt =====
-- gateway/src/manager.js: the sessions of all businesses, kept in step with the list of the backend.
pub mod Syncing
use whatsapp_bots_saa_s.Base.{
  ℕ, Bool, true, false, not, Option, List, [], ◌∷◌, ◌++◌, if◌then◌else◌, is_none, length, is_empty,
}
use whatsapp_bots_saa_s.Text.{Text, mem_text}
use whatsapp_bots_saa_s.Dict.{lookup, put}
use whatsapp_bots_saa_s.Gateway.Lifecycle.{Life, created, start_call, stop_call, life_step}

-- `stopping` are the sessions that have left the map and were told to stop.
pub record Manager : Type 0 where
  pub sessions : List (Text × Life)
  pub stopping : List (Text × Life)
  pub syncing : Bool
  pub polling : Bool

-- `new Set(desired)`.
unfoldable pub to_set : List Text → List Text → List Text
unfolding mem_text
to_set seen [] = seen
to_set seen (id ∷ ids) = to_set (if mem_text id seen then seen else seen ++ id ∷ []) ids

-- `createSession` and `start`.
unfoldable pub started : Life
unfolding life_step
started = life_step start_call created

unfoldable pub has_session : Text → List (Text × Life) → Bool
unfolding lookup
has_session id sessions = not (is_none (lookup id sessions))

-- A business that has no session is given one.
unfoldable pub start_new : List Text → List (Text × Life) → List (Text × Life)
unfolding has_session started put
start_new [] sessions = sessions
start_new (id ∷ ids) sessions =
    start_new ids (if has_session id sessions then sessions else put id started sessions)

unfoldable pub listed : List Text → List (Text × Life) → List (Text × Life)
unfolding mem_text
listed desired [] = []
listed desired ((id, s) ∷ sessions) =
    let rest = listed desired sessions in if mem_text id desired then (id, s) ∷ rest else rest

-- The sessions that are no longer listed, told to stop.
unfoldable pub unlisted : List Text → List (Text × Life) → List (Text × Life)
unfolding mem_text life_step
unlisted desired [] = []
unlisted desired ((id, s) ∷ sessions) =
    let rest = unlisted desired sessions in
    if mem_text id desired then rest else (id, life_step stop_call s) ∷ rest

-- `syncSessions` as far as the call of the backend: does the call go out, and the state after it.
unfoldable pub sync_begins : Manager → Bool × Manager
sync_begins m = if m.syncing then (false, m) else (true, record m { syncing = true })

unfoldable pub stop_unlisted : List Text → Manager → Manager
unfolding listed unlisted
stop_unlisted desired m = if is_empty desired then m else record m {
  sessions = listed desired m.sessions;
  stopping = m.stopping ++ unlisted desired m.sessions;
}

-- The rest of it, with the list of the backend.
unfoldable pub sync_answered : List Text → Manager → Manager
unfolding to_set start_new stop_unlisted
sync_answered ids m =
    let desired = to_set [] ids in
    record (stop_unlisted desired (record m { sessions = start_new desired m.sessions })) {
      syncing = false;
    }

unfoldable pub start_manager : Manager → Manager
unfolding sync_begins
start_manager m = record (sync_begins m).1 { polling = true }

unfoldable pub all_stopped : List (Text × Life) → List (Text × Life)
unfolding life_step
all_stopped [] = []
all_stopped ((id, s) ∷ sessions) = (id, life_step stop_call s) ∷ all_stopped sessions

unfoldable pub stop_manager : Manager → Manager
unfolding all_stopped
stop_manager m = record m {
  polling = false;
  sessions = [];
  stopping = m.stopping ++ all_stopped m.sessions;
}

unfoldable pub get_session : Text → Manager → Option Life
unfolding lookup
get_session id m = lookup id m.sessions

unfoldable pub session_count : Manager → ℕ
session_count m = length m.sessions
