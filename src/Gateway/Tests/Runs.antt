-- ===== src/Gateway/Tests/Runs.antt =====
-- Runs of a session, of the sends, of the store and of the manager.
use whatsapp_bots_saa_s.Base.{
  ◌+◌, ◌<◌, ◌≤◌, ◌≡◌, ◌⊎◌, refl, true, false, ◌&&◌, Option, none, some, List, [], ◌∷◌, ◌++◌, map,
  arith, if◌then◌else◌, is_none, length, get_elem?, is_empty, All,
}
use whatsapp_bots_saa_s.Text.{Text, codes, mem_text, text_eq}
use whatsapp_bots_saa_s.Text.Decimal.{read}
use whatsapp_bots_saa_s.Dict.{lookup}
use whatsapp_bots_saa_s.Gateway.Value.{undefined, null, bool, num, str, is_truthy}
use whatsapp_bots_saa_s.Gateway.Contract.{WaMessage}
use whatsapp_bots_saa_s.Gateway.Inbound.{SocketIds, Services, Session}
use whatsapp_bots_saa_s.Gateway.Sending.{
  Outcome, rejected, sent, Job, SendChain, drain, SentMemory, after_send,
}
use whatsapp_bots_saa_s.Gateway.Sending.Order.{IsSpaced, drain_lem, drain_settles, total_time}
use whatsapp_bots_saa_s.Gateway.Sending.Remembered.{after_sends}
use whatsapp_bots_saa_s.Gateway.Upsert.{on_upsert}
use whatsapp_bots_saa_s.Gateway.Upsert.Echo.{AllQuiet, sent_message_ignored}
use whatsapp_bots_saa_s.Gateway.InternalApi.{Response, list_sessions}
use whatsapp_bots_saa_s.Gateway.Recovery.{
  RecoveryState, failures_of, users_of, is_due, handle_decrypt_failure,
}
use whatsapp_bots_saa_s.Gateway.Recovery.Cooldown.{
  Failure, ClearsWhenDue, clear_times, clear_times-IsSpaced,
}
use whatsapp_bots_saa_s.Gateway.Lifecycle.{
  Life, created, LifeEvent, start_call, stop_call, flush_over, timer_due, start_made, start_threw,
  closes, opens, life_run, life_step, can_send, qr_code, qr_made, qr_pending,
}
use whatsapp_bots_saa_s.Gateway.Lifecycle.Sane.{IsSane, run-IsSane, created-IsSane}
use whatsapp_bots_saa_s.Gateway.Lifecycle.Alive.{started-IsAlive}
use whatsapp_bots_saa_s.Gateway.Lifecycle.Stopping.{
  IsEnded, stop-IsEnded, stop_leaves_socket, qr_after_open,
}
use whatsapp_bots_saa_s.Gateway.AuthStore.{
  KeyStore, Snapshot, opened, snapshot, set_data, set_creds, save_due, arrives, StoreEvent,
  set_keys, store_step, bucket,
}
use whatsapp_bots_saa_s.Gateway.AuthStore.Keys.{value_at, value_at-set_keys}
use whatsapp_bots_saa_s.Gateway.AuthStore.Saving.{store_run, stored_lem}
use whatsapp_bots_saa_s.Gateway.Manager.{Manager, sync_answered, started, get_session}
use whatsapp_bots_saa_s.Gateway.Manager.Syncing.{sync_answered_lem, sync_failed}
use whatsapp_bots_saa_s.Gateway.Settings.{Settings, load_config}

abbrev chain : SendChain
chain = record { last_sent_at = 500; settled_at = 500 }

-- The second send fails, and the third goes out all the same.
abbrev jobs : List Job
jobs =
    record { enqueued = 600; lag = 0; late = 3; duration = 40; outcome = sent none none }
    ∷ record { enqueued = 610; lag = 1; late = 0; duration = 9; outcome = rejected }
    ∷ record { enqueued = 9000; lag = 0; late = 0; duration = 5; outcome = sent none none }
    ∷ []

starts : map (λ e. e.started) (drain chain jobs) ≡ 1503 ∷ 2543 ∷ 9000 ∷ []
unfolding drain
starts = refl

drain_example :
    (map (λ e. e.outcome) (drain chain jobs) ≡ sent none none ∷ rejected ∷ sent none none ∷ [])
    × IsSpaced 500 (drain chain jobs)
drain_example = drain_lem chain jobs

drain_settles_example :
    (length (drain chain jobs) ≡ length jobs)
    × All (λ e. e.finished ≤ 9000 + total_time jobs) (drain chain jobs)
drain_settles_example =
    drain_settles chain jobs 9000 (omega arith) (omega arith)
      (omega arith, (omega arith, (omega arith, tt)))

abbrev memory : SentMemory
memory = record { sent_message_ids = codes "A" ∷ []; sent_messages = [] }

abbrev sends : List Outcome
sends = rejected ∷ sent (some (codes "C")) none ∷ []

abbrev echo : WaMessage
echo = record {
  key = record {
    remote_jid = some (codes "1@s");
    sender_pn = none;
    participant = none;
    id = some (codes "B");
    from_me = true;
  };
  push_name = none;
  message_timestamp = undefined;
  message = str (codes "again");
  stub_ciphertext = false;
}

abbrev no_services : Services
no_services = record {
  normalize = λ jid. some jid;
  download = λ msg. none;
  post_media = λ form. none;
  post_webhook = λ payload. none;
}

abbrev owner_session : Session
owner_session = record {
  business_id = codes "b1";
  identity = record { own_jid = some (codes "1@s"); own_lid = none };
  sent_message_ids = [];
}

sent_message_ignored_example : AllQuiet (echo ∷ []) (
    on_upsert no_services
      (record owner_session {
        sent_message_ids =
            (after_sends sends (after_send (sent (some (codes "B")) none) memory)).sent_message_ids;
      })
      true
      (echo ∷ []))
unfolding mem_text
sent_message_ignored_example =
    sent_message_ignored no_services owner_session true (echo ∷ []) b'B' [] none sends memory refl
      (omega arith) (refl, tt)

abbrev failing : WaMessage
failing = record {
  key = record {
    remote_jid = some (codes "77:3@lid");
    sender_pn = none;
    participant = none;
    id = none;
    from_me = false;
  };
  push_name = none;
  message_timestamp = undefined;
  message = undefined;
  stub_ciphertext = true;
}

abbrev sessions_of : KeyStore
sessions_of = (codes "session", (codes "77.0", str (codes "old")) ∷ []) ∷ []

abbrev failures : List Failure
failures = (100000, failing) ∷ (100001, failing) ∷ (100002, failing) ∷ (170000, failing) ∷ []

abbrev recovery : RecoveryState
recovery = record {
  failures = [];
  auth_store = some (opened null (some (record { creds = null; keys = sessions_of })));
}

-- The second failure clears, the third counts again, and the fourth comes after the minute.
clears : clear_times (codes "77") failures recovery ≡ 100001 ∷ 170000 ∷ []
unfolding failures_of users_of is_due handle_decrypt_failure
clears = refl

clear_times_example :
    ClearsWhenDue failures recovery
    × ((0 + 60000 < 100001) × ((100001 + 60000 < 170000) × Unit {0}))
unfolding failures_of users_of is_due handle_decrypt_failure
clear_times_example = clear_times-IsSpaced (codes "77") failures recovery

abbrev normalize : Text → Option Text
normalize jid = some jid

abbrev ids : SocketIds
ids = record {
  user_id = some (codes "1@s");
  user_lid = none;
  me_id = none;
  me_lid = none;
  creds_lid = none;
}

abbrev drops : List LifeEvent
drops = start_made 0 ∷ opens normalize ids ∷ closes 0 false ∷ timer_due ∷ start_threw 0 ∷ []

-- After the drop and a start that failed, the timer is set for twice the time.
delays :
    (life_run (start_call ∷ drops) created).reconnect_timer
    ≡ some (record { fresh = false; delay = 6000 })
unfolding life_step
delays = refl

started-IsAlive_example :
    let s = life_run (start_call ∷ drops) created in
    (is_none s.reconnect_timer && is_empty s.starts && is_empty s.live_socks) ≡ false
unfolding life_step
started-IsAlive_example = started-IsAlive drops refl

run-IsSane_example : IsSane (life_run (start_call ∷ drops) created)
run-IsSane_example = run-IsSane (start_call ∷ drops) created created-IsSane

abbrev running : Life
running = life_run (start_call ∷ start_made 0 ∷ []) created

stop-IsEnded_example : IsEnded (life_run (stop_call ∷ flush_over ∷ timer_due ∷ []) running)
unfolding life_step
stop-IsEnded_example = stop-IsEnded (timer_due ∷ []) running refl refl

stop_leaves_socket_example :
    let t = life_run (stop_call ∷ flush_over ∷ start_made 0 ∷ []) (life_step start_call created) in
    (t.stopped ≡ true) × (t.stopping ≡ false) × (get_elem? t.live_socks 0 ≡ some 0)
unfolding life_step
stop_leaves_socket_example = stop_leaves_socket (life_step start_call created) false [] refl

qr_after_open_example :
    let t = life_run (qr_code (codes "data:") ∷ opens normalize ids ∷ qr_made 0 ∷ []) running in
    (t.status ≡ qr_pending) × (t.qr_data_url ≡ some (codes "data:")) × (can_send t ≡ false)
unfolding life_step
qr_after_open_example = qr_after_open running (codes "data:") normalize ids refl

abbrev keys : KeyStore
keys = (codes "session", (codes "77.0", str (codes "old")) ∷ []) ∷ []

abbrev writes : KeyStore
writes =
    (codes "session", (codes "77.0", str (codes "new")) ∷ (codes "88.0", null) ∷ [])
    ∷ (codes "pre-key", (codes "1", bool true) ∷ [])
    ∷ []

value_at-set_keys_example :
    value_at (codes "session") (codes "77.0") (set_keys writes keys) ≡ some (str (codes "new"))
unfolding bucket lookup is_truthy
value_at-set_keys_example = value_at-set_keys (codes "session") (codes "77.0") writes keys

abbrev no_blob : Option Snapshot
no_blob = none

abbrev store_events : List StoreEvent
store_events =
    set_creds (num 1) ∷ save_due ∷ set_data writes ∷ save_due ∷ arrives 0 ∷ arrives 0 ∷ []

stored_example :
    let t = store_run store_events (opened null no_blob) in
    (t.stored ≡ some (snapshot t))
    ⊎ ((no_blob ≡ none) × (t.stored ≡ none) × (snapshot t ≡ record { creds = null; keys = [] }))
unfolding opened store_step
stored_example =
    stored_lem null no_blob store_events (tt, (tt, (tt, (tt, (refl, (refl, tt)))))) refl refl

abbrev two_businesses : Manager
two_businesses = record {
  sessions = (codes "b1", running) ∷ (codes "b2", started) ∷ [];
  stopping = [];
  syncing = true;
  polling = true;
}

abbrev desired : List Text
desired = codes "b3" ∷ codes "b1" ∷ codes "b3" ∷ []

sync_answered_example :
    let t = sync_answered desired two_businesses in
    (get_session (codes "b2") t ≡ none)
    × ((gone : List (Text × Life)) × (t.stopping ≡ [] ++ gone)
        × (lookup (codes "b2") gone ≡ some (life_step stop_call started)))
    × (t.syncing ≡ false)
unfolding mem_text get_session lookup
sync_answered_example =
    sync_answered_lem (codes "b2") (codes "b3") (codes "b1" ∷ codes "b3" ∷ []) two_businesses

sync_failed_example :
    ((sync_answered (list_sessions none) two_businesses).sessions ≡ two_businesses.sessions)
    × ((sync_answered (list_sessions none) two_businesses).stopping ≡ [])
sync_failed_example = sync_failed two_businesses none (λ res e. absurd (no_answer res e))
  where
    no_answer : (res : Response) → none ≡ some res → ⊥
    no_answer res e = cc

abbrev env : Text → Option Text
env name =
    if text_eq name (codes "GATEWAY_API_TOKEN")
    then some (codes " s3cret ")
    else if text_eq name (codes "PORT")
    then some (codes "8080")
    else none

abbrev settings : Settings
settings = record {
  port = 8080;
  gateway_api_token = codes "s3cret";
  backend_base_url = codes "http://backend:8000";
  backend_webhook_url = codes "http://backend:8000/webhook/whatsapp";
  session_poll_ms = 15000;
  log_level = codes "info";
}

loads : load_config env ≡ some settings
unfolding load_config text_eq read
loads = refl
