-- ===== src/Gateway/Lifecycle.antt =====
-- The life of one session of gateway/src/session.js: starting, the events of the connection, the timer
-- of the reconnection, and stopping.
--
-- What is awaited is kept in the state until it comes: the starts under way, the QR images that are
-- being rendered, and the flush of `stop`. Which of it comes next is an input.
pub mod Sane
pub mod Alive
pub mod Stopping
use whatsapp_bots_saa_s.Base.{
  ℕ, suc, ◌+◌, ◌*◌, ◌^◌, Bool, true, false, not, ◌&&◌, ◌||◌, Option, none, some, List, [], ◌∷◌,
  ◌++◌, ltb, ◌==◌, if◌then◌else◌, is_none, get_elem?, take, drop, filter_by,
}
use whatsapp_bots_saa_s.Text.{Text}
use whatsapp_bots_saa_s.Gateway.Inbound.{Identity, SocketIds, capture_own_ids, own_phone_digits}

abbrev pub reconnect_base_ms : ℕ
reconnect_base_ms = 3000

abbrev pub reconnect_max_ms : ℕ
reconnect_max_ms = 60000

pub data Status : Type 0 where
  starting qr_pending connected disconnected logged_out : Status

pub record Timer : Type 0 where
  pub fresh : Bool
  pub delay : ℕ

pub record Report : Type 0 where
  pub status : Status
  pub phone : Option Text
  pub qr_data_url : Option Text

-- Sockets are numbered as they are made. `live_socks` are those that were made and neither closed nor
-- ended; `starts` are the calls of `start` that are under way, with their `fresh`.
pub record Life : Type 0 where
  pub status : Status
  pub qr_data_url : Option Text
  pub identity : Identity
  pub stopped : Bool
  pub reconnect_attempts : ℕ
  pub reconnect_timer : Option Timer
  pub sock : Option ℕ
  pub next_sock : ℕ
  pub live_socks : List ℕ
  pub starts : List Bool
  pub renders : List Text
  pub stopping : Bool
  pub reports : List Report
  pub logouts : List ℕ

-- `createSession`.
abbrev pub created : Life
created = record {
  status = starting;
  qr_data_url = none;
  identity = record { own_jid = none; own_lid = none };
  stopped = false;
  reconnect_attempts = 0;
  reconnect_timer = none;
  sock = none;
  next_sock = 0;
  live_socks = [];
  starts = [];
  renders = [];
  stopping = false;
  reports = [];
  logouts = [];
}

-- What is done with what was found; with nothing found, nothing is.
abbrev pub when_some {ℓ} : {A : Type ℓ} → Option A → Life → (A → Life) → Life
when_some none s f = s
when_some (some a) s f = f a

abbrev pub without_at {ℓ} : {A : Type ℓ} → ℕ → List A → List A
without_at i xs = take i xs ++ drop (suc i) xs

abbrev pub without_sock : ℕ → List ℕ → List ℕ
without_sock n socks = filter_by (λ m. not (m == n)) socks

-- The sockets that stay live when that one is ended.
abbrev pub sock_ended : Option ℕ → List ℕ → List ℕ
sock_ended none socks = socks
sock_ended (some n) socks = without_sock n socks

-- The call of `reportStatus`.
unfoldable pub report : Life → Life
unfolding own_phone_digits
report s = record s {
  reports =
      s.reports
      ++ record {
        status = s.status;
        phone = own_phone_digits s.identity;
        qr_data_url = s.qr_data_url;
      }
        ∷ [];
}

-- Its answer: a number of another business logs the device out.
unfoldable pub report_answer : Bool → Life → Life
report_answer conflict s =
    if conflict then when_some s.sock s (λ n. record s { logouts = s.logouts ++ n ∷ [] }) else s

abbrev pub least : ℕ → ℕ → ℕ
least a b = if ltb b a then b else a

unfoldable pub delay_of : Bool → ℕ → ℕ
delay_of fresh attempts =
    if fresh then reconnect_base_ms else least reconnect_max_ms (reconnect_base_ms * 2 ^ attempts)

unfoldable pub restart : Bool → Life → Life
unfolding delay_of
restart fresh s = if s.stopped || not (is_none s.reconnect_timer) then s else record s {
  reconnect_attempts = s.reconnect_attempts + 1;
  reconnect_timer = some (record { fresh = fresh; delay = delay_of fresh s.reconnect_attempts });
}

-- `start`, as far as its first `await`.
unfoldable pub start : Bool → Life → Life
start fresh s = if s.stopped then s else record s {
  starts = s.starts ++ fresh ∷ [];
  identity = if fresh then record { own_jid = none; own_lid = none } else s.identity;
}

-- A start under way makes its socket. `stopped` is not looked at again.
unfoldable pub start_succeeds : ℕ → Life → Life
start_succeeds i s = when_some (get_elem? s.starts i) s (λ fresh. record s {
  starts = without_at i s.starts;
  sock = some s.next_sock;
  next_sock = s.next_sock + 1;
  live_socks = s.next_sock ∷ s.live_socks;
})

unfoldable pub start_fails : ℕ → Life → Life
unfolding restart
start_fails i s =
    when_some (get_elem? s.starts i) s
      (λ fresh. restart false (record s { starts = without_at i s.starts; status = disconnected }))

unfoldable pub timer_fires : Life → Life
unfolding start
timer_fires s =
    when_some s.reconnect_timer s (λ t. start t.fresh (record s { reconnect_timer = none }))

-- The three parts of `connection.update`: a QR code, that the connection is open, and that it closed.
unfoldable pub on_qr : Text → Life → Life
on_qr data_url s = record s { renders = s.renders ++ data_url ∷ [] }

unfoldable pub qr_rendered : ℕ → Life → Life
unfolding report
qr_rendered i s = when_some (get_elem? s.renders i) s (λ data_url. report (record s {
  renders = without_at i s.renders;
  qr_data_url = some data_url;
  status = qr_pending;
}))

unfoldable pub qr_failed : ℕ → Life → Life
qr_failed i s = record s { renders = without_at i s.renders }

unfoldable pub on_open : (Text → Option Text) → SocketIds → Life → Life
unfolding report capture_own_ids
on_open normalize ids s = report (record s {
  status = connected;
  qr_data_url = none;
  reconnect_attempts = 0;
  identity = capture_own_ids normalize ids s.identity;
})

unfoldable pub on_close : ℕ → Bool → Life → Life
unfolding report restart
on_close n is_logged_out s =
    let t = record s { live_socks = without_sock n s.live_socks } in
    if t.stopped
    then t
    else if is_logged_out
    then restart true (report (record t { status = logged_out; qr_data_url = none }))
    else restart false (report (record t { status = disconnected }))

-- `creds.update`.
unfoldable pub on_creds : (Text → Option Text) → SocketIds → Life → Life
unfolding capture_own_ids
on_creds normalize ids s = record s { identity = capture_own_ids normalize ids s.identity }

-- `stop`, as far as the flush that it awaits. Calls that overlap count as one.
unfoldable pub stop : Life → Life
stop s = record s { stopped = true; reconnect_timer = none; stopping = true }

-- The flush is over: the socket is ended.
unfoldable pub stop_ends : Life → Life
stop_ends s =
    if s.stopping
    then record s { stopping = false; sock = none; live_socks = sock_ended s.sock s.live_socks }
    else s

-- The guard of `sendText`.
unfoldable pub is_connected : Status → Bool
is_connected connected = true
is_connected starting = false
is_connected qr_pending = false
is_connected disconnected = false
is_connected logged_out = false

unfoldable pub can_send : Life → Bool
unfolding is_connected
can_send s = not (is_none s.sock) && is_connected s.status

pub data LifeEvent : Type 0 where
  start_call timer_due stop_call flush_over : LifeEvent
  start_made start_threw qr_made qr_threw : ℕ → LifeEvent
  qr_code : Text → LifeEvent
  opens updates_creds : (Text → Option Text) → SocketIds → LifeEvent
  closes : ℕ → Bool → LifeEvent
  report_answered : Bool → LifeEvent

unfoldable pub life_step : LifeEvent → Life → Life
unfolding start timer_fires stop stop_ends start_succeeds start_fails qr_rendered qr_failed on_qr
    on_open on_creds on_close report_answer
life_step start_call s = start false s
life_step timer_due s = timer_fires s
life_step stop_call s = stop s
life_step flush_over s = stop_ends s
life_step (start_made i) s = start_succeeds i s
life_step (start_threw i) s = start_fails i s
life_step (qr_made i) s = qr_rendered i s
life_step (qr_threw i) s = qr_failed i s
life_step (qr_code data_url) s = on_qr data_url s
life_step (opens normalize ids) s = on_open normalize ids s
life_step (updates_creds normalize ids) s = on_creds normalize ids s
life_step (closes n is_logged_out) s = on_close n is_logged_out s
life_step (report_answered conflict) s = report_answer conflict s

abbrev pub life_run : List LifeEvent → Life → Life
life_run [] s = s
life_run (e ∷ es) s = life_run es (life_step e s)
