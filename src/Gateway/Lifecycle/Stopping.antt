-- ===== src/Gateway/Lifecycle/Stopping.antt =====
-- Stopping a session, and the moments at which an answer comes too late for the state it is put into.
use whatsapp_bots_saa_s.Base.{
  if-lem, ℕ, ◌+◌, ◌≡◌, refl, sym, ap, ◌∙◌, Bool, true, false, not, ◌&&◌, ◌||◌, Option, none, some,
  List, [], ◌∷◌, ◌++◌, arith, if◌then◌else◌, is_none, get_elem?,
}
use mathlib.Core.Bool.{false≢true}
use whatsapp_bots_saa_s.Text.{Text}
use whatsapp_bots_saa_s.Gateway.Inbound.{SocketIds}
use whatsapp_bots_saa_s.Gateway.Lifecycle.{
  qr_pending, disconnected, logged_out, Timer, Life, without_at, without_sock, sock_ended, report,
  report_answer, delay_of, restart, start, start_succeeds, start_fails, timer_fires, on_qr,
  qr_rendered, qr_failed, on_open, on_close, on_creds, stop, stop_ends, LifeEvent, start_call,
  timer_due, stop_call, flush_over, start_made, start_threw, qr_made, qr_threw, qr_code, opens,
  updates_creds, closes, report_answered, life_step, life_run, can_send, is_connected,
}
use whatsapp_bots_saa_s.Gateway.Lifecycle.Sane.{when_some-lem}

-- Stopped, with no socket, no connection left open, and nothing under way that would make another one.
pub record IsEnded (s : Life) : Type 0 where
  pub stopped : s.stopped ≡ true
  pub sock : s.sock ≡ none
  pub timer : s.reconnect_timer ≡ none
  pub starts : s.starts ≡ []
  pub live : s.live_socks ≡ []

restart_stopped : (fresh : Bool) (s : Life) → IsEnded s → IsEnded (restart fresh s)
unfolding restart
restart_stopped fresh s i =
    if-lem IsEnded (s.stopped || not (is_none s.reconnect_timer)) s
      (record s {
        reconnect_attempts = s.reconnect_attempts + 1;
        reconnect_timer =
            some (record { fresh = fresh; delay = delay_of fresh s.reconnect_attempts });
      })
      (λ e. i) (λ e. absurd (no_timer s.stopped _ i.stopped e))
  where
    no_timer : (a b : Bool) → a ≡ true → (a || b) ≡ false → ⊥
    no_timer a b h e = ground arith

start_stopped : (fresh : Bool) (s : Life) → IsEnded s → IsEnded (start fresh s)
unfolding start
start_stopped fresh s i =
    if-lem IsEnded s.stopped s
      (record s {
        starts = s.starts ++ fresh ∷ [];
        identity = if fresh then record { own_jid = none; own_lid = none } else s.identity;
      })
      (λ e. i) (λ e. absurd (false≢true (sym e ∙ i.stopped)))

none_found {ℓ} : {A : Type ℓ} (n : ℕ) (xs : List A) (a : A) → xs ≡ [] → get_elem? xs n ≡ some a → ⊥
none_found n [] a e h = cc
none_found n (x ∷ xs) a e h = cc

ended_none : (o : Option ℕ) → sock_ended o [] ≡ []
ended_none none = refl
ended_none (some n) = refl

on_close-IsEnded :
    (n : ℕ) (is_logged_out : Bool) (s : Life) → IsEnded s → IsEnded (on_close n is_logged_out s)
unfolding on_close
on_close-IsEnded n is_logged_out s i =
    let t = record s { live_socks = without_sock n s.live_socks } in
    if-lem IsEnded s.stopped t
      (if is_logged_out
        then restart true (report (record t { status = logged_out; qr_data_url = none }))
        else restart false (report (record t { status = disconnected })))
      (λ e. record {
        stopped = i.stopped;
        sock = i.sock;
        timer = i.timer;
        starts = i.starts;
        live = ap (without_sock n) i.live;
      })
      (λ e. absurd (false≢true (sym e ∙ i.stopped)))

life_step-IsEnded : (e : LifeEvent) (s : Life) → IsEnded s → IsEnded (life_step e s)
unfolding life_step stop stop_ends on_qr qr_failed on_creds on_open report report_answer
    start_succeeds start_fails qr_rendered timer_fires
life_step-IsEnded start_call s i = start_stopped false s i
life_step-IsEnded timer_due s i =
    when_some-lem IsEnded s.reconnect_timer s
      (λ t. start t.fresh (record s { reconnect_timer = none })) i
      (λ t e. absurd (no_timer s.reconnect_timer t i.timer e))
  where
    no_timer : (o : Option Timer) (t : Timer) → o ≡ none → o ≡ some t → ⊥
    no_timer o t h e = cc
life_step-IsEnded stop_call s i = record {
  stopped = refl;
  sock = i.sock;
  timer = refl;
  starts = i.starts;
  live = i.live;
}
life_step-IsEnded flush_over s i =
    if-lem IsEnded s.stopping
      (record s { stopping = false; sock = none; live_socks = sock_ended s.sock s.live_socks }) s
      (λ e. record {
        stopped = i.stopped;
        sock = refl;
        timer = i.timer;
        starts = i.starts;
        live = ap (sock_ended s.sock) i.live ∙ ended_none s.sock;
      })
      (λ e. i)
life_step-IsEnded (start_made n) s i =
    when_some-lem IsEnded (get_elem? s.starts n) s
      (λ fresh. record s {
        starts = without_at n s.starts;
        sock = some s.next_sock;
        next_sock = s.next_sock + 1;
        live_socks = s.next_sock ∷ s.live_socks;
      })
      i (λ fresh e. absurd (none_found n s.starts fresh i.starts e))
life_step-IsEnded (start_threw n) s i =
    when_some-lem IsEnded (get_elem? s.starts n) s
      (λ fresh. restart false (record s { starts = without_at n s.starts; status = disconnected }))
      i (λ fresh e. absurd (none_found n s.starts fresh i.starts e))
life_step-IsEnded (qr_made n) s i =
    when_some-lem IsEnded (get_elem? s.renders n) s
      (λ data_url. report (record s {
        renders = without_at n s.renders;
        qr_data_url = some data_url;
        status = qr_pending;
      }))
      i
      (λ url e. record {
        stopped = i.stopped;
        sock = i.sock;
        timer = i.timer;
        starts = i.starts;
        live = i.live;
      })
life_step-IsEnded (qr_threw n) s i = record {
  stopped = i.stopped;
  sock = i.sock;
  timer = i.timer;
  starts = i.starts;
  live = i.live;
}
life_step-IsEnded (qr_code url) s i = record {
  stopped = i.stopped;
  sock = i.sock;
  timer = i.timer;
  starts = i.starts;
  live = i.live;
}
life_step-IsEnded (opens normalize ids) s i = record {
  stopped = i.stopped;
  sock = i.sock;
  timer = i.timer;
  starts = i.starts;
  live = i.live;
}
life_step-IsEnded (updates_creds normalize ids) s i = record {
  stopped = i.stopped;
  sock = i.sock;
  timer = i.timer;
  starts = i.starts;
  live = i.live;
}
life_step-IsEnded (closes n b) s i = on_close-IsEnded n b s i
life_step-IsEnded (report_answered true) s i =
    when_some-lem IsEnded s.sock s (λ n. record s { logouts = s.logouts ++ n ∷ [] }) i
      (λ n e. record {
        stopped = i.stopped;
        sock = i.sock;
        timer = i.timer;
        starts = i.starts;
        live = i.live;
      })
life_step-IsEnded (report_answered false) s i = i

run-IsEnded : (es : List LifeEvent) (s : Life) → IsEnded s → IsEnded (life_run es s)
run-IsEnded [] s i = i
run-IsEnded (e ∷ es) s i = run-IsEnded es (life_step e s) (life_step-IsEnded e s i)

-- A session that is stopped while no start is under way, and of whose connections none is open but that of
-- its own socket, stays ended, whatever comes after the flush: no connection is open, it has no socket
-- and no timer, and starts no more.
pub stop-IsEnded :
    (es : List LifeEvent) (s : Life)
    → s.starts ≡ []
    → sock_ended s.sock s.live_socks ≡ []
    → IsEnded (life_run (stop_call ∷ flush_over ∷ es) s)
unfolding life_step stop stop_ends
stop-IsEnded es s h l =
    run-IsEnded es (life_step flush_over (life_step stop_call s))
      (record { stopped = refl; sock = refl; timer = refl; starts = h; live = l })

-- A session that is stopped while a start is under way makes its socket all the same, after `stop` has
-- ended: a stopped session is left with a live socket.
pub stop_leaves_socket :
    (s : Life) (fresh : Bool) (starts : List Bool)
    → s.starts ≡ fresh ∷ starts
    → let t = life_run (stop_call ∷ flush_over ∷ start_made 0 ∷ []) s in
      (t.stopped ≡ true) × (t.stopping ≡ false) × (get_elem? t.live_socks 0 ≡ some s.next_sock)
unfolding life_step stop stop_ends start_succeeds
stop_leaves_socket s fresh starts h = rw h (refl, refl, refl)

and_false : (b : Bool) → (b && false) ≡ false
and_false b = ground arith

-- A QR code that is rendered only after the connection has opened turns the connected session back to
-- waiting for the code: it shows a code and refuses to send.
pub qr_after_open :
    (s : Life) (data_url : Text) (normalize : Text → Option Text) (ids : SocketIds)
    → s.renders ≡ []
    → let t = life_run (qr_code data_url ∷ opens normalize ids ∷ qr_made 0 ∷ []) s in
      (t.status ≡ qr_pending) × (t.qr_data_url ≡ some data_url) × (can_send t ≡ false)
unfolding life_step on_qr on_open qr_rendered report can_send is_connected
qr_after_open s data_url normalize ids h = rw h (refl, refl, and_false (not (is_none s.sock)))
