-- ===== src/Gateway/Lifecycle/Alive.antt =====
-- How a session of gateway/src/session.js goes on until it is stopped.
use whatsapp_bots_saa_s.Base.{
  if-lem, ℕ, ◌+◌, ◌≡◌, refl, sym, ◌∙◌, Bool, true, false, not, ◌&&◌, ◌||◌, none, some, List, [],
  ◌∷◌, ◌++◌, arith, if◌then◌else◌, is_none, get_elem?, is_empty,
}
use mathlib.Core.Bool.{false≢true}
use whatsapp_bots_saa_s.Gateway.Lifecycle.{
  qr_pending, disconnected, logged_out, Life, created, without_at, without_sock, sock_ended, report,
  report_answer, delay_of, restart, start, start_succeeds, start_fails, timer_fires, on_qr,
  qr_rendered, qr_failed, on_open, on_close, on_creds, stop, stop_ends, LifeEvent, start_call,
  timer_due, stop_call, flush_over, start_made, start_threw, qr_made, qr_threw, qr_code, opens,
  updates_creds, closes, report_answered, life_step, life_run,
}
use whatsapp_bots_saa_s.Gateway.Lifecycle.Sane.{
  IsSane, created-IsSane, life_step-IsSane, when_some-lem,
}

-- A session that is not stopped has a live socket, or a start is under way, or the timer is set.
abbrev pub IsAlive : Life → Type 0
IsAlive s =
    s.stopped ≡ false
    → (is_none s.reconnect_timer && is_empty s.starts && is_empty s.live_socks) ≡ false

timer_set :
    (s : Life)
    → s.stopped ≡ false
    → (s.stopped || not (is_none s.reconnect_timer)) ≡ true
    → (is_none s.reconnect_timer && is_empty s.starts && is_empty s.live_socks) ≡ false
timer_set s h e = ground arith

restart-IsAlive : (fresh : Bool) (s : Life) → IsAlive (restart fresh s)
unfolding restart
restart-IsAlive fresh s =
    if-lem IsAlive (s.stopped || not (is_none s.reconnect_timer)) s
      (record s {
        reconnect_attempts = s.reconnect_attempts + 1;
        reconnect_timer =
            some (record { fresh = fresh; delay = delay_of fresh s.reconnect_attempts });
      })
      (λ e h. timer_set s h e) (λ e h. refl)

is_empty-append {ℓ} : {A : Type ℓ} (xs : List A) (x : A) → is_empty (xs ++ x ∷ []) ≡ false
is_empty-append [] x = refl
is_empty-append (y ∷ xs) x = refl

start_under_way : (a c : Bool) {b : Bool} → b ≡ false → (a && b && c) ≡ false
start_under_way a c h = ground arith

start-IsAlive : (fresh : Bool) (s : Life) → IsAlive (start fresh s)
unfolding start
start-IsAlive fresh s =
    if-lem IsAlive s.stopped s
      (record s {
        starts = s.starts ++ fresh ∷ [];
        identity = if fresh then record { own_jid = none; own_lid = none } else s.identity;
      })
      (λ e h. absurd (false≢true (sym h ∙ e)))
      (λ e h.
        start_under_way (is_none s.reconnect_timer) (is_empty s.live_socks)
          (is_empty-append s.starts fresh))

live_sock : (a b : Bool) → (a && b && false) ≡ false
live_sock a b = ground arith

on_close-IsAlive : (n : ℕ) (is_logged_out : Bool) (s : Life) → IsAlive (on_close n is_logged_out s)
unfolding on_close
on_close-IsAlive n is_logged_out s =
    if-lem IsAlive s.stopped t
      (if is_logged_out
        then restart true (report (record t { status = logged_out; qr_data_url = none }))
        else restart false (report (record t { status = disconnected })))
      (λ e h. absurd (false≢true (sym h ∙ e)))
      (λ e.
        if-lem IsAlive is_logged_out
          (restart true (report (record t { status = logged_out; qr_data_url = none })))
          (restart false (report (record t { status = disconnected })))
          (λ f.
            restart-IsAlive true (report (record t { status = logged_out; qr_data_url = none })))
          (λ f. restart-IsAlive false (report (record t { status = disconnected }))))
  where
    t : Life
    t = record s { live_socks = without_sock n s.live_socks }

life_step-IsAlive : (e : LifeEvent) (s : Life) → IsSane s → IsAlive s → IsAlive (life_step e s)
unfolding life_step stop stop_ends on_qr qr_failed on_creds on_open report report_answer
    start_succeeds start_fails qr_rendered timer_fires
life_step-IsAlive start_call s o i = start-IsAlive false s
life_step-IsAlive timer_due s o i =
    when_some-lem IsAlive s.reconnect_timer s
      (λ t. start t.fresh (record s { reconnect_timer = none })) i
      (λ t e. start-IsAlive t.fresh (record s { reconnect_timer = none }))
life_step-IsAlive stop_call s o i = λ h. absurd (false≢true (sym h))
life_step-IsAlive flush_over s o i =
    if-lem IsAlive s.stopping
      (record s { stopping = false; sock = none; live_socks = sock_ended s.sock s.live_socks }) s
      (λ e h. absurd (false≢true (sym h ∙ o.flushing e))) (λ e. i)
life_step-IsAlive (start_made n) s o i =
    when_some-lem IsAlive (get_elem? s.starts n) s
      (λ fresh. record s {
        starts = without_at n s.starts;
        sock = some s.next_sock;
        next_sock = s.next_sock + 1;
        live_socks = s.next_sock ∷ s.live_socks;
      })
      i (λ fresh e h. live_sock (is_none s.reconnect_timer) (is_empty (without_at n s.starts)))
life_step-IsAlive (start_threw n) s o i =
    let t = record s { starts = without_at n s.starts; status = disconnected } in
    when_some-lem IsAlive (get_elem? s.starts n) s (λ fresh. restart false t) i
      (λ fresh e. restart-IsAlive false t)
life_step-IsAlive (qr_made n) s o i =
    when_some-lem IsAlive (get_elem? s.renders n) s
      (λ data_url. report (record s {
        renders = without_at n s.renders;
        qr_data_url = some data_url;
        status = qr_pending;
      }))
      i (λ data_url e. i)
life_step-IsAlive (qr_threw n) s o i = i
life_step-IsAlive (qr_code url) s o i = i
life_step-IsAlive (opens normalize ids) s o i = i
life_step-IsAlive (updates_creds normalize ids) s o i = i
life_step-IsAlive (closes n b) s o i = on_close-IsAlive n b s
life_step-IsAlive (report_answered true) s o i =
    when_some-lem IsAlive s.sock s (λ n. record s { logouts = s.logouts ++ n ∷ [] }) i (λ n e. i)
life_step-IsAlive (report_answered false) s o i = i

run-IsAlive : (es : List LifeEvent) (s : Life) → IsSane s → IsAlive s → IsAlive (life_run es s)
run-IsAlive [] s o i = i
run-IsAlive (e ∷ es) s o i =
    run-IsAlive es (life_step e s) (life_step-IsSane e s o) (life_step-IsAlive e s o i)

-- From the moment a new session is started, and until it is stopped, it never goes quiet: whatever the
-- network, the backend and the timers do, a socket is live, a start is under way, or the timer of the
-- next start is set.
pub started-IsAlive :
    (es : List LifeEvent)
    → (life_run (start_call ∷ es) created).stopped ≡ false
    → let s = life_run (start_call ∷ es) created in
      (is_none s.reconnect_timer && is_empty s.starts && is_empty s.live_socks) ≡ false
unfolding life_step
started-IsAlive es =
    run-IsAlive es (life_step start_call created)
      (life_step-IsSane start_call created created-IsSane) first
  where
    first : IsAlive (life_step start_call created)
    first = start-IsAlive false created
