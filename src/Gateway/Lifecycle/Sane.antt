-- ===== src/Gateway/Lifecycle/Sane.antt =====
-- What the session shows and how long it waits, whatever happens to it.
use whatsapp_bots_saa_s.Base.{
  if-lem, ℕ, zero, suc, ◌+◌, ◌^◌, ◌≤◌, ◌≡◌, refl, sym, ◌∙◌, inl, inr, Bool, true, false, not, ◌||◌,
  Option, none, some, List, [], ◌∷◌, ◌++◌, arith, if◌then◌else◌, Bool-cases, is_none, get_elem?,
}
use mathlib.Core.Bool.{false≢true}
use whatsapp_bots_saa_s.Gateway.Lifecycle.{
  reconnect_base_ms, reconnect_max_ms, qr_pending, connected, disconnected, logged_out, Timer, Life,
  created, when_some, without_at, without_sock, sock_ended, report, report_answer, delay_of,
  restart, start, start_succeeds, start_fails, timer_fires, on_qr, qr_rendered, qr_failed, on_open,
  on_close, on_creds, stop, stop_ends, LifeEvent, start_call, timer_due, stop_call, flush_over,
  start_made, start_threw, qr_made, qr_threw, qr_code, opens, updates_creds, closes,
  report_answered, life_step, life_run,
}

abbrev pub IsTimely : Option Timer → Type 0
IsTimely none = Unit
IsTimely (some t) = (reconnect_base_ms ≤ t.delay) × (t.delay ≤ reconnect_max_ms)

-- A connected session shows no QR code; a timer is set only while the session is not stopped, for
-- between 3 and 60 seconds; only a stopped session waits for the flush of `stop`.
pub record IsSane (s : Life) : Type 0 where
  pub qr : s.status ≡ connected → s.qr_data_url ≡ none
  pub idle : s.stopped ≡ true → s.reconnect_timer ≡ none
  pub flushing : s.stopping ≡ true → s.stopped ≡ true
  pub timely : IsTimely s.reconnect_timer

pow_pos : (n : ℕ) → 1 ≤ 2 ^ n
pow_pos zero = omega arith
pow_pos (suc n) = omega (arith, pow_pos n)

delay_of-bounds :
    (fresh : Bool) (attempts : ℕ)
    → (reconnect_base_ms ≤ delay_of fresh attempts) × (delay_of fresh attempts ≤ reconnect_max_ms)
unfolding delay_of
delay_of-bounds true attempts = (omega arith, omega arith)
delay_of-bounds false attempts = ground (arith, pow_pos attempts)

restart-IsSane : (fresh : Bool) (s : Life) → IsSane s → IsSane (restart fresh s)
unfolding restart
restart-IsSane fresh s i = elim (Bool-cases (s.stopped || not (is_none s.reconnect_timer))) [
  | inl e ↦ rw e i
  | inr e ↦ rw e (record {
    qr = i.qr;
    idle = λ h. absurd (false≢true (sym (off s.stopped _ e) ∙ h));
    flushing = i.flushing;
    timely = delay_of-bounds fresh s.reconnect_attempts;
  })
]
  where
    off : (a b : Bool) → (a || b) ≡ false → a ≡ false
    off a b h = ground arith

start-IsSane : (fresh : Bool) (s : Life) → IsSane s → IsSane (start fresh s)
unfolding start
start-IsSane fresh s i =
    if-lem IsSane s.stopped s
      (record s {
        starts = s.starts ++ fresh ∷ [];
        identity = if fresh then record { own_jid = none; own_lid = none } else s.identity;
      })
      (λ e. i) (λ e. record { qr = i.qr; idle = i.idle; flushing = i.flushing; timely = i.timely })

pub when_some-lem {ℓ κ} :
    {A : Type ℓ} (P : Life → Type κ) (o : Option A) (s : Life) (f : A → Life)
    → P s
    → ((a : A) → o ≡ some a → P (f a))
    → P (when_some o s f)
when_some-lem P none s f h k = h
when_some-lem P (some a) s f h k = k a refl

on_close-IsSane :
    (n : ℕ) (is_logged_out : Bool) (s : Life) → IsSane s → IsSane (on_close n is_logged_out s)
unfolding on_close report
on_close-IsSane n is_logged_out s i =
    if-lem IsSane s.stopped t (closed is_logged_out)
      (λ e. record { qr = i.qr; idle = i.idle; flushing = i.flushing; timely = i.timely })
      (λ e. go is_logged_out)
  where
    t : Life
    t = record s { live_socks = without_sock n s.live_socks }

    closed : Bool → Life
    closed b =
        if b
        then restart true (report (record t { status = logged_out; qr_data_url = none }))
        else restart false (report (record t { status = disconnected }))

    go : (b : Bool) → IsSane (closed b)
    go true =
        restart-IsSane true (report (record t { status = logged_out; qr_data_url = none }))
          (record { qr = λ h. refl; idle = i.idle; flushing = i.flushing; timely = i.timely })
    go false =
        restart-IsSane false (report (record t { status = disconnected })) (record {
          qr = λ h. absurd (cc);
          idle = i.idle;
          flushing = i.flushing;
          timely = i.timely;
        })

pub life_step-IsSane : (e : LifeEvent) (s : Life) → IsSane s → IsSane (life_step e s)
unfolding life_step stop stop_ends on_qr qr_failed on_creds on_open report report_answer
    start_succeeds start_fails qr_rendered timer_fires
life_step-IsSane start_call s i = start-IsSane false s i
life_step-IsSane timer_due s i =
    when_some-lem IsSane s.reconnect_timer s
      (λ t. start t.fresh (record s { reconnect_timer = none })) i
      (λ t e.
        start-IsSane t.fresh (record s { reconnect_timer = none })
          (record { qr = i.qr; idle = λ h. refl; flushing = i.flushing; timely = tt }))
life_step-IsSane stop_call s i = record {
  qr = i.qr;
  idle = λ h. refl;
  flushing = λ h. refl;
  timely = tt;
}
life_step-IsSane flush_over s i =
    if-lem IsSane s.stopping
      (record s { stopping = false; sock = none; live_socks = sock_ended s.sock s.live_socks }) s
      (λ e. record {
        qr = i.qr;
        idle = i.idle;
        flushing = λ h. absurd (false≢true h);
        timely = i.timely;
      })
      (λ e. i)
life_step-IsSane (start_made n) s i =
    when_some-lem IsSane (get_elem? s.starts n) s
      (λ fresh. record s {
        starts = without_at n s.starts;
        sock = some s.next_sock;
        next_sock = s.next_sock + 1;
        live_socks = s.next_sock ∷ s.live_socks;
      })
      i (λ fresh e. record { qr = i.qr; idle = i.idle; flushing = i.flushing; timely = i.timely })
life_step-IsSane (start_threw n) s i =
    let t = record s { starts = without_at n s.starts; status = disconnected } in
    when_some-lem IsSane (get_elem? s.starts n) s (λ fresh. restart false t) i
      (λ fresh e.
        restart-IsSane false t (record {
          qr = λ h. absurd (cc);
          idle = i.idle;
          flushing = i.flushing;
          timely = i.timely;
        }))
life_step-IsSane (qr_made n) s i =
    when_some-lem IsSane (get_elem? s.renders n) s
      (λ data_url. report (record s {
        renders = without_at n s.renders;
        qr_data_url = some data_url;
        status = qr_pending;
      }))
      i
      (λ data_url e. record {
        qr = λ h. absurd (cc);
        idle = i.idle;
        flushing = i.flushing;
        timely = i.timely;
      })
life_step-IsSane (qr_threw n) s i = record {
  qr = i.qr;
  idle = i.idle;
  flushing = i.flushing;
  timely = i.timely;
}
life_step-IsSane (qr_code url) s i = record {
  qr = i.qr;
  idle = i.idle;
  flushing = i.flushing;
  timely = i.timely;
}
life_step-IsSane (opens normalize ids) s i = record {
  qr = λ h. refl;
  idle = i.idle;
  flushing = i.flushing;
  timely = i.timely;
}
life_step-IsSane (updates_creds normalize ids) s i = record {
  qr = i.qr;
  idle = i.idle;
  flushing = i.flushing;
  timely = i.timely;
}
life_step-IsSane (closes n b) s i = on_close-IsSane n b s i
life_step-IsSane (report_answered true) s i =
    when_some-lem IsSane s.sock s (λ n. record s { logouts = s.logouts ++ n ∷ [] }) i
      (λ n e. record { qr = i.qr; idle = i.idle; flushing = i.flushing; timely = i.timely })
life_step-IsSane (report_answered false) s i = i

-- Whatever happens to a session, in whatever order: while it is connected it shows no QR code, once
-- it is stopped no timer is set, and a timer that is set runs for between 3 and 60 seconds.
pub run-IsSane : (es : List LifeEvent) (s : Life) → IsSane s → IsSane (life_run es s)
run-IsSane [] s i = i
run-IsSane (e ∷ es) s i = run-IsSane es (life_step e s) (life_step-IsSane e s i)

pub created-IsSane : IsSane created
created-IsSane = record { qr = λ h. refl; idle = λ h. refl; flushing = λ h. h; timely = tt }
