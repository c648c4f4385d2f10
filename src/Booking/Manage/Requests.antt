-- ===== src/Booking/Manage/Requests.antt =====
-- The requests that PublicManagePage.tsx makes.
use whatsapp_bots_saa_s.Base.{
  if-lem, ℕ, suc, ◌+◌, ◌≡◌, refl, ◌∙◌, inl, inr, Bool, true, false, not, ◌&&◌, ◌||◌, none, some,
  List, [], ◌∷◌, arith, if◌then◌else◌, is_none,
}
use whatsapp_bots_saa_s.Text.{Text}
use whatsapp_bots_saa_s.Booking.Manage.{
  ManagePage, ManageRequest, rescheduled, fresh_page, cancel_booking, move_booking, click_cancel,
  cancel_answered, click_open, is_shown, pick, can_confirm, click_confirm, close_dialog,
  move_answered, ManageEvent, cancels, cancel_came, move_came, opens, confirms, closes, picks,
  manage_step, manage_run,
}

abbrev pub cancels_in : List ManageRequest → ℕ
cancels_in [] = 0
cancels_in (cancel_booking ∷ rs) = suc (cancels_in rs)
cancels_in (move_booking date time ∷ rs) = cancels_in rs

abbrev pub moves_in : List ManageRequest → ℕ
moves_in [] = 0
moves_in (cancel_booking ∷ rs) = moves_in rs
moves_in (move_booking date time ∷ rs) = suc (moves_in rs)

abbrev pub one_if : Bool → ℕ
one_if b = if b then 1 else 0

-- Whether an event answers a cancellation, or a move, that is under way.
abbrev pub answers_cancel : ManageEvent → ManagePage → Bool
answers_cancel (cancel_came answer) s = s.busy
answers_cancel _ s = false

abbrev pub answers_move : ManageEvent → ManagePage → Bool
answers_move (move_came answer) s = s.rescheduling
answers_move _ s = false

abbrev pub cancels_answered : List ManageEvent → ManagePage → ℕ
cancels_answered [] s = 0
cancels_answered (e ∷ es) s = one_if (answers_cancel e s) + cancels_answered es (manage_step e s)

abbrev pub moves_answered : List ManageEvent → ManagePage → ℕ
moves_answered [] s = 0
moves_answered (e ∷ es) s = one_if (answers_move e s) + moves_answered es (manage_step e s)

-- A step from `s` in which `c` cancellations and `m` moves are answered: what is under way is what was sent
-- and not answered; and where there is a result, it stays and nothing is sent.
record IsCounted (s : ManagePage) (c m : ℕ) (t : ManagePage) : Type 0 where
  cancelling : cancels_in t.sent + one_if s.busy ≡ cancels_in s.sent + c + one_if t.busy
  moving : moves_in t.sent + one_if s.rescheduling ≡ moves_in s.sent + m + one_if t.rescheduling
  over : is_none s.done ≡ false → (is_none t.done ≡ false) × (t.sent ≡ s.sent)

same-IsCounted : (s : ManagePage) → IsCounted s 0 0 s
same-IsCounted s = record { cancelling = omega arith; moving = omega arith; over = λ h. (h, refl) }

click_cancel-IsCounted : (agreed : Bool) (s : ManagePage) → IsCounted s 0 0 (click_cancel agreed s)
unfolding click_cancel
click_cancel-IsCounted agreed s =
    if-lem (IsCounted s 0 0) (s.busy || not (is_none s.done) || not agreed) s
      (record s { busy = true; error = none; sent = cancel_booking ∷ s.sent })
      (λ e. same-IsCounted s)
      (λ e. record {
        cancelling = ground (arith, e);
        moving = omega arith;
        over = λ h. absurd (clash s.busy (is_none s.done) agreed e h);
      })
  where
    clash : (a b c : Bool) → (a || not b || not c) ≡ false → b ≡ false → ⊥
    clash a b c e h = ground arith

click_open-IsCounted : (s : ManagePage) → IsCounted s 0 0 (click_open s)
unfolding click_open
click_open-IsCounted s =
    if-lem (IsCounted s 0 0) (s.busy || not (is_none s.done)) s
      (record s {
        reschedule_error = none;
        show_reschedule = true;
        date = if s.show_reschedule then s.date else [];
        time = if s.show_reschedule then s.time else [];
      })
      (λ e. same-IsCounted s)
      (λ e. record { cancelling = omega arith; moving = omega arith; over = λ h. (h, refl) })

click_confirm-IsCounted : (s : ManagePage) → IsCounted s 0 0 (click_confirm s)
unfolding click_confirm is_shown can_confirm
click_confirm-IsCounted s =
    if-lem (IsCounted s 0 0) (is_shown s && can_confirm s)
      (record s {
        rescheduling = true;
        reschedule_error = none;
        sent = move_booking s.date s.time ∷ s.sent;
      })
      s
      (λ e. record {
        cancelling = omega arith;
        moving = ground (arith, e);
        over = λ h. absurd (clash s.show_reschedule (is_none s.done) (can_confirm s) e h);
      })
      (λ e. same-IsCounted s)
  where
    clash : (a b c : Bool) → (a && b && c) ≡ true → b ≡ false → ⊥
    clash a b c e h = ground arith

pick-IsCounted : (d t : Text) (s : ManagePage) → IsCounted s 0 0 (pick d t s)
unfolding pick
pick-IsCounted d t s =
    if-lem (IsCounted s 0 0) (is_shown s) (record s { date = d; time = t }) s
      (λ e. record { cancelling = omega arith; moving = omega arith; over = λ h. (h, refl) })
      (λ e. same-IsCounted s)

close_dialog-IsCounted : (s : ManagePage) → IsCounted s 0 0 (close_dialog s)
unfolding close_dialog
close_dialog-IsCounted s =
    if-lem (IsCounted s 0 0) (is_shown s && not s.rescheduling)
      (record s { show_reschedule = false }) s
      (λ e. record { cancelling = omega arith; moving = omega arith; over = λ h. (h, refl) })
      (λ e. same-IsCounted s)

manage_step-IsCounted :
    (e : ManageEvent) (s : ManagePage)
    → IsCounted s (one_if (answers_cancel e s)) (one_if (answers_move e s)) (manage_step e s)
unfolding manage_step cancel_answered move_answered
manage_step-IsCounted (cancels agreed) s = click_cancel-IsCounted agreed s
manage_step-IsCounted opens s = click_open-IsCounted s
manage_step-IsCounted confirms s = click_confirm-IsCounted s
manage_step-IsCounted closes s = close_dialog-IsCounted s
manage_step-IsCounted (picks d t) s = pick-IsCounted d t s
manage_step-IsCounted (cancel_came (inl err)) s =
    if-lem (IsCounted s (one_if s.busy) 0) s.busy (cancel_answered (inl err) s) s
      (λ e. record { cancelling = ground (arith, e); moving = omega arith; over = λ h. (h, refl) })
      (λ e. record { cancelling = ground (arith, e); moving = omega arith; over = λ h. (h, refl) })
manage_step-IsCounted (cancel_came (inr res)) s =
    if-lem (IsCounted s (one_if s.busy) 0) s.busy (cancel_answered (inr res) s) s
      (λ e. record {
        cancelling = ground (arith, e);
        moving = omega arith;
        over = λ h. (refl, refl);
      })
      (λ e. record { cancelling = ground (arith, e); moving = omega arith; over = λ h. (h, refl) })
manage_step-IsCounted (move_came (inl err)) s =
    if-lem (IsCounted s 0 (one_if s.rescheduling)) s.rescheduling (move_answered (inl err) s) s
      (λ e. record { cancelling = omega arith; moving = ground (arith, e); over = λ h. (h, refl) })
      (λ e. record { cancelling = omega arith; moving = ground (arith, e); over = λ h. (h, refl) })
manage_step-IsCounted (move_came (inr res)) s =
    if-lem (IsCounted s 0 (one_if s.rescheduling)) s.rescheduling (move_answered (inr res) s) s
      (λ e. record {
        cancelling = omega arith;
        moving = ground (arith, e);
        over = λ h. (refl, refl);
      })
      (λ e. record { cancelling = omega arith; moving = ground (arith, e); over = λ h. (h, refl) })

run-IsCounted :
    (es : List ManageEvent) (s : ManagePage)
    → IsCounted s (cancels_answered es s) (moves_answered es s) (manage_run es s)
run-IsCounted [] s = same-IsCounted s
run-IsCounted (e ∷ es) s =
    let a = manage_step-IsCounted e s in
    let b = run-IsCounted es (manage_step e s) in
    record {
      cancelling = omega (arith, a.cancelling, b.cancelling);
      moving = omega (arith, a.moving, b.moving);
      over = λ h. let (d, q) = a.over h in let (f, r) = b.over d in (f, r ∙ q);
    }

-- Whatever the customer clicks and however the server answers: of the cancellations that were sent all are
-- answered but the one under way, if one is, and so of the moves; and once the page shows that the
-- booking was cancelled or moved, it goes on to show a result and sends no more.
pub requests_lem :
    (es fs : List ManageEvent)
    → let s = manage_run es fresh_page in
      let t = manage_run fs s in
      (cancels_in s.sent ≡ cancels_answered es fresh_page + one_if s.busy)
      × (moves_in s.sent ≡ moves_answered es fresh_page + one_if s.rescheduling)
      × (is_none s.done ≡ false → (is_none t.done ≡ false) × (t.sent ≡ s.sent))
requests_lem es fs =
    let a = run-IsCounted es fresh_page in
    let b = run-IsCounted fs (manage_run es fresh_page) in
    (omega (arith, a.cancelling), omega (arith, a.moving), b.over)

-- Behind the open dialog the booking can be cancelled while it is being moved: if both succeed, the page
-- shows what was answered last, here that the booking which was cancelled has been moved.
cancel_while_moving :
    (s : ManagePage) (first second : Text)
    → s.busy ≡ false
    → s.done ≡ none
    → s.rescheduling ≡ true
    → let t = manage_run (cancels true ∷ cancel_came (inr first) ∷ move_came (inr second) ∷ []) s in
      (t.sent ≡ cancel_booking ∷ s.sent) × (t.done ≡ some (rescheduled second))
unfolding manage_step click_cancel cancel_answered move_answered
cancel_while_moving s first second b d r = rw (b, d, r) (refl, refl)
