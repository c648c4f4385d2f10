-- ===== src/Booking/Flow/Submission.antt =====
-- Editing the form and sending it in BookingFlow.tsx leave the shown slots right.
use whatsapp_bots_saa_s.Base.{
  ◌≡◌, refl, sym, inl, inr, Bool, true, false, not, ◌||◌, Option, none, some, Bool-cases, is_none,
}
use mathlib.Core.Bool.{false≢true}
use whatsapp_bots_saa_s.Text.{Text}
use whatsapp_bots_saa_s.Api.{Caught}
use whatsapp_bots_saa_s.Booking.Form.{FormError, validate}
use whatsapp_bots_saa_s.Booking.Flow.{
  Flow, initial, submit_checked, submit, submit_error_of, is_conflict, refused, on_sending,
  submit_fail, submit_ok, edit_customer, Sending, SubmitError,
}
use whatsapp_bots_saa_s.Fetch.Laws.{done}
use whatsapp_bots_saa_s.Booking.Flow.Freshness.{IsFresh}

submit_checked-IsFresh :
    (o : Option FormError) (s : Flow) → IsFresh s → IsFresh (submit_checked o s)
unfolding submit_checked
submit_checked-IsFresh none s f = record {
  covered = f.covered;
  waiting = f.waiting;
  shown = f.shown;
  picked = f.picked;
}
submit_checked-IsFresh (some err) s f = record {
  covered = f.covered;
  waiting = f.waiting;
  shown = f.shown;
  picked = f.picked;
}

pub submit-IsFresh : (live : Bool) (s : Flow) → IsFresh s → IsFresh (submit live s)
unfolding submit
submit-IsFresh live s f = elim (Bool-cases (not live || not (is_none s.sending))) [
  | inl off ↦ rw off f
  | inr on ↦ rw on (submit_checked-IsFresh (validate s.form) s f)
]

refused-IsFresh :
    (live : Bool) (sent : Sending) (err : SubmitError) (s : Flow)
    → is_conflict err ≡ false
    → IsFresh s
    → IsFresh (refused live sent err s)
unfolding refused
refused-IsFresh live sent err s n f =
    rw n (record { covered = f.covered; waiting = f.waiting; shown = f.shown; picked = f.picked })

pub submit_fail-IsFresh :
    (live : Bool) (err : Caught) (s : Flow)
    → is_conflict (submit_error_of err) ≡ false
    → IsFresh s
    → IsFresh (submit_fail live err s)
unfolding submit_fail on_sending
submit_fail-IsFresh live err s n f = go s.sending
  where
    go :
        (o : Option Sending)
        → IsFresh (on_sending o (λ sent. refused live sent (submit_error_of err)) s)
    go none = f
    go (some sent) = refused-IsFresh live sent (submit_error_of err) s n f

pub submit_ok-IsFresh : (s : Flow) → IsFresh s → IsFresh (submit_ok s)
unfolding submit_ok on_sending
submit_ok-IsFresh s f = go s.sending
  where
    go :
        (o : Option Sending)
        → IsFresh (on_sending o (λ sent t. record t { result = true; sending = none }) s)
    go none = f
    go (some sent) = record {
      covered = f.covered;
      waiting = f.waiting;
      shown = f.shown;
      picked = f.picked;
    }

pub initial-IsFresh : IsFresh initial
unfolding initial
initial-IsFresh = record {
  covered = done;
  waiting = λ h. absurd (false≢true h);
  shown = λ h. inl refl;
  picked = λ h. absurd (false≢true (sym h));
}

pub edit_customer-IsFresh :
    (live : Bool) (n p e m : Text) (s : Flow) → IsFresh s → IsFresh (edit_customer live n p e m s)
unfolding edit_customer
edit_customer-IsFresh true n p e m s f = record {
  covered = f.covered;
  waiting = f.waiting;
  shown = f.shown;
  picked = f.picked;
}
edit_customer-IsFresh false n p e m s f = f
