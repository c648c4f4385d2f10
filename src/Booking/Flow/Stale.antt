-- ===== src/Booking/Flow/Stale.antt =====
-- The refresh of the slots after a booking was refused (BookingFlow.tsx, `submit`): nobody keeps the
-- clean-up of its request.
use whatsapp_bots_saa_s.Base.{
  ◌+◌, ◌≡◌, refl, ap, ◌∙◌, true, false, none, some, List, [], ◌∷◌, is_empty,
}
use whatsapp_bots_saa_s.Text.{Text, text_eq}
use whatsapp_bots_saa_s.Text.Laws.{text_eq_refl}
use whatsapp_bots_saa_s.Api.{Caught}
use whatsapp_bots_saa_s.Fetch.{Call, is_kept, cancel_calls, drop_call}
use whatsapp_bots_saa_s.Fetch.Laws.{find_call-forgotten}
use whatsapp_bots_saa_s.Booking.Flow.{
  Flow, load_slots, run_cleanup, register_cleanup, makes_request, slots_effect, after_render,
  pick_date, grid_shown, settle, answer_found, slots_answer, submit_error_of, is_conflict, refused,
  on_sending, submit_fail, Sending,
}

-- The state after the refusal, when the slots load again.
conflict_lem :
    (s : Flow) (sent : Sending) (err : Caught)
    → s.sending ≡ some sent
    → is_conflict (submit_error_of err) ≡ true
    → submit_fail true err s
      ≡ load_slots true sent.service_id sent.date
          (record s { submit_error = some (submit_error_of err); sending = none })
unfolding submit_fail on_sending refused
conflict_lem s sent err h k =
    ap (λ o. on_sending o (λ sent. refused true sent (submit_error_of err)) s) h ∙ rw k

-- The refresh leaves its request open, with the id that was next.
refresh_lem :
    (s : Flow) (service date : Text)
    → is_empty service ≡ false
    → is_empty date ≡ false
    → load_slots true service date s ≡ record s {
      slots_loading = true;
      slots_error = false;
      form = record (s.form) { time = [] };
      requests = record { id = s.next_id; key = (service, date); cancelled = false } ∷ s.requests;
      next_id = s.next_id + 1;
    }
unfolding load_slots
refresh_lem s service date h k = rw (h, k) refl

-- Another date: the effect loads its slots, and cancels the request of the clean-up.
abbrev loading_of : Text → Flow → Flow
loading_of d s = record s {
  slots_loading = true;
  slots_error = false;
  form = record (s.form) { date = d; time = [] };
  requests =
      record { id = s.next_id; key = (s.form.service_id, d); cancelled = false }
      ∷ cancel_calls s.cleanup s.requests;
  next_id = s.next_id + 1;
  cleanup = some s.next_id;
}

pick_date_lem :
    (s : Flow) (d : Text)
    → is_empty s.form.service_id ≡ false
    → is_empty d ≡ false
    → text_eq s.form.date d ≡ false
    → pick_date true d s ≡ loading_of d s
unfolding pick_date after_render slots_effect run_cleanup register_cleanup load_slots makes_request
pick_date_lem s d hs hd ht = simp (ht, hs, hd, text_eq_refl s.form.service_id) refl

-- The answer to the refresh, once another date has been chosen.
answer_lem :
    (s : Flow) (service date d : Text) (free : List Text)
    → is_kept s.cleanup s.next_id ≡ false
    → is_empty s.form.service_id ≡ false
    → is_empty service ≡ false
    → is_empty date ≡ false
    → is_empty d ≡ false
    → text_eq s.form.date d ≡ false
    → (t : Flow) × (slots_answer s.next_id
          (some free)
          (pick_date true d (load_slots true service date s))
        ≡ t)
      × (grid_shown t ≡ true)
      × (t.slots ≡ some free)
      × (t.slots_of ≡ (service, date))
      × (t.form.date ≡ d)
unfolding slots_answer answer_found settle grid_shown
answer_lem s service date d free hi hf hs hd h ht =
    let r : Call (Text × Text) = record {
      id = s.next_id;
      key = (service, date);
      cancelled = false;
    } in
    let a : Flow = record s {
      slots_loading = true;
      slots_error = false;
      form = record (s.form) { time = [] };
      requests = r ∷ s.requests;
      next_id = s.next_id + 1;
    } in
    let picked : pick_date true d (load_slots true service date s) ≡ loading_of d a =
      ap (pick_date true d) (refresh_lem s service date hs hd) ∙ pick_date_lem a d hf h ht in
    (
      settle r.key (some free)
          (record (loading_of d a) { requests = drop_call r.id (loading_of d a).requests }),
      ap (slots_answer s.next_id (some free)) picked
          ∙ ap (λ o. answer_found o (some free) (loading_of d a))
              (find_call-forgotten (s.next_id + 1) s.next_id (service, date) (s.form.service_id, d)
                s.cleanup s.requests refl hi),
      simp (hf, h) refl,
      refl,
      refl,
      refl,
    )

-- A booking is refused because its slot was taken, and the visitor picks another date before the
-- refreshed slots arrive: when they do, the grid shows them, those of the booking's date, under the
-- new date.
pub conflict-shows_old_day :
    (s : Flow) (sent : Sending) (err : Caught) (d : Text) (free : List Text)
    → s.sending ≡ some sent
    → is_conflict (submit_error_of err) ≡ true
    → is_kept s.cleanup s.next_id ≡ false
    → is_empty s.form.service_id ≡ false
    → is_empty sent.service_id ≡ false
    → is_empty sent.date ≡ false
    → is_empty d ≡ false
    → text_eq s.form.date d ≡ false
    → (t : Flow) × (slots_answer s.next_id (some free) (pick_date true d (submit_fail true err s))
        ≡ t)
      × (grid_shown t ≡ true)
      × (t.slots ≡ some free)
      × (t.slots_of ≡ (sent.service_id, sent.date))
      × (t.form.date ≡ d)
conflict-shows_old_day s sent err d free hs hc hi hf hv hd h ht =
    let refusal : Flow = record s { submit_error = some (submit_error_of err); sending = none } in
    let (t, e, a, b, c, g) = answer_lem refusal sent.service_id sent.date d free hi hf hv hd h ht in
    (
      t,
      ap (λ x. slots_answer s.next_id (some free) (pick_date true d x))
            (conflict_lem s sent err hs hc)
          ∙ e,
      a,
      b,
      c,
      g,
    )
