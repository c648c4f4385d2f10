-- ===== src/Booking/Flow/Freshness.antt =====
-- Which slots BookingFlow.tsx shows: those of the service and the date that are chosen.
use whatsapp_bots_saa_s.Base.{
  ℕ, ◌≡◌, refl, sym, ap, ◌∙◌, subst, ◌⊎◌, inl, inr, Bool, true, false, not, ◌&&◌, ◌||◌, Option,
  none, some, List, [], arith, Bool-cases, get_or_else, any, is_empty,
}
use mathlib.Core.Bool.{false≢true}
use whatsapp_bots_saa_s.Text.{Text, text_eq, mem_text}
use whatsapp_bots_saa_s.Text.Laws.{text_eq→eq}
use whatsapp_bots_saa_s.Booking.Form.{Form}
use whatsapp_bots_saa_s.Booking.Flow.{
  Flow, load_slots, run_cleanup, register_cleanup, makes_request, slots_effect, after_render,
  pick_service, pick_date, grid_shown, pick_time, settle, answer_found, slots_answer,
  services_changed,
}
use whatsapp_bots_saa_s.Fetch.{Call, cancel_calls, find_call, drop_call}
use whatsapp_bots_saa_s.Fetch.Laws.{
  counts, IsKept, Covers, more, cancel_calls-none_count, none_count-Covers, drop_call-Covers,
  any-drop_call, drop_call-none_count, find_call-IsKept,
}

pub record Fresh (s : Flow) (service date : Text) : Type 0 where
  pub covered : Covers s.cleanup (service, date) s.requests
  pub waiting :
      any counts s.requests ≡ true → (s.slots_loading ≡ true) × (is_empty s.form.time ≡ true)
  pub shown : s.slots_loading ≡ false → (s.slots ≡ none) ⊎ (s.slots_of ≡ (service, date))
  pub picked :
      is_empty s.form.time ≡ false
      → (s.slots_loading ≡ false) × (mem_text s.form.time (get_or_else s.slots []) ≡ true)

abbrev pub IsFresh : Flow → Type 0
IsFresh s = Fresh s s.form.service_id s.form.date

-- The effect leaves a fresh state, whatever the selections are now, if the time was reset.
slots_effect-IsFresh :
    (live : Bool) (s : Flow) (service date : Text)
    → Covers s.cleanup (service, date) s.requests
    → is_empty s.form.time ≡ true
    → IsFresh (slots_effect live s)
unfolding slots_effect run_cleanup register_cleanup load_slots makes_request
slots_effect-IsFresh live s service date c t =
    let closed = cancel_calls-none_count s.cleanup (service, date) s.requests c in
    let covered =
      none_count-Covers (some s.next_id) (s.form.service_id, s.form.date)
        (cancel_calls s.cleanup s.requests) closed in
    let covered_none =
      none_count-Covers none (s.form.service_id, s.form.date) (cancel_calls s.cleanup s.requests)
        closed in
    elim (Bool-cases (not live || is_empty s.form.service_id || is_empty s.form.date)) [
      | inl idle ↦ rw idle (record {
        covered = covered_none;
        waiting = λ h. absurd (false≢true (sym closed ∙ h));
        shown = λ h. inl refl;
        picked = λ h. absurd (false≢true (sym h ∙ t));
      })
      | inr sent ↦ rw sent (record {
        covered = more _ _ (λ h. record { id_kept = ground arith; same_key = refl }) covered;
        waiting = λ h. (refl, refl);
        shown = λ h. absurd (false≢true (sym h));
        picked = λ h. absurd (false≢true (sym h));
      })
    ]

-- After a handler that chose a service and a date and reset the time.
after_render-IsFresh :
    (live : Bool) (before : Form) (s : Flow)
    → Fresh s before.service_id before.date
    → is_empty s.form.time ≡ true
    → IsFresh (after_render live before s)
unfolding after_render
after_render-IsFresh live before s f t =
    elim (Bool-cases
      (text_eq before.service_id s.form.service_id && text_eq before.date s.form.date)) [
        | inl same ↦ rw same (
            subst (λ d. Fresh s s.form.service_id d)
              (text_eq→eq before.date s.form.date (ground arith))
              (subst (λ v. Fresh s v before.date)
                (text_eq→eq before.service_id s.form.service_id (ground arith)) f))
        | inr new ↦ rw new (slots_effect-IsFresh live s before.service_id before.date f.covered t)
      ]

pub pick_service-IsFresh :
    (live : Bool) (id : Text) (s : Flow) → IsFresh s → IsFresh (pick_service live id s)
unfolding pick_service
pick_service-IsFresh live id s f =
    after_render-IsFresh live s.form _
      (record {
        covered = f.covered;
        waiting = λ h. ((f.waiting h).0, refl);
        shown = λ h. inl refl;
        picked = λ h. absurd (false≢true (sym h));
      })
      refl

pub pick_date-IsFresh :
    (live : Bool) (date : Text) (s : Flow) → IsFresh s → IsFresh (pick_date live date s)
unfolding pick_date
pick_date-IsFresh live date s f =
    after_render-IsFresh live s.form _
      (record {
        covered = f.covered;
        waiting = λ h. ((f.waiting h).0, refl);
        shown = f.shown;
        picked = λ h. absurd (false≢true (sym h));
      })
      refl

pub services_changed-IsFresh :
    (live : Bool) (ids : List Text) (s : Flow) → IsFresh s → IsFresh (services_changed live ids s)
unfolding services_changed
services_changed-IsFresh live ids s f =
    elim (Bool-cases (not (is_empty s.form.service_id) && not (mem_text s.form.service_id ids))) [
      | inl gone ↦ rw gone (
          after_render-IsFresh live s.form _
            (record {
              covered = f.covered;
              waiting = λ h. ((f.waiting h).0, refl);
              shown = f.shown;
              picked = λ h. absurd (false≢true (sym h));
            })
            refl)
      | inr there ↦ rw there f
    ]

pub pick_time-IsFresh : (time : Text) (s : Flow) → IsFresh s → IsFresh (pick_time time s)
unfolding pick_time grid_shown
pick_time-IsFresh time s f =
    elim (Bool-cases (grid_shown s && mem_text time (get_or_else s.slots []))) [
      | inl ok ↦ rw ok (record {
        covered = f.covered;
        waiting = λ h. let w = (f.waiting h).0 in absurd (ground arith);
        shown = f.shown;
        picked = λ h. (ground arith, ground arith);
      })
      | inr off ↦ rw off f
    ]

-- The request that counts ends: no other one does.
settle-IsFresh :
    (key : Text × Text) (answer : Option (List Text)) (s : Flow)
    → Covers s.cleanup (s.form.service_id, s.form.date) s.requests
    → any counts s.requests ≡ false
    → key ≡ (s.form.service_id, s.form.date)
    → is_empty s.form.time ≡ true
    → IsFresh (settle key answer s)
unfolding settle
settle-IsFresh key none s c n e t = record {
  covered = c;
  waiting = λ h. absurd (false≢true (sym n ∙ h));
  shown = λ h. inr e;
  picked = λ h. absurd (false≢true (sym h ∙ t));
}
settle-IsFresh key (some slots) s c n e t = record {
  covered = c;
  waiting = λ h. absurd (false≢true (sym n ∙ h));
  shown = λ h. inr e;
  picked = λ h. absurd (false≢true (sym h ∙ t));
}

answer_found-IsFresh :
    (o : Option (Call (Text × Text))) (answer : Option (List Text)) (s : Flow)
    → ((c : Call (Text × Text))
        → o ≡ some c
        → counts c ≡ true
        → (any counts s.requests ≡ true) × IsKept s.cleanup (s.form.service_id, s.form.date) c)
    → IsFresh s
    → IsFresh (answer_found o answer s)
unfolding answer_found settle
answer_found-IsFresh none answer s known f = f
answer_found-IsFresh (some c) answer s known f =
    let key : Text × Text = (s.form.service_id, s.form.date) in
    let rest = drop_call-Covers c.id s.cleanup key s.requests f.covered in
    elim (Bool-cases c.cancelled) [
      | inl dead ↦ rw dead (record {
        covered = rest;
        waiting = λ h. f.waiting (any-drop_call c.id s.requests h);
        shown = f.shown;
        picked = f.picked;
      })
      | inr live ↦
          let (there, k) = known c refl (ap not live) in
          rw live (
            settle-IsFresh c.key answer (record s { requests = drop_call c.id s.requests }) rest
              (drop_call-none_count c.id s.cleanup key s.requests f.covered (k.id_kept))
              (k.same_key) ((f.waiting there).1))
    ]

pub slots_answer-IsFresh :
    (id : ℕ) (answer : Option (List Text)) (s : Flow)
    → IsFresh s
    → IsFresh (slots_answer id answer s)
unfolding slots_answer
slots_answer-IsFresh id answer s f =
    answer_found-IsFresh (find_call id s.requests) answer s
      (λ c e o.
        find_call-IsKept id s.cleanup (s.form.service_id, s.form.date) s.requests f.covered e o)
      f
