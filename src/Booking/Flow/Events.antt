-- ===== src/Booking/Flow/Events.antt =====
-- The events of BookingFlow.tsx in any order, and what holds in every state that they lead to.
use whatsapp_bots_saa_s.Base.{
  ℕ, ◌≡◌, refl, sym, subst, ◌⊎◌, inl, inr, Bool, true, false, not, ◌&&◌, Option, none, List, [],
  ◌∷◌, arith, Bool-cases, get_or_else, any, is_empty,
}
use whatsapp_bots_saa_s.Fetch.{cancel_calls, find_call}
use whatsapp_bots_saa_s.Text.{Text, text_eq, mem_text}
use whatsapp_bots_saa_s.Api.{Caught}
use whatsapp_bots_saa_s.Booking.Form.{Form}
use whatsapp_bots_saa_s.Booking.Flow.{
  Flow, initial, load_slots, run_cleanup, register_cleanup, makes_request, slots_effect,
  after_render, pick_service, pick_date, grid_shown, pick_time, answer_found, slots_answer, submit,
  submit_error_of, is_conflict, refused, on_sending, submit_fail, submit_ok, edit_customer,
  services_changed,
}
use whatsapp_bots_saa_s.Booking.Flow.Freshness.{
  IsFresh, pick_service-IsFresh, pick_date-IsFresh, services_changed-IsFresh, pick_time-IsFresh,
  slots_answer-IsFresh,
}
use whatsapp_bots_saa_s.Booking.Flow.Submission.{
  submit-IsFresh, submit_fail-IsFresh, submit_ok-IsFresh, initial-IsFresh, edit_customer-IsFresh,
}

-- What happens to the flow: clicks, edits, and the answers of the server.
pub data FlowEvent : Type 0 where
  service_picked : Text → FlowEvent
  date_picked : Text → FlowEvent
  time_picked : Text → FlowEvent
  customer_edited : Text → Text → Text → Text → FlowEvent
  services_edited : List Text → FlowEvent
  slots_answered : ℕ → Option (List Text) → FlowEvent
  submitted : FlowEvent
  refusal : Caught → FlowEvent
  confirmed : FlowEvent

unfoldable pub handle : Bool → FlowEvent → Flow → Flow
handle live (service_picked id) s = pick_service live id s
handle live (date_picked date) s = pick_date live date s
handle live (time_picked time) s = pick_time time s
handle live (customer_edited name phone email notes) s = edit_customer live name phone email notes s
handle live (services_edited ids) s = services_changed live ids s
handle live (slots_answered id answer) s = slots_answer id answer s
handle live submitted s = submit live s
handle live (refusal err) s = submit_fail live err s
handle live confirmed s = submit_ok s

unfoldable pub run : Bool → List FlowEvent → Flow → Flow
run live [] s = s
run live (ev ∷ evs) s = run live evs (handle live ev s)

-- The server refused because the slot was taken.
abbrev pub is_taken : FlowEvent → Bool
is_taken (refusal err) = is_conflict (submit_error_of err)
is_taken _ = false

handle-IsFresh :
    (live : Bool) (ev : FlowEvent) (s : Flow)
    → is_taken ev ≡ false
    → IsFresh s
    → IsFresh (handle live ev s)
unfolding handle
handle-IsFresh live (service_picked id) s n f = pick_service-IsFresh live id s f
handle-IsFresh live (date_picked date) s n f = pick_date-IsFresh live date s f
handle-IsFresh live (time_picked time) s n f = pick_time-IsFresh time s f
handle-IsFresh live (customer_edited name phone email notes) s n f =
    edit_customer-IsFresh live name phone email notes s f
handle-IsFresh live (services_edited ids) s n f = services_changed-IsFresh live ids s f
handle-IsFresh live (slots_answered id answer) s n f = slots_answer-IsFresh id answer s f
handle-IsFresh live submitted s n f = submit-IsFresh live s f
handle-IsFresh live (refusal err) s n f = submit_fail-IsFresh live err s n f
handle-IsFresh live confirmed s n f = submit_ok-IsFresh s f

run-IsFresh :
    (live : Bool) (evs : List FlowEvent) (s : Flow)
    → any is_taken evs ≡ false
    → IsFresh s
    → IsFresh (run live evs s)
unfolding run
run-IsFresh live [] s n f = f
run-IsFresh live (ev ∷ evs) s n f =
    run-IsFresh live evs (handle live ev s) (ground arith)
      (handle-IsFresh live ev s (ground arith) f)

-- Whatever the visitor does, and in whatever order the answers come, unless a booking was refused
-- because its slot was taken: the slots on screen are those that the server gave for the chosen
-- service and date, answers to earlier choices never show, and a chosen time is one of the slots.
pub run-shows_chosen_day :
    (live : Bool) (evs : List FlowEvent)
    → any is_taken evs ≡ false
    → (grid_shown (run live evs initial) ≡ true
        → ((run live evs initial).slots ≡ none)
          ⊎ ((run live evs initial).slots_of
              ≡ ((run live evs initial).form.service_id, (run live evs initial).form.date)))
      × (is_empty (run live evs initial).form.time ≡ false
          → mem_text (run live evs initial).form.time (get_or_else (run live evs initial).slots [])
            ≡ true)
unfolding grid_shown
run-shows_chosen_day live evs n =
    let f = run-IsFresh live evs initial n initial-IsFresh in
    (λ h. f.shown (ground arith), λ h. (f.picked h).1)

-- A preview sends nothing.
record IsQuiet (s : Flow) : Type 0 where
  requests : s.requests ≡ []
  sending : s.sending ≡ none
  result : s.result ≡ false
  cleanup : s.cleanup ≡ none

slots_effect-IsQuiet : (s : Flow) → IsQuiet s → IsQuiet (slots_effect false s)
unfolding slots_effect run_cleanup register_cleanup load_slots makes_request cancel_calls
slots_effect-IsQuiet s q = record {
  requests = rw q.requests refl;
  sending = q.sending;
  result = q.result;
  cleanup = refl;
}

after_render-IsQuiet :
    (before : Form) (s : Flow) → IsQuiet s → IsQuiet (after_render false before s)
unfolding after_render
after_render-IsQuiet before s q =
    elim (Bool-cases
      (text_eq before.service_id s.form.service_id && text_eq before.date s.form.date)) [
        | inl same ↦ rw same q
        | inr new ↦ rw new (slots_effect-IsQuiet s q)
      ]

services_changed-IsQuiet :
    (ids : List Text) (s : Flow) → IsQuiet s → IsQuiet (services_changed false ids s)
unfolding services_changed
services_changed-IsQuiet ids s q =
    elim (Bool-cases (not (is_empty s.form.service_id) && not (mem_text s.form.service_id ids))) [
      | inl gone ↦ rw gone (
          after_render-IsQuiet s.form _ (record {
            requests = q.requests;
            sending = q.sending;
            result = q.result;
            cleanup = q.cleanup;
          }))
      | inr there ↦ rw there q
    ]

pick_time-IsQuiet : (time : Text) (s : Flow) → IsQuiet s → IsQuiet (pick_time time s)
unfolding pick_time
pick_time-IsQuiet time s q =
    elim (Bool-cases (grid_shown s && mem_text time (get_or_else s.slots []))) [
      | inl ok ↦ rw ok (record {
        requests = q.requests;
        sending = q.sending;
        result = q.result;
        cleanup = q.cleanup;
      })
      | inr off ↦ rw off q
    ]

handle-IsQuiet : (ev : FlowEvent) (s : Flow) → IsQuiet s → IsQuiet (handle false ev s)
unfolding handle pick_service pick_date edit_customer slots_answer find_call answer_found submit
    submit_fail submit_ok on_sending
handle-IsQuiet (service_picked id) s q =
    after_render-IsQuiet s.form _ (record {
      requests = q.requests;
      sending = q.sending;
      result = q.result;
      cleanup = q.cleanup;
    })
handle-IsQuiet (date_picked date) s q =
    after_render-IsQuiet s.form _ (record {
      requests = q.requests;
      sending = q.sending;
      result = q.result;
      cleanup = q.cleanup;
    })
handle-IsQuiet (time_picked time) s q = pick_time-IsQuiet time s q
handle-IsQuiet (customer_edited name phone email notes) s q = q
handle-IsQuiet (services_edited ids) s q = services_changed-IsQuiet ids s q
handle-IsQuiet (slots_answered id answer) s q =
    subst (λ rs. IsQuiet (answer_found (find_call id rs) answer s)) (sym q.requests) q
handle-IsQuiet submitted s q = q
handle-IsQuiet (refusal err) s q =
    subst (λ o. IsQuiet (on_sending o (λ sent. refused false sent (submit_error_of err)) s))
      (sym q.sending) q
handle-IsQuiet confirmed s q =
    subst (λ o. IsQuiet (on_sending o (λ sent t. record t { result = true; sending = none }) s))
      (sym q.sending) q

run-IsQuiet : (evs : List FlowEvent) (s : Flow) → IsQuiet s → IsQuiet (run false evs s)
unfolding run
run-IsQuiet [] s q = q
run-IsQuiet (ev ∷ evs) s q = run-IsQuiet evs (handle false ev s) (handle-IsQuiet ev s q)

-- The owner's preview never asks the server for slots, never sends a booking and never confirms
-- one, whatever happens in it.
pub run-preview :
    (evs : List FlowEvent)
    → ((run false evs initial).requests ≡ [])
      × ((run false evs initial).sending ≡ none)
      × ((run false evs initial).result ≡ false)
unfolding initial
run-preview evs =
    let q =
      run-IsQuiet evs initial
        (record { requests = refl; sending = refl; result = refl; cleanup = refl }) in
    (q.requests, q.sending, q.result)
