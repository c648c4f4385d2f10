-- ===== src/Booking/Availability/Shown.antt =====
-- Which days BookingFlow.tsx offers once they are loaded: those of the chosen service and month.
use whatsapp_bots_saa_s.Base.{
  ℕ, ◌≡◌, refl, sym, ap, ◌∙◌, subst, ◌⊎◌, inl, inr, Bool, true, false, not, ◌&&◌, ◌||◌, Option,
  none, some, List, [], ◌∷◌, arith, Bool-cases, any, is_empty,
}
use mathlib.Core.Path.{ap₂}
use mathlib.Core.Bool.{false≢true}
use whatsapp_bots_saa_s.Text.{Text, text_eq}
use whatsapp_bots_saa_s.Text.Laws.{text_eq→eq}
use whatsapp_bots_saa_s.Dates.Civil.{YearMonth}
use whatsapp_bots_saa_s.Fetch.{Call, cancel_calls, find_call, drop_call}
use whatsapp_bots_saa_s.Fetch.Laws.{
  counts, IsKept, Covers, done, more, cancel_calls-none_count, none_count-Covers, drop_call-Covers,
  any-drop_call, drop_call-none_count, find_call-IsKept,
}
use whatsapp_bots_saa_s.Booking.Availability.{
  MonthKey, Availability, first_month, availability_effect, same_month, choose_month, settle_month,
  month_answer_found, month_answer, MonthEvent, picked, answered, on_event, run_months,
}

record Loaded (s : Availability) (key : MonthKey) : Type 0 where
  covers : Covers s.kept key s.calls
  waiting : any counts s.calls ≡ true → s.loading ≡ true
  shown : s.loading ≡ false → (s.dates ≡ []) ⊎ (s.dates_of ≡ some key)

abbrev IsLoaded : Availability → Type 0
IsLoaded s = Loaded s s.chosen

availability_effect-IsLoaded :
    (live : Bool) (s : Availability) (key : MonthKey)
    → Covers s.kept key s.calls
    → IsLoaded (availability_effect live s)
unfolding availability_effect
availability_effect-IsLoaded live s key c =
    let closed = cancel_calls-none_count s.kept key s.calls c in
    elim (Bool-cases (not live || is_empty s.chosen.service_id)) [
      | inl idle ↦ rw idle (record {
        covers = none_count-Covers none s.chosen (cancel_calls s.kept s.calls) closed;
        waiting = λ h. absurd (false≢true (sym closed ∙ h));
        shown = λ h. inl refl;
      })
      | inr sent ↦ rw sent (record {
        covers =
            more _ _ (λ h. record { id_kept = ground arith; same_key = refl })
              (none_count-Covers (some s.next_id) s.chosen (cancel_calls s.kept s.calls) closed);
        waiting = λ h. refl;
        shown = λ h. absurd (false≢true (sym h));
      })
    ]

abbrev key_at : Text → YearMonth → MonthKey
key_at service month = record { service_id = service; month = month }

abbrev month_at : ℕ → ℕ → YearMonth
month_at year month0 = record { year = year; month0 = month0 }

same_choice :
    (a b : MonthKey)
    → text_eq a.service_id b.service_id ≡ true
    → same_month a.month b.month ≡ true
    → a ≡ b
same_choice a b h k =
    ap₂ key_at (text_eq→eq a.service_id b.service_id h) (ap₂ month_at (ground arith) (ground arith))

choose_month-IsLoaded :
    (live : Bool) (key : MonthKey) (s : Availability)
    → IsLoaded s
    → IsLoaded (choose_month live key s)
unfolding choose_month
choose_month-IsLoaded live key s f =
    elim (Bool-cases
      (text_eq s.chosen.service_id key.service_id && same_month s.chosen.month key.month)) [
        | inl same ↦ rw same (
            subst (λ k. Loaded (record s { chosen = key }) k)
              (same_choice s.chosen key (ground arith) (ground arith))
              (record { covers = f.covers; waiting = f.waiting; shown = f.shown }))
        | inr new ↦
            rw new (availability_effect-IsLoaded live (record s { chosen = key }) s.chosen f.covers)
      ]

settle_month-IsLoaded :
    (key : MonthKey) (answer : Option (List Text)) (s : Availability)
    → Covers s.kept s.chosen s.calls
    → any counts s.calls ≡ false
    → key ≡ s.chosen
    → IsLoaded (settle_month key answer s)
unfolding settle_month
settle_month-IsLoaded key none s c n e = record {
  covers = c;
  waiting = λ h. absurd (false≢true (sym n ∙ h));
  shown = λ h. inl refl;
}
settle_month-IsLoaded key (some dates) s c n e = record {
  covers = c;
  waiting = λ h. absurd (false≢true (sym n ∙ h));
  shown = λ h. inr (ap some e);
}

month_answer_found-IsLoaded :
    (o : Option (Call MonthKey)) (answer : Option (List Text)) (s : Availability)
    → ((c : Call MonthKey)
        → o ≡ some c
        → counts c ≡ true
        → (any counts s.calls ≡ true) × IsKept s.kept s.chosen c)
    → IsLoaded s
    → IsLoaded (month_answer_found o answer s)
unfolding month_answer_found settle_month
month_answer_found-IsLoaded none answer s known f = f
month_answer_found-IsLoaded (some c) answer s known f =
    let rest = drop_call-Covers c.id s.kept s.chosen s.calls f.covers in
    elim (Bool-cases c.cancelled) [
      | inl dead ↦ rw dead (record {
        covers = rest;
        waiting = λ h. f.waiting (any-drop_call c.id s.calls h);
        shown = f.shown;
      })
      | inr live ↦
          let (there, k) = known c refl (ap not live) in
          rw live (
            settle_month-IsLoaded c.key answer (record s { calls = drop_call c.id s.calls }) rest
              (drop_call-none_count c.id s.kept s.chosen s.calls f.covers (k.id_kept)) (k.same_key))
    ]

on_event-IsLoaded :
    (live : Bool) (ev : MonthEvent) (s : Availability) → IsLoaded s → IsLoaded (on_event live ev s)
unfolding on_event month_answer
on_event-IsLoaded live (picked key) s f = choose_month-IsLoaded live key s f
on_event-IsLoaded live (answered id answer) s f =
    month_answer_found-IsLoaded (find_call id s.calls) answer s
      (λ c e o. find_call-IsKept id s.kept s.chosen s.calls f.covers e o) f

run_months-IsLoaded :
    (live : Bool) (evs : List MonthEvent) (s : Availability)
    → IsLoaded s
    → IsLoaded (run_months live evs s)
unfolding run_months
run_months-IsLoaded live [] s f = f
run_months-IsLoaded live (ev ∷ evs) s f =
    run_months-IsLoaded live evs (on_event live ev s) (on_event-IsLoaded live ev s f)

first_month-IsLoaded : (month : YearMonth) → IsLoaded (first_month month)
unfolding first_month
first_month-IsLoaded month = record {
  covers = done;
  waiting = λ h. absurd (false≢true h);
  shown = λ h. inl refl;
}

-- Whatever services and months are chosen, and in whatever order the answers come: when nothing is
-- loading, the days on offer are none, or those that the server gave for the service and the month
-- that are chosen.
pub run_months-shows_chosen :
    (live : Bool) (month : YearMonth) (evs : List MonthEvent)
    → (run_months live evs (first_month month)).loading ≡ false
    → ((run_months live evs (first_month month)).dates ≡ [])
      ⊎ ((run_months live evs (first_month month)).dates_of
          ≡ some (run_months live evs (first_month month)).chosen)
run_months-shows_chosen live month evs l =
    let f = run_months-IsLoaded live evs (first_month month) (first_month-IsLoaded month) in
    f.shown l
