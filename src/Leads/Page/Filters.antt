-- ===== src/Leads/Page/Filters.antt =====
-- Which leads LeadsPage.tsx shows: those of the filters that are chosen.
use whatsapp_bots_saa_s.Base.{
  ◌≡◌, refl, sym, ap, ◌∙◌, subst, inl, inr, Bool, true, false, not, ◌&&◌, Option, none, some, List,
  [], ◌∷◌, arith, Bool-cases, any,
}
use mathlib.Core.Path.{ap₂}
use mathlib.Core.Bool.{false≢true}
use whatsapp_bots_saa_s.Text.{Text, text_eq}
use whatsapp_bots_saa_s.Text.Laws.{text_eq→eq}
use whatsapp_bots_saa_s.Fetch.{Call, cancel_calls, find_call, drop_call}
use whatsapp_bots_saa_s.Fetch.Laws.{
  counts, IsKept, Covers, done, more, cancel_calls-none_count, none_count-Covers, drop_call-Covers,
  any-drop_call, drop_call-none_count, find_call-IsKept,
}
use whatsapp_bots_saa_s.Leads.{Lead}
use whatsapp_bots_saa_s.Leads.Page.{
  FilterKey, LeadsPage, load, load_effect, first_render, open_page, choose, search, settle,
  answer_call, answered_with, PageEvent, chosen, searched, refreshed, replied, handle, run,
}

record Fresh (s : LeadsPage) (key : FilterKey) : Type 0 where
  covers : Covers s.kept key s.calls
  waiting : any counts s.calls ≡ true → s.loading ≡ true
  shown : s.loading ≡ false → s.error ≡ false → s.leads_of ≡ key

abbrev IsFresh : LeadsPage → Type 0
IsFresh s = Fresh s s.filters

load_effect-IsFresh :
    (s : LeadsPage) (key : FilterKey) → Covers s.kept key s.calls → IsFresh (load_effect s)
unfolding load_effect load
load_effect-IsFresh s key c = record {
  covers =
      more _ _ (λ h. record { id_kept = ground arith; same_key = refl })
        (none_count-Covers (some s.next_id) s.filters (cancel_calls s.kept s.calls)
          (cancel_calls-none_count s.kept key s.calls c));
  waiting = λ h. refl;
  shown = λ h. absurd (false≢true (sym h));
}

abbrev the_key : Text → Text → FilterKey
the_key status flow = record { status = status; flow = flow }

same_filters :
    (a b : FilterKey) → text_eq a.status b.status ≡ true → text_eq a.flow b.flow ≡ true → a ≡ b
same_filters a b h k =
    ap₂ (λ (status flow : Text). the_key status flow) (text_eq→eq a.status b.status h)
      (text_eq→eq a.flow b.flow k)

choose-IsFresh : (key : FilterKey) (s : LeadsPage) → IsFresh s → IsFresh (choose key s)
unfolding choose
choose-IsFresh key s f =
    elim (Bool-cases (text_eq s.filters.status key.status && text_eq s.filters.flow key.flow)) [
      | inl same ↦ rw same (
          subst (λ k. Fresh (record s { filters = key }) k)
            (same_filters s.filters key (ground arith) (ground arith))
            (record { covers = f.covers; waiting = f.waiting; shown = f.shown }))
      | inr new ↦ rw new (load_effect-IsFresh (record s { filters = key }) s.filters f.covers)
    ]

settle-IsFresh :
    (key : FilterKey) (answer : Option (List Lead × List Lead)) (s : LeadsPage)
    → Covers s.kept s.filters s.calls
    → any counts s.calls ≡ false
    → key ≡ s.filters
    → IsFresh (settle key answer s)
unfolding settle
settle-IsFresh key none s c n e = record {
  covers = c;
  waiting = λ h. absurd (false≢true (sym n ∙ h));
  shown = λ h k. absurd (false≢true (sym k));
}
settle-IsFresh key (some (main, left)) s c n e = record {
  covers = c;
  waiting = λ h. absurd (false≢true (sym n ∙ h));
  shown = λ h k. e;
}

answer_call-IsFresh :
    (o : Option (Call FilterKey)) (answer : Option (List Lead × List Lead)) (s : LeadsPage)
    → ((c : Call FilterKey)
        → o ≡ some c
        → counts c ≡ true
        → (any counts s.calls ≡ true) × IsKept s.kept s.filters c)
    → IsFresh s
    → IsFresh (answer_call o answer s)
unfolding answer_call settle
answer_call-IsFresh none answer s known f = f
answer_call-IsFresh (some c) answer s known f =
    let rest = drop_call-Covers c.id s.kept s.filters s.calls f.covers in
    elim (Bool-cases c.cancelled) [
      | inl dead ↦ rw dead (record {
        covers = rest;
        waiting = λ h. f.waiting (any-drop_call c.id s.calls h);
        shown = f.shown;
      })
      | inr live ↦
          let (there, k) = known c refl (ap not live) in
          rw live (
            settle-IsFresh c.key answer (record s { calls = drop_call c.id s.calls }) rest
              (drop_call-none_count c.id s.kept s.filters s.calls f.covers (k.id_kept))
              (k.same_key))
    ]

-- A card changed a lead.
abbrev pub is_refresh : PageEvent → Bool
is_refresh (refreshed key) = true
is_refresh _ = false

handle-IsFresh :
    (ev : PageEvent) (s : LeadsPage) → is_refresh ev ≡ false → IsFresh s → IsFresh (handle ev s)
unfolding handle search answered_with
handle-IsFresh (chosen key) s n f = choose-IsFresh key s f
handle-IsFresh (searched query) s n f = record {
  covers = f.covers;
  waiting = f.waiting;
  shown = f.shown;
}
handle-IsFresh (refreshed key) s n f = absurd (false≢true (sym n))
handle-IsFresh (replied id answer) s n f =
    answer_call-IsFresh (find_call id s.calls) answer s
      (λ c e o. find_call-IsKept id s.kept s.filters s.calls f.covers e o) f

run-IsFresh :
    (evs : List PageEvent) (s : LeadsPage)
    → any is_refresh evs ≡ false
    → IsFresh s
    → IsFresh (run evs s)
unfolding run
run-IsFresh [] s n f = f
run-IsFresh (ev ∷ evs) s n f =
    run-IsFresh evs (handle ev s) (ground arith) (handle-IsFresh ev s (ground arith) f)

open_page-IsFresh : (highlighted : Bool) → IsFresh (open_page highlighted)
unfolding open_page first_render
open_page-IsFresh highlighted =
    load_effect-IsFresh (first_render highlighted) (record { status = []; flow = [] }) done

-- Until a card changes a lead: whatever is chosen and in whatever order the answers come, the leads
-- on the page, when they are there and no error is, are those of the chosen filters.
pub run-shows_chosen_filters :
    (highlighted : Bool) (evs : List PageEvent)
    → any is_refresh evs ≡ false
    → (run evs (open_page highlighted)).loading ≡ false
    → (run evs (open_page highlighted)).error ≡ false
    → (run evs (open_page highlighted)).leads_of ≡ (run evs (open_page highlighted)).filters
run-shows_chosen_filters highlighted evs n l e =
    let f = run-IsFresh evs (open_page highlighted) n (open_page-IsFresh highlighted) in f.shown l e
