-- ===== src/Conversations/Page/Shown.antt =====
-- Which conversations ConversationsPage.tsx shows.
use whatsapp_bots_saa_s.Base.{
  ◌≡◌, refl, sym, ap, ◌∙◌, subst, inl, inr, Bool, true, false, not, Option, none, some, List, [],
  ◌∷◌, map, arith, Bool-cases, any, filter_by, All,
}
use mathlib.Core.Bool.{false≢true}
use whatsapp_bots_saa_s.Text.{Text}
use whatsapp_bots_saa_s.Fetch.{Call, cancel_calls, find_call, drop_call}
use whatsapp_bots_saa_s.Fetch.Laws.{
  counts, IsKept, Covers, done, more, cancel_calls-none_count, none_count-Covers, drop_call-Covers,
  any-drop_call, drop_call-none_count, find_call-IsKept,
}
use whatsapp_bots_saa_s.Conversations.{Status, Conversation}
use whatsapp_bots_saa_s.Conversations.Page.{
  Filter, everything, only, ConversationsPage, matches, same_filter, load, load_effect,
  first_render, open_page, choose_tab, settle, answer_call, answered_with, map_list, set_status,
  updated, handle_status_change, read_one, is_id, toggle, PageEvent, tab_chosen, refreshed, replied,
  status_changed, toggled, handle, run,
}

-- Every conversation of the list is of the tab.
abbrev pub AllMatch : Filter → Option (List Conversation) → Type 0
AllMatch filter none = Unit
AllMatch filter (some list) = All (λ c. matches filter c ≡ true) list

record Fresh (s : ConversationsPage) (key : Filter) : Type 0 where
  covers : Covers s.kept key s.calls
  waiting : any counts s.calls ≡ true → s.loading ≡ true
  shown : s.loading ≡ false → s.error ≡ false → AllMatch key s.conversations

abbrev IsFresh : ConversationsPage → Type 0
IsFresh s = Fresh s s.filter

load_effect-IsFresh :
    (s : ConversationsPage) (key : Filter) → Covers s.kept key s.calls → IsFresh (load_effect s)
unfolding load_effect load
load_effect-IsFresh s key c = record {
  covers =
      more _ _ (λ h. record { id_kept = ground arith; same_key = refl })
        (none_count-Covers (some s.next_id) s.filter (cancel_calls s.kept s.calls)
          (cancel_calls-none_count s.kept key s.calls c));
  waiting = λ h. refl;
  shown = λ h. absurd (false≢true (sym h));
}

choose_tab-IsFresh : (key : Filter) (s : ConversationsPage) → IsFresh s → IsFresh (choose_tab key s)
unfolding choose_tab
choose_tab-IsFresh key s f = elim (Bool-cases (same_filter s.filter key)) [
  | inl same ↦ rw same f
  | inr new ↦ rw new (load_effect-IsFresh (record s { filter = key }) s.filter f.covers)
]

settle-IsFresh :
    (key : Filter) (answer : Option (List Conversation)) (s : ConversationsPage)
    → Covers s.kept s.filter s.calls
    → any counts s.calls ≡ false
    → AllMatch s.filter answer
    → IsFresh (settle key answer s)
unfolding settle
settle-IsFresh key none s c n a = record {
  covers = c;
  waiting = λ h. absurd (false≢true (sym n ∙ h));
  shown = λ h k. absurd (false≢true (sym k));
}
settle-IsFresh key (some list) s c n a = record {
  covers = c;
  waiting = λ h. absurd (false≢true (sym n ∙ h));
  shown = λ h k. a;
}

answer_call-IsFresh :
    (o : Option (Call Filter)) (answer : Option (List Conversation)) (s : ConversationsPage)
    → ((c : Call Filter)
        → o ≡ some c
        → counts c ≡ true
        → (any counts s.calls ≡ true) × IsKept s.kept s.filter c)
    → ((c : Call Filter) → o ≡ some c → AllMatch c.key answer)
    → IsFresh s
    → IsFresh (answer_call o answer s)
unfolding answer_call
answer_call-IsFresh none answer s known honest f = f
answer_call-IsFresh (some c) answer s known honest f =
    let rest = drop_call-Covers c.id s.kept s.filter s.calls f.covers in
    elim (Bool-cases c.cancelled) [
      | inl dead ↦ rw dead (record {
        covers = rest;
        waiting = λ h. f.waiting (any-drop_call c.id s.calls h);
        shown = f.shown;
      })
      | inr live ↦
          let (there, k) = known c refl (ap not live) in
          rw live (
            settle-IsFresh c.key answer (record s { calls = drop_call c.id s.calls }) rest
              (drop_call-none_count c.id s.kept s.filter s.calls f.covers (k.id_kept))
              (subst (λ key. AllMatch key answer) k.same_key (honest c refl)))
    ]

All-filter_by :
    (p : Conversation → Bool) (list : List Conversation) → All (λ c. p c ≡ true) (filter_by p list)
All-filter_by p [] = tt
All-filter_by p (c ∷ list) = elim (Bool-cases (p c)) [
  | inl e ↦ rw e (e, All-filter_by p list)
  | inr e ↦ rw e (All-filter_by p list)
]

updated-AllMatch :
    (key : Filter) (id : Text) (status : Status) (o : Option (List Conversation))
    → AllMatch key (map_list (updated key id status) o)
unfolding updated
updated-AllMatch key id status none = tt
updated-AllMatch key id status (some list) =
    All-filter_by (matches key) (map (set_status id status) list)

matches-read_one :
    (key : Filter) (id : Text) (c : Conversation) → matches key (read_one id c) ≡ matches key c
unfolding matches read_one
matches-read_one everything id c = refl
matches-read_one (only s) id c = ground arith

read-AllMatch :
    (key : Filter) (id : Text) (o : Option (List Conversation))
    → AllMatch key o
    → AllMatch key (map_list (map (read_one id)) o)
read-AllMatch key id none h = tt
read-AllMatch key id (some list) h = each list h
  where
    each :
        (cs : List Conversation)
        → All (λ c. matches key c ≡ true) cs
        → All (λ c. matches key c ≡ true) (map (read_one id) cs)
    each [] k = tt
    each (c ∷ cs) (k, ks) = (matches-read_one key id c ∙ k, each cs ks)

toggle-IsFresh : (id : Text) (s : ConversationsPage) → IsFresh s → IsFresh (toggle id s)
unfolding toggle
toggle-IsFresh id s f = elim (Bool-cases (is_id s.open_id id)) [
  | inl e ↦ rw e (record { covers = f.covers; waiting = f.waiting; shown = f.shown })
  | inr e ↦ rw e (record {
    covers = f.covers;
    waiting = f.waiting;
    shown = λ h k. read-AllMatch s.filter id s.conversations (f.shown h k);
  })
]

-- The button is not used, the server answers with conversations of the tab that it was asked for, and
-- a row reports a change of status while the tab on which the change was made is still chosen.
abbrev pub IsExpected : PageEvent → ConversationsPage → Type 0
IsExpected (tab_chosen key) s = Unit
IsExpected refreshed s = ⊥
IsExpected (replied id answer) s =
    (c : Call Filter) → find_call id s.calls ≡ some c → AllMatch c.key answer
IsExpected (status_changed key id status) s = key ≡ s.filter
IsExpected (toggled id) s = Unit

handle-IsFresh :
    (ev : PageEvent) (s : ConversationsPage) → IsExpected ev s → IsFresh s → IsFresh (handle ev s)
unfolding handle answered_with handle_status_change
handle-IsFresh (tab_chosen key) s n f = choose_tab-IsFresh key s f
handle-IsFresh refreshed s n f = elim n [ ]
handle-IsFresh (replied id answer) s n f =
    answer_call-IsFresh (find_call id s.calls) answer s
      (λ c e o. find_call-IsKept id s.kept s.filter s.calls f.covers e o) n f
handle-IsFresh (status_changed key id status) s n f = record {
  covers = f.covers;
  waiting = f.waiting;
  shown = λ h k.
      subst (λ x. AllMatch x (map_list (updated key id status) s.conversations)) n
        (updated-AllMatch key id status s.conversations);
}
handle-IsFresh (toggled id) s n f = toggle-IsFresh id s f

abbrev pub AllExpected : List PageEvent → ConversationsPage → Type 0
AllExpected [] s = Unit
AllExpected (ev ∷ evs) s = IsExpected ev s × AllExpected evs (handle ev s)

run-IsFresh :
    (evs : List PageEvent) (s : ConversationsPage)
    → AllExpected evs s
    → IsFresh s
    → IsFresh (run evs s)
run-IsFresh [] s n f = f
run-IsFresh (ev ∷ evs) s (n, ns) f = run-IsFresh evs (handle ev s) ns (handle-IsFresh ev s n f)

-- As long as the refresh button is not used, the server answers with conversations of the tab asked for,
-- and changes of status are reported on the tab they were made on: whatever tabs and rows are clicked
-- and in whatever order the answers come, every conversation shown is one of the chosen tab.
pub run-shows_chosen_tab :
    (focus : Option Text) (evs : List PageEvent)
    → AllExpected evs (open_page focus)
    → (run evs (open_page focus)).loading ≡ false
    → (run evs (open_page focus)).error ≡ false
    → AllMatch (run evs (open_page focus)).filter (run evs (open_page focus)).conversations
unfolding open_page
run-shows_chosen_tab focus evs n l e =
    let f =
      run-IsFresh evs (open_page focus) n
        (load_effect-IsFresh (first_render focus) everything done) in
    f.shown l e
