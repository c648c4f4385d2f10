-- ===== src/Conversations/Page/Stale.antt =====
-- A change of status that is reported when another tab has been chosen.
use whatsapp_bots_saa_s.Base.{
  ℕ, ◌+◌, ◌≡◌, refl, sym, ap, ◌∙◌, subst, inl, inr, Bool, true, false, Option, none, some, List, [],
  ◌∷◌, arith, ◌==◌, if◌then◌else◌, Bool-cases, any, All,
}
use mathlib.Core.Bool.{false≢true}
use whatsapp_bots_saa_s.Text.{Text, text_eq}
use whatsapp_bots_saa_s.Fetch.{Call, cancel_calls, find_call, drop_call, is_kept}
use whatsapp_bots_saa_s.Fetch.Laws.{counts, any-drop_call, find_call-forgotten}
use whatsapp_bots_saa_s.Conversations.{
  Status, bot, waiting, human, closed, Conversation, same_status,
}
use whatsapp_bots_saa_s.Conversations.Page.{
  Filter, only, ConversationsPage, matches, same_filter, load, load_effect, choose_tab, refresh,
  settle, answer_call, answered_with, set_status, updated, handle_status_change,
}

same_status→eq : (a b : Status) → same_status a b ≡ true → a ≡ b
unfolding same_status
same_status→eq bot bot h = refl
same_status→eq bot waiting h = cc
same_status→eq bot human h = cc
same_status→eq bot closed h = cc
same_status→eq waiting bot h = cc
same_status→eq waiting waiting h = refl
same_status→eq waiting human h = cc
same_status→eq waiting closed h = cc
same_status→eq human bot h = cc
same_status→eq human waiting h = cc
same_status→eq human human h = refl
same_status→eq human closed h = cc
same_status→eq closed bot h = cc
same_status→eq closed waiting h = cc
same_status→eq closed human h = cc
same_status→eq closed closed h = refl

none_match :
    (a b status : Status) (id : Text) (c : Conversation)
    → same_status b a ≡ false
    → same_status status a ≡ false
    → matches (only b) c ≡ true
    → matches (only a) (set_status id status c) ≡ false
unfolding matches set_status
none_match a b status id c h k m = split (text_eq c.conversation_id id)
  where
    split :
        (d : Bool) → same_status (if d then record c { status = status } else c).status a ≡ false
    split true = k
    split false = subst (λ s. same_status s a ≡ false) (sym (same_status→eq c.status b m)) h

updated_empty :
    (a b status : Status) (id : Text) (list : List Conversation)
    → same_status b a ≡ false
    → same_status status a ≡ false
    → All (λ c. matches (only b) c ≡ true) list
    → updated (only a) id status list ≡ []
unfolding updated
updated_empty a b status id [] h k m = refl
updated_empty a b status id (c ∷ list) h k (m, ms) =
    rw (none_match a b status id c h k m) (updated_empty a b status id list h k ms)

find_call-none_count :
    (id : ℕ) (calls : List (Call Filter)) (c : Call Filter)
    → any counts calls ≡ false
    → find_call id calls ≡ some c
    → c.cancelled ≡ true
unfolding find_call
find_call-none_count id [] c n e = cc
find_call-none_count id (d ∷ calls) c n e = elim (Bool-cases (d.id == id)) [
  | inl here ↦
      let same : d ≡ c = ground arith in subst (λ x. x.cancelled ≡ true) same (ground arith)
  | inr there ↦ find_call-none_count id calls c (ground arith) (ground arith)
]

-- Where no call counts, no answer changes the list.
answered_with-none_count :
    (id : ℕ) (answer : Option (List Conversation)) (s : ConversationsPage)
    → any counts s.calls ≡ false
    → (answered_with id answer s).conversations ≡ s.conversations
unfolding answered_with
answered_with-none_count id answer s n = go (find_call id s.calls) refl
  where
    go :
        (o : Option (Call Filter))
        → find_call id s.calls ≡ o
        → (answer_call o answer s).conversations ≡ s.conversations
    go none e = unfold answer_call in refl
    go (some c) e = unfold answer_call in rw (find_call-none_count id s.calls c n e) refl

-- The page after another tab was chosen and its list has come.
abbrev listed_after : Filter → List Conversation → ConversationsPage → ConversationsPage
listed_after b list s = record s {
  filter = b;
  conversations = some list;
  list_of = b;
  loading = false;
  error = false;
  calls = drop_call s.next_id (cancel_calls s.kept s.calls);
  next_id = s.next_id + 1;
  kept = some s.next_id;
  badge_refreshes = s.badge_refreshes + 1;
}

self_lem : (n : ℕ) → (n == n) ≡ true
self_lem n = ground arith

find_call-first :
    (c : Call Filter) (calls : List (Call Filter)) → find_call c.id (c ∷ calls) ≡ some c
unfolding find_call
find_call-first c calls = rw (self_lem c.id) refl

drop_call-first :
    (c : Call Filter) (calls : List (Call Filter))
    → drop_call c.id (c ∷ calls) ≡ drop_call c.id calls
unfolding drop_call
drop_call-first c calls = rw (self_lem c.id) refl

choose_tab-listed :
    (s : ConversationsPage) (b : Filter) (list : List Conversation)
    → same_filter s.filter b ≡ false
    → answered_with s.next_id (some list) (choose_tab b s) ≡ listed_after b list s
unfolding answered_with answer_call settle load_effect load choose_tab
choose_tab-listed s b list h =
    let c : Call Filter = record { id = s.next_id; key = b; cancelled = false } in
    let calls = cancel_calls s.kept s.calls in
    let v = load_effect (record s { filter = b }) in
    let e : choose_tab b s ≡ v = rw h refl in
    ap (answered_with s.next_id (some list)) e
    ∙ ap (λ o. answer_call o (some list) v) (find_call-first c calls)
    ∙ ap (λ cs. settle b (some list) (record v { calls = cs })) (drop_call-first c calls)

drop_call-none :
    (id : ℕ) (calls : List (Call Filter))
    → any counts calls ≡ false
    → any counts (drop_call id calls) ≡ false
drop_call-none id calls n = elim (Bool-cases (any counts (drop_call id calls))) [
  | inl some_count ↦ absurd (false≢true (sym n ∙ any-drop_call id calls some_count))
  | inr e ↦ e
]

-- On the tab `a`, with no load under way but the one that another tab cancels, a row starts to change
-- the status of its conversation to one that `a` does not list. Before the server answers, the owner
-- goes to the tab `b` and its list, of conversations of `b` only, arrives. When the answer comes, the handler of the old tab empties
-- the whole list of the new one, and no answer to a load that was made by then brings it back.
pub stale_change-empties_list :
    (s : ConversationsPage) (a b status : Status) (id : Text) (list : List Conversation)
    → s.filter ≡ only a
    → any counts (cancel_calls s.kept s.calls) ≡ false
    → same_status a b ≡ false
    → same_status b a ≡ false
    → same_status status a ≡ false
    → All (λ c. matches (only b) c ≡ true) list
    → let u = answered_with s.next_id (some list) (choose_tab (only b) s) in
      let t = handle_status_change (only a) id status u in
      (u.conversations ≡ some list)
      × (u.filter ≡ only b)
      × (t.conversations ≡ some [])
      × (t.filter ≡ only b)
      × (t.loading ≡ false)
      × ((n : ℕ) (answer : Option (List Conversation))
          → (answered_with n answer t).conversations ≡ some [])
unfolding handle_status_change
stale_change-empties_list s a b status id list f n ab ba k m =
    let other : same_filter s.filter (only b) ≡ false = unfold same_filter in rw (f, ab) refl in
    rw (choose_tab-listed s (only b) list other) (
      refl,
      refl,
      ap some (updated_empty a b status id list ba k m),
      refl,
      refl,
      λ i answer.
          answered_with-none_count i answer
            (handle_status_change (only a) id status (listed_after (only b) list s))
            (drop_call-none s.next_id (cancel_calls s.kept s.calls) n)
          ∙ ap some (updated_empty a b status id list ba k m),
    )

-- The state after the button and a click on another tab.
abbrev chosen_after : Filter → Filter → ConversationsPage → ConversationsPage
chosen_after a b s = load_effect (record s {
  filter = b;
  loading = true;
  error = false;
  calls = record { id = s.next_id; key = a; cancelled = false } ∷ s.calls;
  next_id = s.next_id + 1;
})

-- The owner refreshes the tab and goes to another one before the list arrives: when it does, the page
-- shows it, the list of the old tab, under the new one.
pub refresh-shows_old_tab :
    (s : ConversationsPage) (b : Filter) (list : List Conversation)
    → is_kept s.kept s.next_id ≡ false
    → same_filter s.filter b ≡ false
    → (t : ConversationsPage) × (answered_with s.next_id (some list) (choose_tab b (refresh s)) ≡ t)
      × (t.loading ≡ false)
      × (t.conversations ≡ some list)
      × (t.list_of ≡ s.filter)
      × (t.filter ≡ b)
unfolding answered_with answer_call settle load_effect load choose_tab refresh
refresh-shows_old_tab s b list hk hf =
    let a = s.filter in
    let c : Call Filter = record { id = s.next_id; key = a; cancelled = false } in
    let t = chosen_after a b s in
    let e : choose_tab b (refresh s) ≡ t = rw hf refl in
    (
      settle a (some list) (record t { calls = drop_call c.id t.calls }),
      ap (answered_with s.next_id (some list)) e
          ∙ ap (λ o. answer_call o (some list) t)
              (find_call-forgotten (s.next_id + 1) s.next_id a b s.kept s.calls refl hk),
      refl,
      refl,
      refl,
      refl,
    )
