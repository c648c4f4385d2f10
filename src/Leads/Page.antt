-- ===== src/Leads/Page.antt =====
-- The lists of frontend/src/pages/LeadsPage.tsx: the filters, the two requests that `load` makes at
-- once, which are one call here, and their answers in any order. A handler and the effect that it
-- sets off are one step. `leads_of` is no variable of the program: it notes the filters that
-- `leads` was loaded for.
pub mod Counts
pub mod Filters
pub mod Refresh
use whatsapp_bots_saa_s.Base.{
  ℕ, ◌+◌, Bool, true, false, ◌&&◌, Option, none, some, List, [], ◌∷◌, if◌then◌else◌,
}
use whatsapp_bots_saa_s.Text.{Text, codes, text_eq}
use whatsapp_bots_saa_s.Fetch.{Call, cancel_calls, find_call, drop_call}
use whatsapp_bots_saa_s.Leads.{Lead}

-- A `LeadStatusFilter` is one of seven strings; a flow is `all` or a flow's name, and `flowParam`,
-- which the requests and the effect take, is the name unless it is `all`.
pub record FilterKey : Type 0 where
  pub status : Text
  pub flow : Text

pub record LeadsPage : Type 0 where
  pub filters : FilterKey
  pub query : Text
  pub leads : Option (List Lead)
  pub abandoned : List Lead
  pub leads_of : FilterKey
  pub loading : Bool
  pub error : Bool
  pub calls : List (Call FilterKey)
  pub next_id : ℕ
  pub kept : Option ℕ

-- `load`, which calls the server for the filters it is given.
unfoldable pub load : FilterKey → LeadsPage → LeadsPage
load key s = record s {
  loading = true;
  error = false;
  calls = record { id = s.next_id; key = key; cancelled = false } ∷ s.calls;
  next_id = s.next_id + 1;
}

-- The effect: the clean-up of the one before, then `load`, whose clean-up is kept.
unfoldable pub load_effect : LeadsPage → LeadsPage
unfolding load
load_effect s =
    let t = record s { calls = cancel_calls s.kept s.calls } in
    record (load s.filters t) { kept = some s.next_id }

-- Before the first effect; `highlighted` if the address names a lead.
unfoldable pub first_render : Bool → LeadsPage
first_render highlighted = record {
  filters = record {
    status = if highlighted then codes "all" else codes "in_progress";
    flow = codes "all";
  };
  query = [];
  leads = none;
  abandoned = [];
  leads_of = record { status = []; flow = [] };
  loading = true;
  error = false;
  calls = [];
  next_id = 0;
  kept = none;
}

unfoldable pub open_page : Bool → LeadsPage
unfolding load_effect first_render
open_page highlighted = load_effect (first_render highlighted)

-- Another choice in the filters; the effect runs if they are not as before.
unfoldable pub choose : FilterKey → LeadsPage → LeadsPage
unfolding load_effect text_eq
choose key s =
    let t = record s { filters = key } in
    if text_eq s.filters.status key.status && text_eq s.filters.flow key.flow
    then t
    else load_effect t

unfoldable pub search : Text → LeadsPage → LeadsPage
search query s = record s { query = query }

-- `refresh` of the render with the filters `key`, after a card has changed a lead: the clean-up
-- that `load` returns is dropped.
unfoldable pub refresh : FilterKey → LeadsPage → LeadsPage
unfolding load
refresh key s = load key s

unfoldable pub settle : FilterKey → Option (List Lead × List Lead) → LeadsPage → LeadsPage
settle key none s = record s { error = true; loading = false }
settle key (some (main, left)) s = record s {
  leads = some main;
  abandoned = left;
  leads_of = key;
  loading = false;
}

unfoldable pub answer_call :
    Option (Call FilterKey) → Option (List Lead × List Lead) → LeadsPage → LeadsPage
unfolding settle drop_call
answer_call none answer s = s
answer_call (some c) answer s =
    let t = record s { calls = drop_call c.id s.calls } in
    if c.cancelled then t else settle c.key answer t

unfoldable pub answered_with : ℕ → Option (List Lead × List Lead) → LeadsPage → LeadsPage
unfolding answer_call find_call
answered_with id answer s = answer_call (find_call id s.calls) answer s

pub data PageEvent : Type 0 where
  chosen : FilterKey → PageEvent
  searched : Text → PageEvent
  refreshed : FilterKey → PageEvent
  replied : ℕ → Option (List Lead × List Lead) → PageEvent

unfoldable pub handle : PageEvent → LeadsPage → LeadsPage
handle (chosen key) s = choose key s
handle (searched query) s = search query s
handle (refreshed key) s = refresh key s
handle (replied id answer) s = answered_with id answer s

unfoldable pub run : List PageEvent → LeadsPage → LeadsPage
run [] s = s
run (ev ∷ evs) s = run evs (handle ev s)
