-- ===== src/Leads/PageTests.antt =====
-- The lists of LeadsPage.tsx at concrete events.
use whatsapp_bots_saa_s.Base.{◌≡◌, refl, true, false, ◌&&◌, none, some, List, [], ◌∷◌}
use whatsapp_bots_saa_s.Text.{Text, codes, text_eq, mem_text}
use whatsapp_bots_saa_s.Fetch.{cancel, cancel_calls, find_call, drop_call}
use whatsapp_bots_saa_s.Leads.Page.{
  FilterKey, LeadsPage, load, load_effect, first_render, open_page, choose, search, refresh, settle,
  answer_call, answered_with, PageEvent, chosen, searched, replied, handle, run,
}
use whatsapp_bots_saa_s.Leads.Page.Counts.{
  export_disabled, flow_options, add_name, add_names, insert_text, text_ltb,
}
use whatsapp_bots_saa_s.Leads.Page.Filters.{run-shows_chosen_filters}
use whatsapp_bots_saa_s.Leads.Page.Refresh.{refresh-shows_old_filters}

abbrev filter : Text → FilterKey
filter status = record { status = status; flow = codes "all" }

-- The first answer comes after the filter was changed; only the second one counts.
abbrev events : List PageEvent
events =
    chosen (filter (codes "deal"))
    ∷ replied 0 none
    ∷ searched (codes "ann")
    ∷ replied 1 (some ([], []))
    ∷ []

loaded :
    ((run events (open_page false)).loading ≡ false)
    × ((run events (open_page false)).error ≡ false)
    × ((run events (open_page false)).leads ≡ some [])
unfolding run handle open_page first_render choose load_effect load search answered_with answer_call
    settle find_call drop_call cancel_calls cancel text_eq
loaded = (refl, refl, refl)

run-shows_chosen_filters_example :
    (run events (open_page false)).leads_of ≡ (run events (open_page false)).filters
run-shows_chosen_filters_example = run-shows_chosen_filters false events refl (loaded.0) (loaded.1)

abbrev page : LeadsPage
page = record {
  filters = filter (codes "new");
  query = [];
  leads = some [];
  abandoned = [];
  leads_of = filter (codes "new");
  loading = false;
  error = false;
  calls = [];
  next_id = 1;
  kept = some 0;
}

filters_differ :
    (text_eq page.filters.status (codes "deal") && text_eq page.filters.flow (codes "all")) ≡ false
unfolding text_eq
filters_differ = refl

refresh-shows_old_filters_example :
    (t : LeadsPage) × (answered_with 1
        (some ([], []))
        (choose (filter (codes "deal")) (refresh page.filters page))
      ≡ t)
    × (t.loading ≡ false)
    × (t.error ≡ false)
    × (t.leads ≡ some [])
    × (t.leads_of ≡ page.filters)
    × (t.filters ≡ filter (codes "deal"))
refresh-shows_old_filters_example =
    refresh-shows_old_filters page page.filters (filter (codes "deal")) [] [] refl filters_differ

-- Nothing to export while the lists load.
closed_while_loading : export_disabled (λ t. t) (open_page false) ≡ true
unfolding export_disabled open_page first_render load_effect load
closed_while_loading = refl

options_of_page : flow_options page ≡ codes "all" ∷ []
unfolding flow_options add_names
options_of_page = refl

sorted_names :
    add_name (codes "ab") (add_name (codes "b") (codes "abc" ∷ []))
    ≡ codes "ab" ∷ codes "abc" ∷ codes "b" ∷ []
unfolding add_name mem_text insert_text text_ltb text_eq
sorted_names = refl
