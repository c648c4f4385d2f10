-- ===== src/Leads/Page/Refresh.antt =====
-- The refresh of LeadsPage.tsx after a card changed a lead: nobody keeps the clean-up of its call.
use whatsapp_bots_saa_s.Base.{◌+◌, ◌≡◌, refl, ap, ◌∙◌, true, false, ◌&&◌, some, List, ◌∷◌}
use whatsapp_bots_saa_s.Text.{text_eq}
use whatsapp_bots_saa_s.Fetch.{Call, is_kept, drop_call}
use whatsapp_bots_saa_s.Fetch.Laws.{find_call-forgotten}
use whatsapp_bots_saa_s.Leads.{Lead}
use whatsapp_bots_saa_s.Leads.Page.{
  FilterKey, LeadsPage, load, load_effect, choose, refresh, settle, answer_call, answered_with,
}

-- The state after the refresh and another choice of the filters.
abbrev chosen_after : FilterKey → FilterKey → LeadsPage → LeadsPage
chosen_after a b s = load_effect (record s {
  filters = b;
  loading = true;
  error = false;
  calls = record { id = s.next_id; key = a; cancelled = false } ∷ s.calls;
  next_id = s.next_id + 1;
})

choose_lem :
    (s : LeadsPage) (a b : FilterKey)
    → (text_eq s.filters.status b.status && text_eq s.filters.flow b.flow) ≡ false
    → choose b (refresh a s) ≡ chosen_after a b s
unfolding choose refresh load
choose_lem s a b h = rw h refl

-- A card has changed a lead, and the owner picks other filters before the refreshed list arrives:
-- when it does, the page shows it, the list of the old filters, under the new ones.
pub refresh-shows_old_filters :
    (s : LeadsPage) (a b : FilterKey) (main left : List Lead)
    → is_kept s.kept s.next_id ≡ false
    → (text_eq s.filters.status b.status && text_eq s.filters.flow b.flow) ≡ false
    → (t : LeadsPage) × (answered_with s.next_id (some (main, left)) (choose b (refresh a s)) ≡ t)
      × (t.loading ≡ false)
      × (t.error ≡ false)
      × (t.leads ≡ some main)
      × (t.leads_of ≡ a)
      × (t.filters ≡ b)
unfolding answered_with answer_call settle load_effect load
refresh-shows_old_filters s a b main left hk hf =
    let c : Call FilterKey = record { id = s.next_id; key = a; cancelled = false } in
    let t = chosen_after a b s in
    (
      settle a (some (main, left)) (record t { calls = drop_call c.id t.calls }),
      ap (answered_with s.next_id (some (main, left))) (choose_lem s a b hf)
          ∙ ap (λ o. answer_call o (some (main, left)) t)
              (find_call-forgotten (s.next_id + 1) s.next_id a b s.kept s.calls refl hk),
      refl,
      refl,
      refl,
      refl,
      refl,
    )
