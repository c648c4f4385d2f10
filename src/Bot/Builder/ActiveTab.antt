-- ===== src/Bot/Builder/ActiveTab.antt =====
-- The open tab of BotBuilderPage.tsx through every event of the page.
use whatsapp_bots_saa_s.Base.{
  ◌≡◌, refl, ap, ◌∙◌, subst, inl, inr, Bool, true, false, ◌||◌, Option, none, some, List, [], ◌∷◌,
  arith, leb, if◌then◌else◌, Bool-cases, Option-cases, get_or_else, length, head?, is_empty,
}
use whatsapp_bots_saa_s.Text.{Text, codes, mem_text}
use whatsapp_bots_saa_s.Text.Laws.{text_eq_refl}
use whatsapp_bots_saa_s.Dict.{lookup, put, delete, keys}
use whatsapp_bots_saa_s.Dict.Laws.{mem_text-keys-put, mem_text-keys_iff}
use whatsapp_bots_saa_s.Bot.Config.{
  BotProfile, Flow, Flows, BotSettings, RawSettings, max_flows, unique_key, normalize_settings,
  with_default_messages,
}
use whatsapp_bots_saa_s.Bot.Builder.{
  Builder, Event, load_ok, load_fail, set_profile, select_tab, add, remove, rename_label,
  patch_active, change_type, set_steps, ai_changes, open_ai, edit_type, published, save, save_ok,
  save_fail, initial, first_key, mutate, set_label, with_flows, add_flow, delete_flow, patch_found,
  patch_flow, patch_active_flow, keep_tab, on_config, with_config, handle, fold_type_editor, step,
  option_text_eq,
}

abbrev pub flow_keys : Option BotSettings → Option (List Text)
flow_keys none = none
flow_keys (some c) = some (keys c.lead_steps)

-- No tab is open when there are no flows; the open tab is one of the flows.
abbrev pub tab_in : Option (List Text) → Option Text → Bool
tab_in none none = true
tab_in none (some key) = false
tab_in (some ks) none = is_empty ks
tab_in (some ks) (some key) = mem_text key ks

abbrev pub IsSound : Builder → Type 0
IsSound b = tab_in (flow_keys b.config) b.active_key ≡ true

-- What the page and the server see to: a tab that is clicked is one of those shown, and a save
-- answers with the flows that the page then has.
abbrev pub Allowed : Event → Builder → Type 0
Allowed (select_tab key) b = tab_in (flow_keys b.config) (some key) ≡ true
Allowed (save_ok result) b =
    (c : BotSettings) × (b.config ≡ some c)
    × (keys (get_or_else result.lead_steps []) ≡ keys c.lead_steps)
Allowed _ b = Unit {0}

tab_in-head : (ks : List Text) → tab_in (some ks) (head? ks) ≡ true
unfolding mem_text
tab_in-head [] = refl
tab_in-head (k ∷ ks) = ground (arith, text_eq_refl k)

first_key-ok : (c : BotSettings) → tab_in (some (keys c.lead_steps)) (first_key c) ≡ true
unfolding first_key
first_key-ok c = tab_in-head (keys c.lead_steps)

keys-with_default_messages : (flows : Flows) → keys (with_default_messages flows) ≡ keys flows
unfolding with_default_messages
keys-with_default_messages [] = refl
keys-with_default_messages ((k, flow) ∷ flows) =
    ap (λ ks. k ∷ ks) (keys-with_default_messages flows)

pub keys-normalize_settings :
    (raw : RawSettings)
    → keys (normalize_settings (some raw)).lead_steps ≡ keys (get_or_else raw.lead_steps [])
unfolding normalize_settings
keys-normalize_settings raw = keys-with_default_messages _

-- A write under a key keeps a tab that was right.
tab_in-put :
    (key : Text) (flow : Flow) (flows : Flows) (active : Option Text)
    → mem_text key (keys flows) ≡ true
    → tab_in (some (keys flows)) active ≡ true
    → tab_in (some (keys (put key flow flows))) active ≡ true
unfolding mem_text
tab_in-put key flow flows (some j) m h = mem_text-keys-put key j flow flows ∙ rw h
tab_in-put key flow [] none m h = cc
tab_in-put key flow (entry ∷ flows) none m h = cc

patch_found-IsSound :
    (key : Text) (f : Flow → Flow) (c : BotSettings) (b : Builder) (o : Option Flow)
    → lookup key c.lead_steps ≡ o
    → b.config ≡ some c
    → IsSound b
    → IsSound (patch_found key f c b o)
unfolding patch_found mutate with_flows
patch_found-IsSound key f c b none e hc h = h
patch_found-IsSound key f c b (some flow) e hc h =
    tab_in-put key (f flow) c.lead_steps b.active_key
      ((mem_text-keys_iff key c.lead_steps).1 (λ n. cc))
      (subst (λ o. tab_in (flow_keys o) b.active_key ≡ true) hc h)

patch_flow-IsSound :
    (key : Text) (f : Flow → Flow) (c : BotSettings) (b : Builder)
    → b.config ≡ some c
    → IsSound b
    → IsSound (patch_flow key f c b)
unfolding patch_flow
patch_flow-IsSound key f c b hc h =
    patch_found-IsSound key f c b (lookup key c.lead_steps) refl hc h

patch_active_flow-IsSound :
    (f : Flow → Flow) (key : Option Text) (c : BotSettings) (b : Builder)
    → b.config ≡ some c
    → IsSound b
    → IsSound (patch_active_flow f key c b)
unfolding patch_active_flow
patch_active_flow-IsSound f none c b hc h = h
patch_active_flow-IsSound f (some key) c b hc h = patch_flow-IsSound key f c b hc h

with_config-IsSound :
    (b : Builder) (f : BotSettings → Builder → Builder)
    → ((c : BotSettings) → b.config ≡ some c → IsSound (f c b))
    → IsSound b
    → IsSound (with_config b f)
unfolding with_config on_config
with_config-IsSound b f keep h = go b.config refl
  where
    go : (o : Option BotSettings) → b.config ≡ o → IsSound (on_config o f b)
    go none e = h
    go (some c) e = keep c e

keep_tab-ok :
    (c : BotSettings) (active : Option Text)
    → tab_in (some (keys c.lead_steps)) (keep_tab c active) ≡ true
unfolding keep_tab
keep_tab-ok c none = first_key-ok c
keep_tab-ok c (some key) = elim (Option-cases (lookup key c.lead_steps)) [
  | inl gone ↦ rw gone (first_key-ok c)
  | inr (flow, found) ↦ rw found ((mem_text-keys_iff key c.lead_steps).1 (λ e. cc))
]

delete_flow-IsSound : (key : Text) (c : BotSettings) (b : Builder) → IsSound (delete_flow key c b)
unfolding delete_flow mutate
delete_flow-IsSound key c b = first_key-ok (with_flows (delete key c.lead_steps) c)

or-true : (x : Bool) → (x || true) ≡ true
or-true x = ground arith

add_flow-IsSound : (now : Text) (c : BotSettings) (b : Builder) → IsSound (add_flow now c b)
unfolding add_flow mutate with_flows
add_flow-IsSound now c b =
    mem_text-keys-put _ _ _ c.lead_steps
    ∙ rw (text_eq_refl (unique_key now (codes "flow") (keys c.lead_steps))) (or-true _)

add-IsSound :
    (now : Text) (b : Builder) (c : BotSettings)
    → IsSound b
    → IsSound (if leb max_flows (length (keys c.lead_steps)) then b else add_flow now c b)
add-IsSound now b c h = elim (Bool-cases (leb max_flows (length (keys c.lead_steps)))) [
  | inl full ↦ rw full h
  | inr room ↦ rw room (add_flow-IsSound now c b)
]

profile-IsSound :
    (f : BotProfile → BotProfile) (b : Builder) (c : BotSettings)
    → b.config ≡ some c
    → IsSound b
    → IsSound (mutate (record c { bot_profile = f c.bot_profile }) b)
unfolding mutate
profile-IsSound f b c hc h = subst (λ o. tab_in (flow_keys o) b.active_key ≡ true) hc h

save-IsSound :
    (b : Builder)
    → IsSound b
    → IsSound (
        if b.saving || b.loading
        then b
        else record b { saving = true; save_error = none; saved = false })
save-IsSound b h = elim (Bool-cases (b.saving || b.loading)) [
  | inl busy ↦ rw busy h
  | inr idle ↦ rw idle h
]

published-IsSound :
    (value : Bool) (b : Builder) (c : BotSettings)
    → b.config ≡ some c
    → IsSound b
    → IsSound (record b { config = some (record c { is_published = value }) })
published-IsSound value b c hc h = subst (λ o. tab_in (flow_keys o) b.active_key ≡ true) hc h

save_ok-IsSound :
    (result : RawSettings) (b : Builder)
    → Allowed (save_ok result) b
    → IsSound b
    → IsSound (handle (save_ok result) b)
unfolding handle
save_ok-IsSound result b (c, hc, same) h =
    rw (keys-normalize_settings result, same)
      (subst (λ o. tab_in (flow_keys o) b.active_key ≡ true) hc h)

handle-IsSound : (ev : Event) (b : Builder) → Allowed ev b → IsSound b → IsSound (handle ev b)
unfolding handle
handle-IsSound (load_ok raw) b a h = first_key-ok (normalize_settings raw)
handle-IsSound (load_fail err) b a h = h
handle-IsSound (set_profile f) b a h =
    with_config-IsSound b _ (λ c hc. profile-IsSound f b c hc h) h
handle-IsSound (select_tab key) b a h = a
handle-IsSound (add now) b a h = with_config-IsSound b _ (λ c hc. add-IsSound now b c h) h
handle-IsSound (remove key) b a h = with_config-IsSound b _ (λ c hc. delete_flow-IsSound key c b) h
handle-IsSound (rename_label key label) b a h =
    with_config-IsSound b _ (λ c hc. patch_flow-IsSound key (set_label label) c b hc h) h
handle-IsSound (patch_active f) b a h =
    with_config-IsSound b _ (λ c hc. patch_active_flow-IsSound f _ c b hc h) h
handle-IsSound (change_type t) b a h =
    with_config-IsSound b _ (λ c hc. patch_active_flow-IsSound _ _ c b hc h) h
handle-IsSound (set_steps steps) b a h =
    with_config-IsSound b _ (λ c hc. patch_active_flow-IsSound _ _ c b hc h) h
handle-IsSound (ai_changes next) b a h = keep_tab-ok (normalize_settings (some next)) _
handle-IsSound (open_ai shown) b a h = h
handle-IsSound edit_type b a h = h
handle-IsSound (published value) b a h =
    with_config-IsSound b _ (λ c hc. published-IsSound value b c hc h) h
handle-IsSound save b a h = with_config-IsSound b _ (λ c hc. save-IsSound b h) h
handle-IsSound (save_ok result) b a h = save_ok-IsSound result b a h
handle-IsSound (save_fail err) b a h = h

fold_type_editor-IsSound :
    (before : Option Text) (b : Builder) → IsSound b → IsSound (fold_type_editor before b)
unfolding fold_type_editor
fold_type_editor-IsSound before b h = elim (Bool-cases (option_text_eq before b.active_key)) [
  | inl same ↦ rw same h
  | inr moved ↦ rw moved h
]

-- The states of the page: from the first render, by events that the page and the server allow.
pub data Reach : Builder → Type 0 where
  start : Reach initial
  after : {b : Builder} → Reach b → (ev : Event) → Allowed ev b → Reach (step ev b)

-- In every state that the page reaches, when a click selects a tab that is shown and a save answers
-- with the flows that the page then has, the open tab is one of the flows, and a tab is open if
-- there is a flow.
pub Reach-IsSound : {b : Builder} → Reach b → IsSound b
unfolding initial step
Reach-IsSound start = refl
Reach-IsSound (after {b = b} r ev a) =
    fold_type_editor-IsSound b.active_key (handle ev b) (handle-IsSound ev b a (Reach-IsSound r))
