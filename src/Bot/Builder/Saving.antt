-- ===== src/Bot/Builder/Saving.antt =====
-- Edits of BotBuilderPage.tsx made while a save is under way.
use whatsapp_bots_saa_s.Base.{
  ◌<◌, ◌≡◌, refl, ap, ◌∙◌, true, false, some, [], arith, leb, if◌then◌else◌, get_or_else, length,
}
use whatsapp_bots_saa_s.Text.{Text, codes}
use whatsapp_bots_saa_s.Dict.{keys}
use whatsapp_bots_saa_s.Bot.Config.{BotSettings, RawSettings, max_flows}
use whatsapp_bots_saa_s.Bot.Config.UniqueKey.{unique_key_fresh}
use whatsapp_bots_saa_s.Bot.Builder.{
  Builder, add, save_ok, mutate, add_flow, on_config, with_config, handle,
}
use whatsapp_bots_saa_s.Bot.Builder.ActiveTab.{flow_keys, tab_in, keys-normalize_settings}

handle-add :
    (now : Text) (b : Builder) (c : BotSettings)
    → b.config ≡ some c
    → length (keys c.lead_steps) < max_flows
    → handle (add now) b ≡ add_flow now c b
unfolding handle with_config on_config
handle-add now b c hc few =
    let room : leb max_flows (length (keys c.lead_steps)) ≡ false = ground arith in
    ap
      (λ o.
        on_config o
          (λ c' b'. if leb max_flows (length (keys c'.lead_steps)) then b' else add_flow now c' b')
          b)
      hc
    ∙ rw room

save_ok-after_add :
    (now : Text) (b : Builder) (c : BotSettings) (result : RawSettings)
    → length (keys c.lead_steps) < max_flows
    → keys (get_or_else result.lead_steps []) ≡ keys c.lead_steps
    → tab_in
        (flow_keys (handle (save_ok result) (add_flow now c b)).config)
        (handle (save_ok result) (add_flow now c b)).active_key
      ≡ false
unfolding handle add_flow mutate
save_ok-after_add now b c result few same =
    rw (keys-normalize_settings result, same)
      (unique_key_fresh now (codes "flow") (keys c.lead_steps) (omega arith) (omega arith))

-- A flow that is added to fewer than 20 while a save is under way is lost when the save ends: the server answers
-- with the flows that it was sent, the page takes them for its own and says that all is saved,
-- and the open tab is no flow any more.
pub save_ok_drops_added_flow :
    (now : Text) (b : Builder) (c : BotSettings) (result : RawSettings)
    → b.config ≡ some c
    → length (keys c.lead_steps) < max_flows
    → keys (get_or_else result.lead_steps []) ≡ keys c.lead_steps
    → (flow_keys (handle (save_ok result) (handle (add now) b)).config ≡ some (keys c.lead_steps))
      × (tab_in
            (flow_keys (handle (save_ok result) (handle (add now) b)).config)
            (handle (save_ok result) (handle (add now) b)).active_key
          ≡ false)
      × ((handle (save_ok result) (handle (add now) b)).saved ≡ true)
save_ok_drops_added_flow now b c result hc few same = rw (handle-add now b c hc few) (
  unfold handle in ap some (keys-normalize_settings result ∙ same),
  save_ok-after_add now b c result few same,
  unfold handle in refl,
)
