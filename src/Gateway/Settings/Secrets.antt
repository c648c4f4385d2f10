-- ===== src/Gateway/Settings/Secrets.antt =====
-- The secret that gateway/src/config.js requires, and the addresses that it derives.
use whatsapp_bots_saa_s.Base.{
  ℕ, ◌≡◌, refl, sym, ap, subst, ◌≢◌, inl, inr, Bool, false, Option, none, some, [], ◌∷◌, ◌++◌,
  arith, if◌then◌else◌, Bool-cases, length, is_empty, length-append,
}
use mathlib.Core.Option.{some-injective}
use whatsapp_bots_saa_s.Text.{Text, codes, text_eq, mem_text, to_lower}
use whatsapp_bots_saa_s.Text.Laws.{text_eq→eq}
use whatsapp_bots_saa_s.Gateway.Settings.{
  Settings, placeholders, required, env_text, require_env, webhook_path, strip_webhook, settings_of,
  with_token, load_config,
}

required_lem :
    (value token : Text)
    → required value ≡ some token
    → (token ≡ value) × (is_empty value ≡ false) × (mem_text (to_lower value) placeholders ≡ false)
unfolding required
required_lem value token h = guarded (is_empty value) (mem_text (to_lower value) placeholders) h
  where
    guarded :
        (a b : Bool)
        → (if a then none else if b then none else some value) ≡ some token
        → (token ≡ value) × (a ≡ false) × (b ≡ false)
    guarded a b k = ground arith

IsSecret : Text → Text → Type 0
IsSecret value token =
    (token ≡ value) × (is_empty token ≡ false) × (mem_text (to_lower token) placeholders ≡ false)

required-IsSecret : (value token : Text) → required value ≡ some token → IsSecret value token
unfolding IsSecret
required-IsSecret value token h =
    let (e, f, g) = required_lem value token h in
    (
      e,
      subst (λ t. is_empty t ≡ false) (sym e) f,
      subst (λ t. mem_text (to_lower t) placeholders ≡ false) (sym e) g,
    )

with_token-token :
    (env : Text → Option Text) (o : Option Text) (c : Settings)
    → with_token env o ≡ some c
    → o ≡ some c.gateway_api_token
unfolding with_token settings_of
with_token-token env none c h = cc
with_token-token env (some t) c h =
    ap (λ d. some d.gateway_api_token) (some-injective (settings_of env t) c h)

-- The gateway has a configuration only if the environment sets its secret: to a text that is neither
-- blank nor, in any case of its letters, a placeholder; and that text, trimmed, is the secret.
pub load_config_lem :
    (env : Text → Option Text) (c : Settings)
    → load_config env ≡ some c
    → (c.gateway_api_token ≡ env_text env (codes "GATEWAY_API_TOKEN"))
      × (is_empty c.gateway_api_token ≡ false)
      × (mem_text (to_lower c.gateway_api_token) placeholders ≡ false)
unfolding load_config require_env IsSecret
load_config_lem env c h =
    required-IsSecret (env_text env (codes "GATEWAY_API_TOKEN")) c.gateway_api_token
      (with_token-token env (required (env_text env (codes "GATEWAY_API_TOKEN"))) c h)

text_eq-length : (s t : Text) → length s ≢ length t → text_eq s t ≡ false
text_eq-length s t n = elim (Bool-cases (text_eq s t)) [
  | inl e ↦ absurd (n (ap length (text_eq→eq s t e)))
  | inr e ↦ e
]

no_path : (c : ℕ) (b : Text) → text_eq (c ∷ b ++ webhook_path) webhook_path ≡ false
no_path c b =
    text_eq-length (c ∷ b ++ webhook_path) webhook_path
      (λ e. omega (arith, e, length-append b webhook_path))

no_path_slash :
    (c : ℕ) (b : Text) → text_eq (c ∷ b ++ webhook_path) (webhook_path ++ b'/' ∷ []) ≡ false
unfolding text_eq
no_path_slash c [] = ground arith
no_path_slash c (d ∷ b) =
    text_eq-length (c ∷ d ∷ b ++ webhook_path) (webhook_path ++ b'/' ∷ [])
      (λ e. omega (arith, e, length-append b webhook_path))

-- The base of the backend's address is what stands before the path in the webhook's address.
pub strip_webhook-append : (b : Text) → strip_webhook (b ++ webhook_path) ≡ b
unfolding strip_webhook
strip_webhook-append [] = refl
strip_webhook-append (c ∷ b) =
    rw (no_path c b, no_path_slash c b) (ap (λ r. c ∷ r) (strip_webhook-append b))
