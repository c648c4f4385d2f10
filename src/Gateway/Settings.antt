-- ===== src/Gateway/Settings.antt =====
-- gateway/src/config.js: the configuration, which is refused without a real secret. The environment is
-- an argument, and so is the base of the backend's address that internalApi.js makes of it.
pub mod Secrets
use whatsapp_bots_saa_s.Base.{
  ℕ, ◌||◌, Option, none, some, List, [], ◌∷◌, ◌++◌, if◌then◌else◌, get_or_else, is_empty,
}
use whatsapp_bots_saa_s.Text.{Text, codes, text_eq, mem_text, trim, to_lower}
use whatsapp_bots_saa_s.Gateway.Value.{number_of_text}
use whatsapp_bots_saa_s.Gateway.Contract.{or_text, nonzero}

pub record Settings : Type 0 where
  pub port : ℕ
  pub gateway_api_token : Text
  pub backend_base_url : Text
  pub backend_webhook_url : Text
  pub session_poll_ms : ℕ
  pub log_level : Text

abbrev pub placeholders : List Text
placeholders = codes "change-me" ∷ codes "changeme" ∷ codes "my-secret-token" ∷ []

-- `none` is the exception.
unfoldable pub required : Text → Option Text
unfolding mem_text to_lower
required value =
    if is_empty value
    then none
    else if mem_text (to_lower value) placeholders
    then none
    else some value

unfoldable pub env_text : (Text → Option Text) → Text → Text
unfolding trim
env_text env name = trim (get_or_else (env name) [])

unfoldable pub require_env : (Text → Option Text) → Text → Option Text
unfolding required env_text
require_env env name = required (env_text env name)

abbrev pub webhook_path : Text
webhook_path = codes "/webhook/whatsapp"

-- `replace(/\/webhook\/whatsapp\/?$/, '')`.
unfoldable pub strip_webhook : Text → Text
unfolding text_eq
strip_webhook [] = []
strip_webhook (c ∷ s) =
    let rest = strip_webhook s in
    if text_eq (c ∷ s) webhook_path || text_eq (c ∷ s) (webhook_path ++ b'/' ∷ [])
    then []
    else c ∷ rest

-- `replace(/\/$/, '')`.
unfoldable pub strip_slash : Text → Text
unfolding text_eq
strip_slash [] = []
strip_slash (c ∷ s) =
    let rest = strip_slash s in if text_eq (c ∷ s) (b'/' ∷ []) then [] else c ∷ rest

-- `Number(process.env[name]) || d`.
unfoldable pub env_number : (Text → Option Text) → Text → ℕ → ℕ
unfolding nonzero number_of_text
env_number env name d = number_or (env name)
  where
    number_or : Option Text → ℕ
    number_or none = d
    number_or (some s) = get_or_else (nonzero (number_of_text s)) d

unfoldable pub base_url : (Text → Option Text) → Text
unfolding or_text env_text strip_webhook
base_url env = or_text (env_text env (codes "BACKEND_BASE_URL")) (
    or_text (strip_webhook (env_text env (codes "BACKEND_WEBHOOK_URL")))
      (codes "http://backend:8000"))

unfoldable pub settings_of : (Text → Option Text) → Text → Settings
unfolding base_url or_text env_text env_number
settings_of env token = record {
  port = env_number env (codes "PORT") 3000;
  gateway_api_token = token;
  backend_base_url = base_url env;
  backend_webhook_url =
      or_text (env_text env (codes "BACKEND_WEBHOOK_URL")) (base_url env ++ webhook_path);
  session_poll_ms = env_number env (codes "SESSION_POLL_MS") 15000;
  log_level = or_text (env_text env (codes "LOG_LEVEL")) (codes "info");
}

unfoldable pub with_token : (Text → Option Text) → Option Text → Option Settings
unfolding settings_of
with_token env none = none
with_token env (some token) = some (settings_of env token)

unfoldable pub load_config : (Text → Option Text) → Option Settings
unfolding require_env with_token
load_config env = with_token env (require_env env (codes "GATEWAY_API_TOKEN"))
