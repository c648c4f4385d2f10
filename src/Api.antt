-- ===== src/Api.antt =====
-- frontend/src/lib/apiClient.ts and friendlyError.ts: one request, its failures, and how a failure is
-- told to the user. `fetch` is the browser's: what it comes back with is an argument.
mod Tests
pub mod Laws
use whatsapp_bots_saa_s.Base.{
  ℕ, Bool, true, false, not, ◌&&◌, Option, none, some, [], ◌∷◌, ◌++◌, leb, ◌==◌, if◌then◌else◌,
  get_or_else, is_none, ℤ,
}
use whatsapp_bots_saa_s.Text.{Text, codes, includes, text_eq}
use whatsapp_bots_saa_s.Text.Decimal.{show}

-- A parsed JSON body. The numbers and the elements of an array are never read.
mutual
  pub data Json : Type 0 where
    null : Json
    bool : Bool → Json
    num : ℤ → Json
    str : Text → Json
    arr : Json
    obj : Fields → Json

  pub data Fields : Type 0 where
    nil : Fields
    field : Text → Json → Fields → Fields

-- `key in o` and `o[key]`.
unfoldable pub field? : Text → Fields → Option Json
unfolding text_eq
field? key nil = none
field? key (field k v fs) = let rest = field? key fs in if text_eq k key then some v else rest

pub record ApiError : Type 0 where
  pub status : ℕ
  pub message : Text
  pub body : Json

unfoldable pub is_unauthorized : ApiError → Bool
is_unauthorized e = e.status == 401

-- A `detail` that is a string and not empty.
unfoldable pub detail_text : Option Json → Option Text
detail_text (some (str (c ∷ s))) = some (c ∷ s)
detail_text (some (str [])) = none
detail_text (some null) = none
detail_text (some (bool b)) = none
detail_text (some (num n)) = none
detail_text (some arr) = none
detail_text (some (obj fs)) = none
detail_text none = none

unfoldable pub body_detail : Json → Option Text
unfolding detail_text field?
body_detail (obj fs) = detail_text (field? (codes "detail") fs)
body_detail null = none
body_detail (bool b) = none
body_detail (num n) = none
body_detail (str s) = none
body_detail arr = none

unfoldable pub detail : ApiError → Option Text
detail e = body_detail e.body

-- The word of three letters that the demo guard's explanation holds.
abbrev pub demo_word : Text
demo_word = (0x5d3 ∷ 0x5de ∷ 0x5d5 ∷ [])

abbrev pub option_includes : Option Text → Text → Bool
option_includes none word = false
option_includes (some s) word = includes s word

unfoldable pub is_demo_blocked : ApiError → Bool
is_demo_blocked e = e.status == 403 && option_includes (detail e) demo_word

pub data Method : Type 0 where
  get post put patch delete : Method

-- What `request` hands to `fetch` beside the path and the abort signal.
pub record Init : Type 0 where
  pub method : Method
  pub body : Option Json
  pub include_cookie : Bool
  pub accept_json : Bool
  pub content_type_json : Bool

unfoldable pub init_of : Method → Option Json → Init
init_of method none = record {
  method = method;
  body = none;
  include_cookie = true;
  accept_json = true;
  content_type_json = false;
}
init_of method (some body) = record {
  method = method;
  body = some body;
  include_cookie = true;
  accept_json = true;
  content_type_json = true;
}

-- How `fetch` ends: with a response, whose body is JSON or not; aborted by the timer; or in any other
-- failure.
pub data Fetched : Type 0 where
  response : ℕ → Option Json → Fetched
  aborted failed : Fetched

-- A call's result: no content (`undefined`), a parsed body, or the error thrown.
pub data Reply : Type 0 where
  no_content : Reply
  content : Json → Reply
  thrown : ApiError → Reply

unfoldable pub parse_body : Option Json → Json
parse_body none = null
parse_body (some body) = body

-- `res.ok`.
unfoldable pub is_ok : ℕ → Bool
is_ok status = leb 200 status && leb status 299

unfoldable pub network_error : Text → Reply
network_error reason = thrown (record { status = 0; message = reason; body = null })

unfoldable pub request : Fetched → Reply
unfolding is_ok parse_body network_error
request (response status body) =
    if is_ok status
    then if status == 204 then no_content else content (parse_body body)
    else thrown
        (record { status = status; message = codes "HTTP " ++ show status; body = parse_body body })
request aborted = network_error (codes "timeout")
request failed = network_error (codes "unreachable")

-- Anything that a caller may catch.
pub data Caught : Type 0 where
  api_error : ApiError → Caught
  other_error : Caught

-- The sentences of `toFriendlyError`.
pub data Sentence : Type 0 where
  session_expired no_connection invalid_data server_trouble : Sentence
  server_says : Text → Sentence
  fallback : Sentence

unfoldable pub friendly_api : ApiError → Sentence
friendly_api e =
    if e.status == 401
    then session_expired
    else if e.status == 403 && not (is_none (detail e))
    then server_says (get_or_else (detail e) [])
    else if e.status == 0
    then no_connection
    else if e.status == 422
    then invalid_data
    else if leb 500 e.status
    then server_trouble
    else fallback

unfoldable pub to_friendly_error : Caught → Sentence
unfolding friendly_api
to_friendly_error (api_error e) = friendly_api e
to_friendly_error other_error = fallback
