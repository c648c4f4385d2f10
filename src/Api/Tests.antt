-- ===== src/Api/Tests.antt =====
-- The errors of lib/apiClient.ts and lib/friendlyError.ts at concrete inputs.
use whatsapp_bots_saa_s.Base.{◌≡◌, refl, true, none}
use whatsapp_bots_saa_s.Text.{codes, includes, starts_with, text_eq}
use whatsapp_bots_saa_s.Text.Decimal.{show, digits_fuel}
use whatsapp_bots_saa_s.Api.{
  null, str, obj, nil, field, field?, ApiError, detail, detail_text, body_detail, demo_word,
  is_demo_blocked, response, aborted, no_content, thrown, is_ok, parse_body, network_error, request,
}

abbrev conflict : ApiError
conflict = record { status = 409; message = codes "HTTP 409"; body = null }

abbrev offline : ApiError
offline = record { status = 0; message = codes "timeout"; body = null }

abbrev demo_refusal : ApiError
demo_refusal = record {
  status = 403;
  message = codes "HTTP 403";
  body = obj (field (codes "detail") (str demo_word) nil);
}

request_tests :
    (request (response 409 none) ≡ thrown conflict)
    × (request (response 204 none) ≡ no_content)
    × (request aborted ≡ thrown offline)
    × (is_demo_blocked demo_refusal ≡ true)
unfolding request is_ok parse_body network_error show digits_fuel is_demo_blocked detail body_detail
    detail_text field? includes starts_with text_eq
request_tests = (refl, refl, refl, refl)
