-- ===== src/Api/Laws.antt =====
-- What a caller of apiClient.ts can rely on when a request fails.
use whatsapp_bots_saa_s.Base.{
  ◌<◌, ◌≡◌, ◌≢◌, ◌↔◌, ◌⊎◌, inl, inr, false, Option, none, arith, Option-cases,
}
use whatsapp_bots_saa_s.Api.{
  ApiError, Json, null, detail, Fetched, response, aborted, failed, thrown, is_ok, request,
  api_error, fallback, to_friendly_error,
}

-- A request throws exactly when the response is not 2xx, or when there is none; the error then
-- carries the response's status, and 0 stands for no response.
pub request_thrown :
    (f : Fetched) (e : ApiError)
    → request f ≡ thrown e
    → (((body : Option Json) × (f ≡ response e.status body) × (is_ok e.status ≡ false))
        ⊎ ((e.status ≡ 0) × ((f ≡ aborted) ⊎ (f ≡ failed)) × (e.body ≡ null)))
unfolding request
request_thrown (response status body) e h = inl (body, ground arith, ground arith)
request_thrown aborted e h = inr (ground arith)
request_thrown failed e h = inr (ground arith)

-- Which failures are told by the caller's own fallback: all that are not a lost session, a refusal
-- with an explanation, a lost connection, invalid data or trouble in the server.
pub to_friendly_error-fallback_iff :
    (e : ApiError)
    → (to_friendly_error (api_error e) ≡ fallback) ↔ (
        (e.status ≢ 401)
        × (e.status ≢ 0)
        × (e.status ≢ 422)
        × (e.status < 500)
        × (e.status ≡ 403 → detail e ≡ none))
unfolding to_friendly_error
to_friendly_error-fallback_iff e = elim (Option-cases (detail e)) [
  | inl p ↦ ground arith
  | inr (s, p) ↦ ground arith
]
