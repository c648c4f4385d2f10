-- ===== src/Gateway/Routes/Guarded.antt =====
-- Who can send through the gateway, and what a reply of success means.
use whatsapp_bots_saa_s.Base.{
  if-lem, ℕ, ◌≡◌, refl, subst, ◌≢◌, Bool, true, false, not, Option, none, some, List, arith,
  if◌then◌else◌,
}
use mathlib.Core.Option.{some-injective}
use whatsapp_bots_saa_s.Text.{Text, codes}
use whatsapp_bots_saa_s.Gateway.Value.{Value}
use whatsapp_bots_saa_s.Gateway.Sending.{Outcome, rejected, sent}
use whatsapp_bots_saa_s.Gateway.Inbound.{nonempty}
use whatsapp_bots_saa_s.Gateway.Lifecycle.{Life, can_send, is_connected}
use whatsapp_bots_saa_s.Gateway.Manager.{Manager, get_session}
use whatsapp_bots_saa_s.Gateway.Routes.{
  HttpReply, failure, gateway_token_valid, send_text, SendRequest, Handed, handed_of, is_missing,
  send_reply, hand_over, send_bot,
}

module _ (sha256 : Text → List ℕ) (token : Text) (deliver : Handed → Outcome) (m : Manager) where
  -- The message comes from a caller with the token, names the business, the receiver and a text that is
  -- not blank, and goes to the session of that business, which is connected.
  pub record IsGuarded (req : SendRequest) (h : Handed) : Type 0 where
    pub authorized : gateway_token_valid sha256 token req.token ≡ true
    pub same : h ≡ handed_of req.body
    pub complete : is_missing h ≡ false
    pub session :
        (s : Life) × (get_session h.business_id m ≡ some s) × (is_connected s.status ≡ true)

  -- WhatsApp has taken the message, and the reply names it.
  abbrev pub IsSent : Handed → HttpReply → Type 0
  IsSent h reply =
      (id : Option Text) × (message : Option Value) × (deliver h ≡ sent id message)
      × (reply.message_id ≡ nonempty id)

  -- Nothing else is handed to a session, and a reply of success tells what was.
  abbrev pub IsAnswer : SendRequest → HttpReply × Option Handed → Type 0
  IsAnswer req r =
      ((h : Handed) → r.1 ≡ some h → IsGuarded req h)
      × (r.0.status ≡ 200 → (h : Handed) × (r.1 ≡ some h) × IsSent h r.0)

  failure-IsAnswer :
      (req : SendRequest) (status : ℕ) (error : Text)
      → status ≢ 200
      → IsAnswer req (failure status error, none)
  failure-IsAnswer req status error n = (λ h e. absurd (no_message h e), λ e. absurd (n e))
    where
      no_message : (h : Handed) → none ≡ some h → ⊥
      no_message h e = cc

  send_reply-IsSent :
      (s : Life) (o : Outcome) (h : Handed)
      → deliver h ≡ o
      → (send_reply (send_text s o)).status ≡ 200
      → IsSent h (send_reply (send_text s o))
  unfolding send_reply send_text
  send_reply-IsSent s rejected h d e = absurd (omega arith)
  send_reply-IsSent s (sent id message) h d e = split (can_send s) e
    where
      split :
          (b : Bool)
          → (send_reply (if b then some (nonempty id) else none)).status ≡ 200
          → IsSent h (send_reply (if b then some (nonempty id) else none))
      split true k = (id, message, d, refl)
      split false k = absurd (omega arith)

  hand_over-IsAnswer :
      (req : SendRequest) (o : Option Life)
      → gateway_token_valid sha256 token req.token ≡ true
      → is_missing (handed_of req.body) ≡ false
      → get_session (handed_of req.body).business_id m ≡ o
      → IsAnswer req (hand_over deliver (handed_of req.body) o)
  unfolding hand_over
  hand_over-IsAnswer req none t c g =
      failure-IsAnswer req 503 (codes "not connected") (λ e. omega arith)
  hand_over-IsAnswer req (some s) t c g =
      let h = handed_of req.body in
      if-lem (IsAnswer req) (not (is_connected s.status))
        (failure 503 (codes "not connected"), none) (send_reply (send_text s (deliver h)), some h)
        (λ e. failure-IsAnswer req 503 (codes "not connected") (λ k. omega arith))
        (λ e. (
          λ k q. subst (IsGuarded req) (some-injective _ _ q) (record {
            authorized = t;
            same = refl;
            complete = c;
            session = (s, g, not_false (is_connected s.status) e);
          }),
          λ k. (h, refl, send_reply-IsSent s (deliver h) h refl k),
        ))
    where
      not_false : (b : Bool) → not b ≡ false → b ≡ true
      not_false b h = ground arith

  -- Through the route a message goes only to the connected session of the business that the request
  -- names, only for a caller with the token, and only with a receiver and a text that is not blank;
  -- and the route replies 200 only if WhatsApp has taken that message.
  pub send_bot-IsAnswer : (req : SendRequest) → IsAnswer req (send_bot sha256 token deliver m req)
  unfolding send_bot
  send_bot-IsAnswer req =
      let h = handed_of req.body in
      let next = hand_over deliver h (get_session h.business_id m) in
      if-lem (IsAnswer req) (not (gateway_token_valid sha256 token req.token))
        (failure 401 (codes "unauthorized"), none)
        (if is_missing h
          then (failure 400 (codes "missing business_id, to or text"), none)
          else next)
        (λ e. failure-IsAnswer req 401 (codes "unauthorized") (λ k. omega arith))
        (λ e.
          if-lem (IsAnswer req) (is_missing h)
            (failure 400 (codes "missing business_id, to or text"), none) next
            (λ f.
              failure-IsAnswer req 400 (codes "missing business_id, to or text") (λ k. omega arith))
            (λ f.
              hand_over-IsAnswer req (get_session h.business_id m)
                (not_false (gateway_token_valid sha256 token req.token) e) f refl))
    where
      not_false : (b : Bool) → not b ≡ false → b ≡ true
      not_false b h = ground arith
