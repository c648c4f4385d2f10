-- ===== src/Conversations/Card/Outcomes.antt =====
-- How ConversationCard.tsx records an outcome.
use whatsapp_bots_saa_s.Base.{
  ◌≡◌, refl, ◌⊎◌, inl, inr, Bool, true, false, ◌||◌, Option, none, some, List, [], ◌∷◌, ◌++◌,
  if◌then◌else◌, is_none,
}
use whatsapp_bots_saa_s.Text.{Text}
use whatsapp_bots_saa_s.Conversations.{Status, closed, Conversation, same_status}
use whatsapp_bots_saa_s.Conversations.Card.{
  Outcome, Card, Request, set_conversation, set_lead, Confirmed, close_conversation, save_outcome,
  confirm_with, confirm_outcome,
}

-- How the card ends once the conversation is to be closed: the dialog goes when the server answers, and
-- the parent is told the status; else it stays, with the error.
pub record IsClosed (outcome : Outcome) (answer : Option Status) (r : Confirmed) : Type 0 where
  pub told : r.told ≡ answer
  pub dialog : r.card.outcome ≡ (if is_none answer then some outcome else none)
  pub error : r.card.outcome_error ≡ is_none answer
  pub free : r.card.busy ≡ false

-- The requests of an outcome, one after the other, and what the answers make of them.
pub data IsRecorded (c : Conversation) (s : Card) (note : Text) (lead_ok : Bool)
    (answer : Option Status) : Confirmed → Type 0 where
  ignored :
      (r : Confirmed)
      → (s.outcome ≡ none) ⊎ ((s.busy || same_status c.status closed) ≡ true)
      → r.requests ≡ []
      → r.told ≡ none
      → r.card ≡ s
      → IsRecorded c s note lead_ok answer r
  lead_failed :
      (r : Confirmed) (lead : Text) (outcome : Outcome)
      → lead_ok ≡ false
      → s.lead ≡ some lead
      → s.outcome ≡ some outcome
      → (s.busy || same_status c.status closed) ≡ false
      → r.requests ≡ set_lead lead outcome note ∷ []
      → r.told ≡ none
      → (r.card.outcome ≡ some outcome) × (r.card.outcome_error ≡ true) × (r.card.busy ≡ false)
      → IsRecorded c s note lead_ok answer r
  with_lead :
      (r : Confirmed) (lead : Text) (outcome : Outcome)
      → lead_ok ≡ true
      → s.lead ≡ some lead
      → s.outcome ≡ some outcome
      → (s.busy || same_status c.status closed) ≡ false
      → r.requests ≡ set_lead lead outcome note ∷ set_conversation c.conversation_id closed ∷ []
      → IsClosed outcome answer r
      → IsRecorded c s note lead_ok answer r
  without_lead :
      (r : Confirmed) (outcome : Outcome)
      → s.lead ≡ none
      → s.outcome ≡ some outcome
      → (s.busy || same_status c.status closed) ≡ false
      → r.requests ≡ set_conversation c.conversation_id closed ∷ []
      → IsClosed outcome answer r
      → IsRecorded c s note lead_ok answer r

close_conversation_lem :
    (made : List Request) (outcome : Outcome) (answer : Option Status) (c : Conversation) (s : Card)
    → s.outcome ≡ some outcome
    → s.outcome_error ≡ false
    → ((close_conversation made answer c s).requests
        ≡ made ++ set_conversation c.conversation_id closed ∷ [])
      × IsClosed outcome answer (close_conversation made answer c s)
unfolding close_conversation
close_conversation_lem made outcome none c s e f =
    (refl, record { told = refl; dialog = e; error = refl; free = refl })
close_conversation_lem made outcome (some status) c s e f =
    (refl, record { told = refl; dialog = refl; error = f; free = refl })

save_outcome-IsRecorded :
    (outcome : Outcome) (note : Text) (lead_ok : Bool) (answer : Option Status) (c : Conversation)
    (o : Option Text) (s : Card)
    → s.lead ≡ o
    → s.outcome ≡ some outcome
    → (s.busy || same_status c.status closed) ≡ false
    → IsRecorded c s note lead_ok answer (
        save_outcome outcome note lead_ok answer c o
          (record s { busy = true; outcome_error = false }))
unfolding save_outcome
save_outcome-IsRecorded outcome note ok answer c none s l e f =
    let (r, k) =
      close_conversation_lem [] outcome answer c (record s { busy = true; outcome_error = false }) e
        refl in
    without_lead _ outcome l e f r k
save_outcome-IsRecorded outcome note true answer c (some lead) s l e f =
    let (r, k) =
      close_conversation_lem (set_lead lead outcome note ∷ []) outcome answer c
        (record s { busy = true; outcome_error = false }) e refl in
    with_lead _ lead outcome refl l e f r k
save_outcome-IsRecorded outcome note false answer c (some lead) s l e f =
    lead_failed _ lead outcome refl l e f refl refl (e, refl, refl)

-- When the owner confirms an outcome: where none was picked, while a request is under way, and on a
-- conversation that is closed, nothing happens. Else the lead, if there is one, is set to the outcome
-- with the note, and if that succeeds, or without a lead, the conversation is closed: with the answer
-- the parent is told the status and the dialog goes. If the first request fails the second is not
-- made, and if either fails the parent is told nothing and the dialog stays with the error. The card
-- is free again in each of these cases.
pub confirm_outcome-IsRecorded :
    (note : Text) (lead_ok : Bool) (answer : Option Status) (c : Conversation) (s : Card)
    → IsRecorded c s note lead_ok answer (confirm_outcome note lead_ok answer c s)
unfolding confirm_outcome
confirm_outcome-IsRecorded note ok answer c s = go s.outcome refl
  where
    go :
        (o : Option Outcome)
        → s.outcome ≡ o
        → IsRecorded c s note ok answer (confirm_with o note ok answer c s)
    go none e = ignored _ (inl e) refl refl refl
    go (some outcome) e = split (s.busy || same_status c.status closed) refl
      where
        split :
            (b : Bool)
            → (s.busy || same_status c.status closed) ≡ b
            → IsRecorded c s note ok answer (
                if b
                then record { requests = []; told = none; card = s }
                else save_outcome outcome note ok answer c s.lead
                    (record s { busy = true; outcome_error = false }))
        split true f = ignored _ (inr f) refl refl refl
        split false f = save_outcome-IsRecorded outcome note ok answer c s.lead s refl e f
