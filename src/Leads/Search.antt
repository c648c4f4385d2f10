-- ===== src/Leads/Search.antt =====
-- What the search of leadSearch.ts finds, against a description of the searchable texts.
use whatsapp_bots_saa_s.Base.{
  ◌≡◌, refl, sym, subst, ◌↔◌, inl, inr, Bool, true, false, ◌||◌, some, arith, Bool-cases, is_empty,
}
use mathlib.Core.Option.{some-injective}
use whatsapp_bots_saa_s.Text.{Text}
use whatsapp_bots_saa_s.Leads.{Lead, norm, field_matches, hits, answers_match, lead_matches}
use whatsapp_bots_saa_s.Leads.Haystack.{
  Searchable, by_contact, by_phone, by_flow, by_note, by_key, by_answer, answer-finds,
  answers-found, answers-finds, field-found, field-finds,
}

-- The part of `leadMatches` after the test for an empty query.
abbrev some_match : (Text → Text) → Text → Lead → Bool
some_match lower needle lead =
    field_matches lower needle lead.contact_name
    || field_matches lower needle lead.phone
    || field_matches lower needle (some lead.lead_name)
    || field_matches lower needle lead.outcome_note
    || answers_match lower needle lead.answers

some_match-found :
    (lower : Text → Text) (needle : Text) (lead : Lead)
    → some_match lower needle lead ≡ true
    → (t : Text) × Searchable lead t × (hits lower needle t ≡ true)
some_match-found lower needle lead h =
    elim (Bool-cases (field_matches lower needle lead.contact_name)) [
      | inl a ↦
          let (t, e, m) = field-found lower needle lead.contact_name a in (t, by_contact t e, m)
      | inr na ↦ elim (Bool-cases (field_matches lower needle lead.phone)) [
        | inl b ↦ let (t, e, m) = field-found lower needle lead.phone b in (t, by_phone t e, m)
        | inr nb ↦ elim (Bool-cases (field_matches lower needle (some lead.lead_name))) [
          | inl c ↦
              let (t, e, m) = field-found lower needle (some lead.lead_name) c in
              (
                lead.lead_name,
                by_flow,
                subst (λ x. hits lower needle x ≡ true) (sym (some-injective _ _ e)) m,
              )
          | inr nc ↦ elim (Bool-cases (field_matches lower needle lead.outcome_note)) [
            | inl d ↦
                let (t, e, m) = field-found lower needle lead.outcome_note d in (t, by_note t e, m)
            | inr nd ↦
                let (i, key, value, at, r) =
                  answers-found lower needle lead.answers (ground (arith, na, nb, nc, nd)) in
                elim r [
                  | inl hit ↦ (key, by_key i key value at, hit)
                  | inr (t, w, m) ↦ (t, by_answer i key t value at w, m)
                ]
          ]
        ]
      ]
    ]

some_match-finds :
    (lower : Text → Text) (needle : Text) (lead : Lead) (t : Text)
    → Searchable lead t
    → hits lower needle t ≡ true
    → some_match lower needle lead ≡ true
some_match-finds lower needle lead _ (by_contact t e) m =
    ground (arith, field-finds lower needle lead.contact_name t e m)
some_match-finds lower needle lead _ (by_phone t e) m =
    ground (arith, field-finds lower needle lead.phone t e m)
some_match-finds lower needle lead _ by_flow m =
    ground (arith, field-finds lower needle (some lead.lead_name) lead.lead_name refl m)
some_match-finds lower needle lead _ (by_note t e) m =
    ground (arith, field-finds lower needle lead.outcome_note t e m)
some_match-finds lower needle lead _ (by_key i t value at) m =
    ground (arith, answers-finds lower needle lead.answers i t value at (inl m))
some_match-finds lower needle lead _ (by_answer i key t value at w) m = ground (
  arith,
  answers-finds lower needle lead.answers i key value at
      (inr (answer-finds lower needle value t w m)),
)

-- A lead matches a query that is not blank exactly when one of its searchable texts holds it, both
-- normalized: the contact's name, the phone, the flow's name, the note, a key of the answers, an
-- answer's text, or the name of a file. A query that is normalized to nothing matches every lead.
pub lead_matches_iff :
    (lower : Text → Text) (lead : Lead) (query : Text)
    → (is_empty (norm lower query) ≡ true → lead_matches lower lead query ≡ true)
      × (is_empty (norm lower query) ≡ false
          → (lead_matches lower lead query ≡ true)
            ↔ ((t : Text) × Searchable lead t × (hits lower (norm lower query) t ≡ true)))
unfolding lead_matches
lead_matches_iff lower lead query = (
  λ h. rw h refl,
  λ h. rw h (
    (λ m. some_match-found lower (norm lower query) lead m),
    (λ (t, w, m). some_match-finds lower (norm lower query) lead t w m),
  ),
)
