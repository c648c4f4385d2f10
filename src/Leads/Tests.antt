-- ===== src/Leads/Tests.antt =====
-- The search of leadSearch.ts at a concrete lead.
use whatsapp_bots_saa_s.Base.{
  ℕ, ◌+◌, ◌≡◌, refl, ◌↔◌, true, false, ◌&&◌, none, some, [], ◌∷◌, map, leb, if◌then◌else◌, is_empty,
}
use whatsapp_bots_saa_s.Text.{
  Text, codes, text_eq, includes, starts_with, trim, trim_start, trim_end, keep_unless_blank,
  is_space, is_digit,
}
use whatsapp_bots_saa_s.Leads.{
  AnswerValue, written, many_files, Lead, in_progress, file_answers, file_names, answer_haystack,
  norm, field_matches, hits, answers_match, lead_matches, visible_leads,
}
use whatsapp_bots_saa_s.Leads.Haystack.{Searchable}
use whatsapp_bots_saa_s.Leads.Contact.{digits_of, international, wa_link}
use whatsapp_bots_saa_s.Leads.Search.{lead_matches_iff}

abbrev lower_code : ℕ → ℕ
lower_code c = if leb 65 c && leb c 90 then c + 32 else c

abbrev lower : Text → Text
lower s = map lower_code s

abbrev photos : AnswerValue
photos = many_files (
    record { file_id = codes "f1"; mime_type = codes "image/png"; name = none }
    ∷ record { file_id = codes "f2"; mime_type = codes "image/png"; name = some (codes "Roof.png") }
    ∷ [])

abbrev ann : Lead
ann = record {
  id = codes "l1";
  lead_name = codes "Quote";
  contact_name = some (codes "Ann");
  phone = none;
  answers = (codes "city", written (codes "Haifa")) ∷ (codes "photos", photos) ∷ [];
  status = in_progress;
  close_reason = none;
  outcome_note = none;
  last_step_index = 1;
  is_test = false;
  conversation_id = none;
  started_at = none;
  last_activity_at = none;
  submitted_at = none;
  feed_seen_at = none;
}

search_tests :
    (lead_matches lower ann (codes " ROOF ") ≡ true)
    × (lead_matches lower ann (codes "haif") ≡ true)
    × (lead_matches lower ann (codes "f2") ≡ false)
    × (lead_matches lower ann (codes "  ") ≡ true)
    × (visible_leads lower (ann ∷ []) (codes "f2") ≡ [])
unfolding lead_matches visible_leads norm field_matches answers_match hits answer_haystack
    file_answers file_names includes starts_with text_eq trim trim_start trim_end keep_unless_blank
    is_space
search_tests = (refl, refl, refl, refl, refl)

lead_matches_example :
    (is_empty (norm lower (codes " ROOF ")) ≡ true → lead_matches lower ann (codes " ROOF ") ≡ true)
    × (is_empty (norm lower (codes " ROOF ")) ≡ false
        → (lead_matches lower ann (codes " ROOF ") ≡ true)
          ↔ ((t : Text) × Searchable ann t × (hits lower (norm lower (codes " ROOF ")) t ≡ true)))
lead_matches_example = lead_matches_iff lower ann (codes " ROOF ")

wa_link_tests : wa_link (some (codes "052-123 4567")) ≡ some (codes "https://wa.me/972521234567")
unfolding wa_link digits_of international is_digit
wa_link_tests = refl
