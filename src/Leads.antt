-- ===== src/Leads.antt =====
-- The leads of the dashboard: their type (frontend/src/dashboard/types.ts), the search over them
-- (dashboard/leadSearch.ts, with `fileAnswers` of components/dashboard/AnswerValue.tsx) and what
-- pages/LeadsPage.tsx makes of the lists. `lower` stands for `toLowerCase`.
pub mod Haystack
pub mod Search
pub mod Contact
pub mod Page
mod Tests
mod PageTests
use whatsapp_bots_saa_s.Base.{
  ℕ, Bool, false, ◌||◌, Option, none, some, List, [], ◌∷◌, if◌then◌else◌, get_or_else, any,
  filter_by, is_empty,
}
use whatsapp_bots_saa_s.Text.{Text, trim, includes}

pub data LeadStatus : Type 0 where
  new in_progress abandoned deal closed : LeadStatus

pub data CloseReason : Type 0 where
  completed : CloseReason
  left : CloseReason
  answered : CloseReason

pub record FileAnswer : Type 0 where
  pub file_id : Text
  pub mime_type : Text
  pub name : Option Text

pub data AnswerValue : Type 0 where
  written : Text → AnswerValue
  one_file : FileAnswer → AnswerValue
  many_files : List FileAnswer → AnswerValue

abbrev pub Answers : Type 0
Answers = List (Text × AnswerValue)

pub record Lead : Type 0 where
  pub id : Text
  pub lead_name : Text
  pub contact_name : Option Text
  pub phone : Option Text
  pub answers : Answers
  pub status : LeadStatus
  pub close_reason : Option CloseReason
  pub outcome_note : Option Text
  pub last_step_index : ℕ
  pub is_test : Bool
  pub conversation_id : Option Text
  pub started_at : Option Text
  pub last_activity_at : Option Text
  pub submitted_at : Option Text
  pub feed_seen_at : Option Text

unfoldable pub file_answers : AnswerValue → List FileAnswer
file_answers (written s) = []
file_answers (one_file f) = f ∷ []
file_answers (many_files fs) = fs

-- The names of the files, without the missing and the empty ones.
unfoldable pub file_names : List FileAnswer → List Text
file_names [] = []
file_names (f ∷ fs) =
    let rest = file_names fs in
    if is_empty (get_or_else f.name []) then rest else get_or_else f.name [] ∷ rest

abbrev pub written_text : AnswerValue → List Text
written_text (written s) = s ∷ []
written_text (one_file f) = []
written_text (many_files fs) = []

unfoldable pub answer_haystack : AnswerValue → List Text
answer_haystack value =
    let files = file_answers value in
    if is_empty files then written_text value else file_names files

module _ (lower : Text → Text) where
  unfoldable pub norm : Text → Text
  norm value = lower (trim value)

  unfoldable pub field_matches : Text → Option Text → Bool
  unfolding norm
  field_matches needle none = false
  field_matches needle (some field) = includes (norm field) needle

  -- `includes` on the normalized text.
  unfoldable pub hits : Text → Text → Bool
  unfolding norm
  hits needle t = includes (norm t) needle

  unfoldable pub answers_match : Text → Answers → Bool
  unfolding hits answer_haystack
  answers_match needle [] = false
  answers_match needle ((key, value) ∷ answers) =
      let rest = answers_match needle answers in
      hits needle key || any (hits needle) (answer_haystack value) || rest

  unfoldable pub lead_matches : Lead → Text → Bool
  unfolding norm field_matches answers_match
  lead_matches lead query =
      let needle = norm query in
      is_empty needle
      || field_matches needle lead.contact_name
      || field_matches needle lead.phone
      || field_matches needle (some lead.lead_name)
      || field_matches needle lead.outcome_note
      || answers_match needle lead.answers

  -- The list on the page: the leads that match the trimmed query, if there is one.
  unfoldable pub visible_leads : List Lead → Text → List Lead
  unfolding lead_matches
  visible_leads leads query =
      if is_empty (trim query) then leads else filter_by (λ l. lead_matches l (trim query)) leads
