-- ===== src/Leads/Haystack.antt =====
-- The texts that a lead is searched by, and how the parts of `leadMatches` go through them.
use whatsapp_bots_saa_s.Base.{
  ℕ, zero, suc, ◌≡◌, refl, sym, ap, ◌∙◌, subst, ◌⊎◌, inl, inr, true, false, ◌||◌, Option, none,
  some, List, [], ◌∷◌, arith, if◌then◌else◌, Bool-cases, get_or_else, get_elem?, any, is_empty,
}
use mathlib.Core.Bool.{false≢true}
use mathlib.Core.Option.{some-injective}
use whatsapp_bots_saa_s.Text.{Text}
use whatsapp_bots_saa_s.Leads.{
  FileAnswer, AnswerValue, written, one_file, many_files, Answers, Lead, file_answers, file_names,
  answer_haystack, field_matches, hits, answers_match,
}

-- A file of an answer.
pub data HasFile : AnswerValue → FileAnswer → Type 0 where
  alone : (f : FileAnswer) → HasFile (one_file f) f
  among :
      (fs : List FileAnswer) (i : ℕ) (f : FileAnswer)
      → get_elem? fs i ≡ some f
      → HasFile (many_files fs) f

-- A text that an answer is searched by: what was written, or the name of a file, if it has one.
pub data InAnswer : AnswerValue → Text → Type 0 where
  as_written : (t : Text) → InAnswer (written t) t
  as_name :
      (value : AnswerValue) (f : FileAnswer) (t : Text)
      → HasFile value f
      → f.name ≡ some t
      → is_empty t ≡ false
      → InAnswer value t

-- A text that a lead is searched by.
pub data Searchable (lead : Lead) : Text → Type 0 where
  by_contact : (t : Text) → lead.contact_name ≡ some t → Searchable lead t
  by_phone : (t : Text) → lead.phone ≡ some t → Searchable lead t
  by_flow : Searchable lead lead.lead_name
  by_note : (t : Text) → lead.outcome_note ≡ some t → Searchable lead t
  by_key :
      (i : ℕ) (t : Text) (value : AnswerValue)
      → get_elem? lead.answers i ≡ some (t, value)
      → Searchable lead t
  by_answer :
      (i : ℕ) (key t : Text) (value : AnswerValue)
      → get_elem? lead.answers i ≡ some (key, value)
      → InAnswer value t
      → Searchable lead t

-- The names with one more in front, if it is there and not empty.
abbrev named : Option Text → List Text → List Text
named o rest = if is_empty (get_or_else o []) then rest else get_or_else o [] ∷ rest

module _ (lower : Text → Text) (needle : Text) where
  named-found :
      (o : Option Text) (rest : List Text)
      → any (hits lower needle) (named o rest) ≡ true
      → ((t : Text) × (o ≡ some t) × (is_empty t ≡ false) × (hits lower needle t ≡ true))
        ⊎ (any (hits lower needle) rest ≡ true)
  named-found none rest h = inr h
  named-found (some []) rest h = inr h
  named-found (some (c ∷ t)) rest h = elim (Bool-cases (hits lower needle (c ∷ t))) [
    | inl hit ↦ inl (c ∷ t, refl, refl, hit)
    | inr miss ↦ inr (ground (arith, miss))
  ]

  named-finds :
      (o : Option Text) (rest : List Text) (t : Text)
      → o ≡ some t
      → is_empty t ≡ false
      → hits lower needle t ≡ true
      → any (hits lower needle) (named o rest) ≡ true
  named-finds none rest t h e m = cc
  named-finds (some []) rest t h e m =
      absurd (false≢true (sym e ∙ ap is_empty (sym (some-injective _ _ h))))
  named-finds (some (c ∷ r)) rest t h e m =
      let hit : hits lower needle (c ∷ r) ≡ true =
        subst (λ x. hits lower needle x ≡ true) (sym (some-injective _ _ h)) m in
      ground (arith, hit)

  named-rest :
      (o : Option Text) (rest : List Text)
      → any (hits lower needle) rest ≡ true
      → any (hits lower needle) (named o rest) ≡ true
  named-rest none rest h = h
  named-rest (some []) rest h = h
  named-rest (some (c ∷ t)) rest h = ground (arith, h)

  file_names-found :
      (fs : List FileAnswer)
      → any (hits lower needle) (file_names fs) ≡ true
      → (i : ℕ) × (f : FileAnswer) × (t : Text) × (get_elem? fs i ≡ some f)
        × (f.name ≡ some t)
        × (is_empty t ≡ false)
        × (hits lower needle t ≡ true)
  unfolding file_names
  file_names-found [] h = absurd (false≢true h)
  file_names-found (f ∷ fs) h = elim (named-found f.name (file_names fs) h) [
    | inl (t, n, e, m) ↦ (0, f, t, refl, n, e, m)
    | inr later ↦
        let (i, g, t, at, n, e, m) = file_names-found fs later in (suc i, g, t, at, n, e, m)
  ]

  file_names-finds :
      (fs : List FileAnswer) (i : ℕ) (f : FileAnswer) (t : Text)
      → get_elem? fs i ≡ some f
      → f.name ≡ some t
      → is_empty t ≡ false
      → hits lower needle t ≡ true
      → any (hits lower needle) (file_names fs) ≡ true
  unfolding file_names
  file_names-finds [] i f t h n e m = cc
  file_names-finds (g ∷ fs) zero f t h n e m =
      named-finds g.name (file_names fs) t
        (ap (λ (x : FileAnswer). x.name) (some-injective _ _ h) ∙ n) e m
  file_names-finds (g ∷ fs) (suc i) f t h n e m =
      named-rest g.name (file_names fs) (file_names-finds fs i f t h n e m)

  answer-found :
      (value : AnswerValue)
      → any (hits lower needle) (answer_haystack value) ≡ true
      → (t : Text) × InAnswer value t × (hits lower needle t ≡ true)
  unfolding answer_haystack file_answers
  answer-found (written s) h = (s, as_written s, ground (arith, h))
  answer-found (one_file f) h =
      let (i, g, t, at, n, e, m) = file_names-found (f ∷ []) h in
      (t, as_name (one_file f) g t (only i g at) n e, m)
    where
      only : (i : ℕ) (g : FileAnswer) → get_elem? (f ∷ []) i ≡ some g → HasFile (one_file f) g
      only zero g at = subst (λ x. HasFile (one_file f) x) (some-injective _ _ at) (alone f)
      only (suc i) g at = cc
  answer-found (many_files []) h = absurd (false≢true h)
  answer-found (many_files (f ∷ fs)) h =
      let (i, g, t, at, n, e, m) = file_names-found (f ∷ fs) h in
      (t, as_name (many_files (f ∷ fs)) g t (among (f ∷ fs) i g at) n e, m)

  file-finds :
      (value : AnswerValue) (f : FileAnswer) (t : Text)
      → HasFile value f
      → f.name ≡ some t
      → is_empty t ≡ false
      → hits lower needle t ≡ true
      → any (hits lower needle) (answer_haystack value) ≡ true
  unfolding answer_haystack file_answers
  file-finds _ _ t (alone f) n e m = file_names-finds (f ∷ []) 0 f t refl n e m
  file-finds _ _ t (among [] i f at) n e m = cc
  file-finds _ _ t (among (g ∷ fs) i f at) n e m = file_names-finds (g ∷ fs) i f t at n e m

  pub answer-finds :
      (value : AnswerValue) (t : Text)
      → InAnswer value t
      → hits lower needle t ≡ true
      → any (hits lower needle) (answer_haystack value) ≡ true
  unfolding answer_haystack file_answers
  answer-finds _ _ (as_written t) m = ground (arith, m)
  answer-finds _ _ (as_name value f t file n e) m = file-finds value f t file n e m

  pub answers-found :
      (answers : Answers)
      → answers_match lower needle answers ≡ true
      → (i : ℕ) × (key : Text) × (value : AnswerValue) × (get_elem? answers i ≡ some (key, value))
        × ((hits lower needle key ≡ true)
            ⊎ ((t : Text) × InAnswer value t × (hits lower needle t ≡ true)))
  unfolding answers_match
  answers-found [] h = absurd (false≢true h)
  answers-found ((key, value) ∷ answers) h = elim (Bool-cases (hits lower needle key)) [
    | inl hit ↦ (0, key, value, refl, inl hit)
    | inr miss ↦ elim (Bool-cases (any (hits lower needle) (answer_haystack value))) [
      | inl found ↦ (0, key, value, refl, inr (answer-found value found))
      | inr absent ↦
          let (i, k, v, at, rest) = answers-found answers (ground (arith, miss, absent)) in
          (suc i, k, v, at, rest)
    ]
  ]

  pub answers-finds :
      (answers : Answers) (i : ℕ) (key : Text) (value : AnswerValue)
      → get_elem? answers i ≡ some (key, value)
      → (hits lower needle key ≡ true) ⊎ (any (hits lower needle) (answer_haystack value) ≡ true)
      → answers_match lower needle answers ≡ true
  unfolding answers_match
  answers-finds [] i key value h m = cc
  answers-finds ((k, v) ∷ answers) zero key value h m =
      let same = some-injective _ _ h in
      subst
        (λ (e : Text × AnswerValue).
          (hits lower needle e.0 ≡ true) ⊎ (any (hits lower needle) (answer_haystack e.1) ≡ true)
          → (hits lower needle k
              || any (hits lower needle) (answer_haystack v)
              || answers_match lower needle answers)
            ≡ true)
        same (λ q. ground (arith, q)) m
  answers-finds ((k, v) ∷ answers) (suc i) key value h m =
      ground (arith, answers-finds answers i key value h m)

  pub field-found :
      (o : Option Text)
      → field_matches lower needle o ≡ true
      → (t : Text) × (o ≡ some t) × (hits lower needle t ≡ true)
  unfolding field_matches hits
  field-found none h = absurd (false≢true h)
  field-found (some t) h = (t, refl, h)

  pub field-finds :
      (o : Option Text) (t : Text)
      → o ≡ some t
      → hits lower needle t ≡ true
      → field_matches lower needle o ≡ true
  unfolding field_matches hits
  field-finds none t h m = cc
  field-finds (some r) t h m =
      subst (λ x. hits lower needle x ≡ true) (sym (some-injective _ _ h)) m
