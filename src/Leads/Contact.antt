-- ===== src/Leads/Contact.antt =====
-- The chat link of a lead: frontend/src/lib/waLink.ts.
use whatsapp_bots_saa_s.Base.{
  ℕ, ◌≤◌, ◌≡◌, refl, sym, inl, inr, true, Option, none, some, [], ◌∷◌, ◌++◌, arith, ◌==◌,
  if◌then◌else◌, Bool-cases, length, all, filter_by,
}
use mathlib.Core.Option.{some-injective}
use whatsapp_bots_saa_s.Text.{Text, codes, is_digit}

unfoldable pub digits_of : Text → Text
digits_of phone = filter_by is_digit phone

-- A leading 0 gives way to the country's code.
unfoldable pub international : Text → Text
international [] = []
international (c ∷ s) = if c == b'0' then codes "972" ++ s else c ∷ s

abbrev pub link_to : Text → Option Text
link_to [] = none
link_to (c ∷ s) = some (codes "https://wa.me/" ++ international (c ∷ s))

unfoldable pub wa_link : Option Text → Option Text
wa_link none = none
wa_link (some phone) = link_to (digits_of phone)

all-filter_by : (s : Text) → all is_digit (filter_by is_digit s) ≡ true
all-filter_by [] = refl
all-filter_by (c ∷ s) = elim (Bool-cases (is_digit c)) [
  | inl digit ↦ ground (arith, digit, all-filter_by s)
  | inr sign ↦ ground (arith, sign, all-filter_by s)
]

international-digits :
    (c : ℕ) (s : Text)
    → all is_digit (c ∷ s) ≡ true
    → (all is_digit (international (c ∷ s)) ≡ true) × (1 ≤ length (international (c ∷ s)))
unfolding international is_digit
international-digits c s h = elim (Bool-cases (c == b'0')) [
  | inl local ↦ rw local (ground arith, omega arith)
  | inr abroad ↦ rw abroad (h, omega arith)
]

link_to-digits :
    (ds : Text) (url : Text)
    → all is_digit ds ≡ true
    → link_to ds ≡ some url
    → (n : Text) × (url ≡ codes "https://wa.me/" ++ n) × (all is_digit n ≡ true) × (1 ≤ length n)
link_to-digits [] url h e = cc
link_to-digits (c ∷ s) url h e =
    let (a, b) = international-digits c s h in
    (international (c ∷ s), sym (some-injective _ _ e), a, b)

-- A phone written with a leading 0 and one with the country's code have the same link, and a plus
-- sign changes nothing; a link that is made ends in at least one digit, and in digits only.
pub wa_link_lem :
    (phone : Text)
    → (wa_link (some (b'0' ∷ phone)) ≡ wa_link (some (codes "972" ++ phone)))
      × (wa_link (some (b'+' ∷ phone)) ≡ wa_link (some phone))
      × ((url : Text)
          → wa_link (some phone) ≡ some url
          → (n : Text) × (url ≡ codes "https://wa.me/" ++ n)
            × (all is_digit n ≡ true)
            × (1 ≤ length n))
unfolding wa_link digits_of international is_digit
wa_link_lem phone =
    (refl, refl, λ url h. link_to-digits (digits_of phone) url (all-filter_by phone) h)
