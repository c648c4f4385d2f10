-- ===== src/Leads/Page/Counts.antt =====
-- The numbers, the flow options and the export button that LeadsPage.tsx derives from its lists.
use whatsapp_bots_saa_s.Base.{
  ℕ, ◌≡◌, refl, subst, inl, inr, Bool, true, false, ◌||◌, Option, none, some, List, [], ◌∷◌, arith,
  if◌then◌else◌, ltb, ◌==◌, Bool-cases, get_or_else, any, length, filter_by, is_empty,
}
use whatsapp_bots_saa_s.Text.{Text, codes, text_eq, mem_text}
use whatsapp_bots_saa_s.Text.Laws.{text_eq→eq}
use whatsapp_bots_saa_s.Leads.{
  LeadStatus, new, in_progress, abandoned, deal, closed, Lead, visible_leads,
}
use whatsapp_bots_saa_s.Leads.Page.{LeadsPage, search}

unfoldable pub is_new : LeadStatus → Bool
is_new new = true
is_new in_progress = false
is_new abandoned = false
is_new deal = false
is_new closed = false

unfoldable pub is_open : LeadStatus → Bool
is_open new = false
is_open in_progress = true
is_open abandoned = false
is_open deal = false
is_open closed = false

pub record LeadCounts : Type 0 where
  pub completed_count : Option ℕ
  pub open_count : Option ℕ
  pub abandoned_count : ℕ

unfoldable pub counts : LeadsPage → LeadCounts
unfolding text_eq is_new is_open
counts s =
    let every = text_eq s.filters.status (codes "all") in
    let leads = get_or_else s.leads [] in
    record {
      completed_count =
          if every then some (length (filter_by (λ l. is_new l.status) leads)) else none;
      open_count = if every then some (length (filter_by (λ l. is_open l.status) leads)) else none;
      abandoned_count = length s.abandoned;
    }

module _ (lower : Text → Text) where
  -- The link is off while the page loads, after an error, and if no lead is visible.
  unfoldable pub export_disabled : LeadsPage → Bool
  unfolding visible_leads
  export_disabled s =
      s.loading || s.error || is_empty (visible_leads lower (get_or_else s.leads []) s.query)

-- `sort()` on texts: insertion, by the code units.
unfoldable pub text_ltb : Text → Text → Bool
text_ltb [] [] = false
text_ltb [] (d ∷ t) = true
text_ltb (c ∷ s) [] = false
text_ltb (c ∷ s) (d ∷ t) = let rest = text_ltb s t in if c == d then rest else ltb c d

unfoldable pub insert_text : Text → List Text → List Text
unfolding text_ltb
insert_text s [] = s ∷ []
insert_text s (t ∷ ts) =
    let rest = insert_text s ts in if text_ltb t s then t ∷ rest else s ∷ t ∷ ts

-- `names.add`, on a set that is kept in the order of `sort()`.
unfoldable pub add_name : Text → List Text → List Text
unfolding mem_text insert_text
add_name s names = if mem_text s names then names else insert_text s names

unfoldable pub add_names : List Lead → List Text → List Text
unfolding add_name
add_names [] names = names
add_names (l ∷ ls) names = add_names ls (add_name l.lead_name names)

-- The values of the options: the choice of every flow, then the names.
unfoldable pub flow_options : LeadsPage → List Text
unfolding add_names
flow_options s = codes "all" ∷ add_names s.abandoned (add_names (get_or_else s.leads []) [])

-- Whether a lead of the list belongs to the flow.
abbrev pub has_flow : Text → List Lead → Bool
has_flow name leads = any (λ l. text_eq l.lead_name name) leads

mem_text-insert_text :
    (n s : Text) (ts : List Text) → mem_text n (insert_text s ts) ≡ text_eq s n || mem_text n ts
unfolding mem_text insert_text
mem_text-insert_text n s [] = refl
mem_text-insert_text n s (t ∷ ts) = ground (arith, mem_text-insert_text n s ts)

mem_text-add_name :
    (n s : Text) (ts : List Text) → mem_text n (add_name s ts) ≡ text_eq s n || mem_text n ts
unfolding add_name
mem_text-add_name n s ts = elim (Bool-cases (mem_text s ts)) [
  | inl there ↦ elim (Bool-cases (text_eq s n)) [
    | inl same ↦
        let kept : mem_text n ts ≡ true =
          subst (λ t. mem_text t ts ≡ true) (text_eq→eq s n same) there in
        rw (there, same) kept
    | inr other ↦ rw (there, other) refl
  ]
  | inr fresh ↦ rw fresh (mem_text-insert_text n s ts)
]

mem_text-add_names :
    (n : Text) (ls : List Lead) (ts : List Text)
    → mem_text n (add_names ls ts) ≡ has_flow n ls || mem_text n ts
unfolding add_names
mem_text-add_names n [] ts = refl
mem_text-add_names n (l ∷ ls) ts =
    ground
      (arith, mem_text-add_names n ls (add_name l.lead_name ts), mem_text-add_name n l.lead_name ts)

or_assoc : (x a b : Bool) → x || (a || (b || false)) ≡ x || a || b
or_assoc true a b = refl
or_assoc false true b = refl
or_assoc false false true = refl
or_assoc false false false = refl

mem_text-join :
    (s n : Text) (ts us : List Text) (a b : Bool)
    → mem_text n us ≡ a || mem_text n ts
    → mem_text n ts ≡ b || false
    → mem_text n (s ∷ us) ≡ text_eq s n || a || b
unfolding mem_text
mem_text-join s n ts us a b h k = rw (h, k) (or_assoc (text_eq s n) a b)

-- A flow is among the options if and only if it is the choice of every flow or a lead of the two
-- lists belongs to it; and a search changes neither the options nor the counts.
pub flow_options_lem :
    (s : LeadsPage) (n query : Text)
    → (mem_text n (flow_options s)
        ≡ text_eq (codes "all") n || has_flow n s.abandoned || has_flow n (get_or_else s.leads []))
      × (flow_options (search query s) ≡ flow_options s)
      × (counts (search query s) ≡ counts s)
unfolding flow_options counts search
flow_options_lem s n query =
    let first = mem_text-add_names n s.abandoned (add_names (get_or_else s.leads []) []) in
    let second = mem_text-add_names n (get_or_else s.leads []) [] in
    (mem_text-join (codes "all") n _ _ _ _ first second, refl, refl)
