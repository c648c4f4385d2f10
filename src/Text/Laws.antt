-- ===== src/Text/Laws.antt =====
-- What the string methods compute.
use mathlib.Core.Bool.{false≢true}
use whatsapp_bots_saa_s.Base.{
  List, Bool-cases, inl, inr, false, sym, ◌∙◌, subst, ◌≡◌, refl, ◌↔◌, true, [], ◌∷◌, arith,
}
use whatsapp_bots_saa_s.Text.{mem_text, Text, text_eq}

pub text_eq→eq : (s t : Text) → text_eq s t ≡ true → s ≡ t
unfolding text_eq
text_eq→eq [] [] h = refl
text_eq→eq [] (d ∷ t) h = cc
text_eq→eq (c ∷ s) [] h = cc
text_eq→eq (c ∷ s) (d ∷ t) h = ground (arith, text_eq→eq s t)

pub text_eq_refl : (s : Text) → text_eq s s ≡ true
unfolding text_eq
text_eq_refl [] = refl
text_eq_refl (c ∷ s) = ground (arith, text_eq_refl s)

pub text_eq_iff : (s t : Text) → (text_eq s t ≡ true) ↔ (s ≡ t)
text_eq_iff s t = (text_eq→eq s t, λ e. rw e (text_eq_refl t))

pub mem_text_self :
    (s t : Text) (ts : List Text)
    → mem_text s ts ≡ false
    → mem_text t ts ≡ true
    → text_eq s t ≡ false
mem_text_self s t ts h k = elim (Bool-cases (text_eq s t)) [
  | inl e ↦
      absurd (false≢true (sym h ∙ subst (λ r. mem_text r ts ≡ true) (sym (text_eq→eq s t e)) k))
  | inr e ↦ e
]
