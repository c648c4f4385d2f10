-- ===== src/Text/Erase.antt =====
-- Lists of texts without one of them, for counting how many texts are taken.
use whatsapp_bots_saa_s.Base.{suc, ◌≡◌, ◌≢◌, true, List, [], ◌∷◌, arith, if◌then◌else◌, length}
use whatsapp_bots_saa_s.Text.{Text, text_eq, mem_text}
use whatsapp_bots_saa_s.Text.Laws.{text_eq→eq}

-- The list without the first occurrence of a text.
unfoldable pub erase : Text → List Text → List Text
erase s [] = []
erase s (t ∷ ts) = let rest = erase s ts in if text_eq t s then ts else t ∷ rest

pub length-erase :
    (s : Text) (ts : List Text) → mem_text s ts ≡ true → length ts ≡ suc (length (erase s ts))
unfolding mem_text erase
length-erase s [] h = cc
length-erase s (t ∷ ts) h = ground (arith, length-erase s ts)

pub mem_text-erase :
    (s r : Text) (ts : List Text) → s ≢ r → mem_text s ts ≡ true → mem_text s (erase r ts) ≡ true
unfolding mem_text erase
mem_text-erase s r [] n h = h
mem_text-erase s r (t ∷ ts) n h =
    ground (arith, mem_text-erase s r ts n, text_eq→eq t s, text_eq→eq t r)
