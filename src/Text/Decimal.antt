-- ===== src/Text/Decimal.antt =====
-- `String(n)` of a natural number, and `Number(s)` of a run of digits.
use whatsapp_bots_saa_s.Base.{
  ℕ, zero, suc, ◌+◌, ◌-◌, ◌*◌, ◌/◌, ◌%◌, ◌<◌, ◌≡◌, refl, [], ◌∷◌, ◌++◌, ltb, if◌then◌else◌, arith,
}
use whatsapp_bots_saa_s.Text.{Text}

abbrev pub digit : ℕ → ℕ
digit d = b'0' + d

-- The digits of `n`, the most significant first; one more round than `n` is enough.
unfoldable pub digits_fuel : ℕ → ℕ → Text
digits_fuel zero n = []
digits_fuel (suc f) n =
    let rest = digits_fuel f (n / 10) in
    if ltb n 10 then digit n ∷ [] else rest ++ digit (n % 10) ∷ []

unfoldable pub show : ℕ → Text
unfolding digits_fuel
show n = digits_fuel (suc n) n

unfoldable pub read_from : ℕ → Text → ℕ
read_from acc [] = acc
read_from acc (c ∷ s) = read_from (acc * 10 + (c - b'0')) s

unfoldable pub read : Text → ℕ
unfolding read_from
read s = read_from 0 s

pub read_from-append :
    (acc : ℕ) (s : Text) (c : ℕ) → read_from acc (s ++ c ∷ []) ≡ read_from acc s * 10 + (c - b'0')
unfolding read_from
read_from-append acc [] c = refl
read_from-append acc (d ∷ s) c = read_from-append (acc * 10 + (d - b'0')) s c

read-digits_fuel : (f n : ℕ) → n < f → read (digits_fuel f n) ≡ n
unfolding read digits_fuel
read-digits_fuel zero n h = elim h [ ]
read-digits_fuel (suc f) n h = ground (
  arith,
  read-digits_fuel f (n / 10),
  read_from-append 0 (digits_fuel f (n / 10)) (digit (n % 10)),
)

-- Reading what was printed gives the number back.
pub read-show : (n : ℕ) → read (show n) ≡ n
unfolding show
read-show n = read-digits_fuel (suc n) n (omega arith)
