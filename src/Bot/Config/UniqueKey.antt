-- ===== src/Bot/Config/UniqueKey.antt =====
-- `uniqueKey` of config.ts: when the key is fresh, and when it is not.
use whatsapp_bots_saa_s.Base.{
  ℕ, zero, suc, ◌+◌, ◌/◌, ◌%◌, ◌^◌, ◌<◌, ◌≤◌, ◌≡◌, refl, sym, ap, ◌∙◌, ◌≢◌, inl, inr, true, false,
  none, some, List, [], ◌∷◌, ◌++◌, arith, Bool-cases, Option-cases, length, take, length-append,
  take_of_length_le, take-append_of_le,
}
use whatsapp_bots_saa_s.Text.{Text, mem_text}
use native.Mathlib.Nat.{pow-suc}
use whatsapp_bots_saa_s.Text.Erase.{erase, length-erase, mem_text-erase}
use whatsapp_bots_saa_s.Text.Decimal.{digit, digits_fuel, show, read-show, read}
use whatsapp_bots_saa_s.Bot.Config.{seed_of, candidate, search_key, unique_key}

length-digits_fuel : (f n k : ℕ) → n < 10 ^ suc k → length (digits_fuel f n) ≤ suc k
unfolding digits_fuel
length-digits_fuel zero n k h = omega arith
length-digits_fuel (suc f) n zero h =
    ground (arith, length-append (digits_fuel f (n / 10)) (digit (n % 10) ∷ []))
length-digits_fuel (suc f) n (suc k) h = ground (
  arith,
  length-append (digits_fuel f (n / 10)) (digit (n % 10) ∷ []),
  length-digits_fuel f (n / 10) k,
  pow-suc 10 (suc k),
)

length-show : (n : ℕ) → n < 1000 → length (show n) ≤ 3
unfolding show
length-show n h = length-digits_fuel (suc n) n 2 h

-- A short seed is not cut, so different numbers give different candidates.
candidate_short :
    (seed : Text) (i : ℕ)
    → length seed ≤ 36
    → i < 1000
    → candidate seed (show i) ≡ seed ++ b'_' ∷ show i
unfolding candidate
candidate_short seed i h k =
    take_of_length_le 40 _ (omega (arith, length-append seed (b'_' ∷ show i), length-show i k))

append_cancel {ℓ} : {A : Type ℓ} (s : List A) {t u : List A} → s ++ t ≡ s ++ u → t ≡ u
append_cancel [] e = e
append_cancel (c ∷ s) e = append_cancel s (cc)

show-injective : (i j : ℕ) → show i ≡ show j → i ≡ j
show-injective i j e = sym (read-show i) ∙ ap read e ∙ read-show j

candidate-ne :
    (seed : Text) (i j : ℕ)
    → length seed ≤ 36
    → i < j
    → j < 1000
    → candidate seed (show j) ≢ candidate seed (show i)
candidate-ne seed i j h k l e =
    let same : seed ++ b'_' ∷ show j ≡ seed ++ b'_' ∷ show i =
      sym (candidate_short seed j h l) ∙ e ∙ candidate_short seed i h (omega arith) in
    let tail : show j ≡ show i = append_cancel (b'_' ∷ []) (append_cancel seed same) in
    absurd (omega (arith, show-injective j i tail))

-- What the loop finds is free.
search_key-some :
    (seed : Text) (taken : List Text) (n i : ℕ) {k : Text}
    → search_key seed taken n i ≡ some k
    → mem_text k taken ≡ false
unfolding search_key
search_key-some seed taken zero i h = cc
search_key-some seed taken (suc n) i {k} h =
    elim (Bool-cases (mem_text (candidate seed (show i)) taken)) [
      | inl old ↦ search_key-some seed taken n (i + 1) (rw old at h)
      | inr new ↦ let same : candidate seed (show i) ≡ k = ground arith in rw (← same) new
    ]

-- Taking one text away that is no later candidate leaves the loop without a find.
search_key-erase :
    (seed : Text) (taken : List Text) (i n j : ℕ)
    → length seed ≤ 36
    → i < j
    → j + n ≤ 1000
    → search_key seed taken n j ≡ none
    → search_key seed (erase (candidate seed (show i)) taken) n j ≡ none
unfolding search_key
search_key-erase seed taken i zero j short lt le h = refl
search_key-erase seed taken i (suc n) j short lt le h =
    elim (Bool-cases (mem_text (candidate seed (show j)) taken)) [
      | inl old ↦
          rw (mem_text-erase _ _ taken (candidate-ne seed i j short lt (omega arith)) old) (
            search_key-erase seed taken i n (j + 1) short (omega arith) (omega arith) (rw old at h))
      | inr new ↦ ground arith
    ]

search_key_step :
    (seed : Text) (taken : List Text) (n i : ℕ)
    → search_key seed taken (suc n) i ≡ none
    → (mem_text (candidate seed (show i)) taken ≡ true) × (search_key seed taken n (i + 1) ≡ none)
unfolding search_key
search_key_step seed taken n i h = ground arith

-- A loop that finds nothing in `n` rounds has met `n` different taken keys.
search_key-none :
    (seed : Text) (n : ℕ) (taken : List Text) (i : ℕ)
    → length seed ≤ 36
    → i + n ≤ 1000
    → search_key seed taken n i ≡ none
    → n ≤ length taken
search_key-none seed zero taken i short le h = omega arith
search_key-none seed (suc n) taken i short le h =
    let (old, rest) = search_key_step seed taken n i h in
    let fewer =
      search_key-none seed n (erase (candidate seed (show i)) taken) (i + 1) short (omega arith)
        (search_key-erase seed taken i n (i + 1) short (omega arith) (omega arith) rest) in
    omega (arith, length-erase (candidate seed (show i)) taken old)

length-seed_of : (base : Text) → length base ≤ 36 → length (seed_of base) ≤ 36
unfolding seed_of
length-seed_of [] h = omega arith
length-seed_of (c ∷ s) h = h

-- `uniqueKey` gives a free key, when the base has at most 36 code units and fewer than 998 keys are taken.
-- (The builder has at most 20 flows, and 30 steps in a flow.)
pub unique_key_fresh :
    (now base : Text) (taken : List Text)
    → length base ≤ 36
    → length taken < 998
    → mem_text (unique_key now base taken) taken ≡ false
unfolding unique_key
unique_key_fresh now base taken short few = elim (Bool-cases (mem_text (seed_of base) taken)) [
  | inr new ↦ rw new new
  | inl old ↦ elim (Option-cases (search_key (seed_of base) taken 998 2)) [
    | inl lost ↦ absurd (
        omega (
          arith,
          search_key-none (seed_of base) 998 taken 2 (length-seed_of base short) (omega arith) lost,
        ))
    | inr (k, found) ↦ rw (old, found) (search_key-some (seed_of base) taken 998 2 found)
  ]
]

candidate_long : (seed suffix : Text) → 40 ≤ length seed → candidate seed suffix ≡ take 40 seed
unfolding candidate
candidate_long seed suffix h = take-append_of_le 40 seed _ h

search_key_long :
    (seed : Text) (taken : List Text) (n i : ℕ)
    → 40 ≤ length seed
    → mem_text (take 40 seed) taken ≡ true
    → search_key seed taken n i ≡ none
unfolding search_key
search_key_long seed taken zero i h m = refl
search_key_long seed taken (suc n) i h m =
    rw (candidate_long seed (show i) h, m) (search_key_long seed taken n (i + 1) h m)

seed_of_long : (base : Text) → 40 ≤ length base → seed_of base ≡ base
unfolding seed_of
seed_of_long [] h = absurd (omega arith)
seed_of_long (c ∷ s) h = refl

-- A base of 40 code units or more leaves no room for the number: when it and its first 40 units
-- are taken, the key that comes back is taken too, whatever the clock says.
pub unique_key_collides :
    (now base : Text) (taken : List Text)
    → 40 ≤ length base
    → mem_text base taken ≡ true
    → mem_text (take 40 base) taken ≡ true
    → mem_text (unique_key now base taken) taken ≡ true
unfolding unique_key
unique_key_collides now base taken h m c =
    rw (seed_of_long base h, m, search_key_long base taken 998 2 h c, candidate_long base now h) c
