-- ===== src/PageTheme/Laws.antt =====
-- What the theme of pageTheme.ts resolves to.
use whatsapp_bots_saa_s.Base.{
  ℕ, zero, suc, ◌+◌, ◌*◌, ◌%◌, ◌<◌, ◌≤◌, ◌≡◌, refl, ap, subst, true, false, not, Option, none, some,
  List, [], ◌∷◌, map, arith, le→leb, get_or_else, pos, negsuc, get_elem?, all, is_empty,
}
use native.Mathlib.Nat.{div-add-mod, mod-lt, mul-le-mul_left}
use native.Mathlib.Decide.{dec_lt}
use mathlib.Core.Option.{some-injective}
use whatsapp_bots_saa_s.Text.{Text, text_eq, mem_text, distinct}
use whatsapp_bots_saa_s.Text.Laws.{text_eq_refl, mem_text_self}
use whatsapp_bots_saa_s.PageTheme.Palettes.{PagePalette, page_palettes}
use whatsapp_bots_saa_s.PageTheme.{
  Radius, finite, other, PageTheme, max_radius, default_palette, find_palette, palette_of,
  resolve_palette, round, clamp, radius_of, resolve_radius, palette_vars_for, palette_vars,
}

abbrev palette_key : PagePalette → Text
palette_key p = p.key

mem_text-key :
    (ps : List PagePalette) (i : ℕ) {p : PagePalette}
    → get_elem? ps i ≡ some p
    → mem_text p.key (map palette_key ps) ≡ true
unfolding mem_text
mem_text-key [] i h = cc
mem_text-key (q ∷ ps) zero h =
    subst (λ x. mem_text x.key (map palette_key (q ∷ ps)) ≡ true) (some-injective _ _ h)
      (ground (arith, text_eq_refl q.key))
mem_text-key (q ∷ ps) (suc i) h = ground (arith, mem_text-key ps i h)

find_palette-own :
    (ps : List PagePalette) (i : ℕ) {p : PagePalette}
    → distinct (map palette_key ps) ≡ true
    → get_elem? ps i ≡ some p
    → find_palette p.key ps ≡ some p
unfolding find_palette
find_palette-own [] i d h = cc
find_palette-own (q ∷ ps) zero d h =
    subst (λ x. find_palette x.key (q ∷ ps) ≡ some x) (some-injective _ _ h)
      (rw (text_eq_refl q.key) refl)
find_palette-own (q ∷ ps) (suc i) {p = p} d h =
    let apart : text_eq q.key p.key ≡ false =
      mem_text_self q.key p.key (map palette_key ps) (ground arith) (mem_text-key ps i h) in
    rw apart (find_palette-own ps i (ground arith) h)

keys_distinct : distinct (map palette_key page_palettes) ≡ true
unfolding mem_text text_eq
keys_distinct = refl

keys_some : all (λ p. not (is_empty (palette_key p))) page_palettes ≡ true
keys_some = refl

key_not_empty :
    (ps : List PagePalette) (i : ℕ) {p : PagePalette}
    → all (λ p. not (is_empty (palette_key p))) ps ≡ true
    → get_elem? ps i ≡ some p
    → is_empty p.key ≡ false
key_not_empty [] i a h = cc
key_not_empty (q ∷ ps) zero a h =
    subst (λ x. is_empty (palette_key x) ≡ false) (some-injective _ _ h) (ground arith)
key_not_empty (q ∷ ps) (suc i) a h = key_not_empty ps i (ground arith) h

palette_of-found :
    (key : Text) {p : PagePalette}
    → is_empty key ≡ false
    → find_palette key page_palettes ≡ some p
    → palette_of (some key) ≡ p
unfolding palette_of
palette_of-found [] e h = cc
palette_of-found (c ∷ key) e h = ap (λ o. get_or_else o default_palette) h

palette_of-unknown :
    (key : Text) → find_palette key page_palettes ≡ none → palette_of (some key) ≡ default_palette
unfolding palette_of
palette_of-unknown [] h = refl
palette_of-unknown (c ∷ key) h = ap (λ o. get_or_else o default_palette) h

round_near :
    (n d : ℕ) → 1 ≤ d → (2 * d * round n d ≤ 2 * n + d) × (2 * n + d < 2 * d * round n d + 2 * d)
unfolding round
round_near n d h =
    let whole = div-add-mod (2 * n + d) (2 * d) in
    let rest : (2 * n + d) % (2 * d) < 2 * d = mod-lt (2 * n + d) (omega arith) in
    (omega (arith, whole), omega (arith, whole, rest))

-- A number from 0 to 40 is rounded to a whole one that is at most a half away.
clamp_near : (n d : ℕ) → 1 ≤ d → n ≤ max_radius * d → clamp (round n d) ≡ round n d
unfolding clamp
clamp_near n d h k =
    let (a, b) = round_near n d h in
    let small : round n d ≤ max_radius = elim (dec_lt max_radius (round n d)) [
      | yes over ↦
          let big : 2 * d * 41 ≤ 2 * d * round n d =
            mul-le-mul_left (2 * d) (omega (arith, over)) in
          absurd (omega (arith, big))
      | no within ↦ omega arith
    ] in
    rw (le→leb _ _ small) refl

radius_near :
    (n d : ℕ)
    → n ≤ max_radius * (d + 1)
    → (2 * (d + 1) * radius_of (finite (pos n) d) ≤ 2 * n + (d + 1))
      × (2 * n + (d + 1) < 2 * (d + 1) * radius_of (finite (pos n) d) + 2 * (d + 1))
unfolding radius_of
radius_near n d h = rw (clamp_near n (d + 1) (omega arith) h) (round_near n (d + 1) (omega arith))

clamp_le : (n : ℕ) → clamp n ≤ max_radius
unfolding clamp
clamp_le n = ground arith

radius_of_le : (r : Radius) → radius_of r ≤ max_radius
unfolding radius_of
radius_of_le (finite (pos n) d) = clamp_le (round n (d + 1))
radius_of_le (finite (negsuc n) d) = omega arith
radius_of_le other = omega arith

resolve_radius_le : (theme : Option PageTheme) → resolve_radius theme ≤ max_radius
unfolding resolve_radius
resolve_radius_le none = omega arith
resolve_radius_le (some theme) = radius_of_le theme.radius

-- Whatever is stored, the page has a palette of the table: the one whose key is stored, and the
-- first one if there is no such key. The corner radius is from 0 to 40, and a stored number in that
-- range is rounded, by a half at most. The properties of the page's style are those of this
-- palette and this radius.
pub resolve_theme_lem :
    (theme : Option PageTheme)
    → (palette_vars theme ≡ palette_vars_for (resolve_palette theme) (resolve_radius theme))
      × (resolve_radius theme ≤ max_radius)
      × ((i : ℕ) (p : PagePalette) (r : Radius)
          → get_elem? page_palettes i ≡ some p
          → resolve_palette (some (record { palette = some p.key; radius = r })) ≡ p)
      × ((key : Text) (r : Radius)
          → find_palette key page_palettes ≡ none
          → resolve_palette (some (record { palette = some key; radius = r })) ≡ default_palette)
      × ((n d : ℕ)
          → n ≤ max_radius * (d + 1)
          → (2 * (d + 1) * radius_of (finite (pos n) d) ≤ 2 * n + (d + 1))
            × (2 * n + (d + 1) < 2 * (d + 1) * radius_of (finite (pos n) d) + 2 * (d + 1)))
unfolding palette_vars palette_vars_for resolve_palette resolve_radius
resolve_theme_lem theme = (
  refl,
  resolve_radius_le theme,
  λ i p r h.
      palette_of-found p.key (key_not_empty page_palettes i keys_some h)
        (find_palette-own page_palettes i keys_distinct h),
  λ key r h. palette_of-unknown key h,
  λ n d h. radius_near n d h,
)
