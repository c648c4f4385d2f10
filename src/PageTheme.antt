-- ===== src/PageTheme.antt =====
-- frontend/src/components/booking/public/pageTheme.ts: the palette and the corner radius of the public
-- business page, from the stored theme, which the server does not interpret
-- (dashboard/businessPageTypes.ts).
pub mod Palettes
pub mod Laws
mod Tests
use whatsapp_bots_saa_s.Base.{
  ℕ, ◌+◌, ◌*◌, ◌/◌, Option, none, some, List, [], ◌∷◌, ◌++◌, leb, if◌then◌else◌, get_or_else, ℤ,
  pos, negsuc,
}
use whatsapp_bots_saa_s.Text.{Text, codes, text_eq}
use whatsapp_bots_saa_s.Text.Decimal.{show}
use whatsapp_bots_saa_s.PageTheme.Palettes.{PagePalette, page_palettes, leaf}

-- What `theme.radius` holds: a finite number, as a fraction whose second part is one less than
-- the denominator, or anything else.
pub data Radius : Type 0 where
  finite : ℤ → ℕ → Radius
  other : Radius

pub record PageTheme : Type 0 where
  pub palette : Option Text
  pub radius : Radius

abbrev pub default_radius : ℕ
default_radius = 22

abbrev pub max_radius : ℕ
max_radius = 40

abbrev pub default_palette : PagePalette
default_palette = leaf

unfoldable pub find_palette : Text → List PagePalette → Option PagePalette
find_palette key [] = none
find_palette key (p ∷ ps) =
    let rest = find_palette key ps in if text_eq p.key key then some p else rest

-- An empty key counts as absent.
unfoldable pub palette_of : Option Text → PagePalette
palette_of none = default_palette
palette_of (some []) = default_palette
palette_of (some (c ∷ key)) = get_or_else (find_palette (c ∷ key) page_palettes) default_palette

-- A `theme` that is null or undefined is `none`.
unfoldable pub resolve_palette : Option PageTheme → PagePalette
resolve_palette none = default_palette
resolve_palette (some theme) = palette_of theme.palette

-- `Math.round` of `n / d`, which rounds a half up.
unfoldable pub round : ℕ → ℕ → ℕ
round n d = (2 * n + d) / (2 * d)

unfoldable pub clamp : ℕ → ℕ
clamp n = if leb n max_radius then n else max_radius

-- Numbers below 0 are rounded to at most 0, where the clamp puts them.
unfoldable pub radius_of : Radius → ℕ
radius_of other = default_radius
radius_of (finite (pos n) d) = clamp (round n (d + 1))
radius_of (finite (negsuc n) d) = 0

unfoldable pub resolve_radius : Option PageTheme → ℕ
resolve_radius none = default_radius
resolve_radius (some theme) = radius_of theme.radius

-- The custom properties of the page's `style`.
unfoldable pub palette_vars_for : PagePalette → ℕ → List (Text × Text)
palette_vars_for p radius =
    (codes "--bp-primary", p.primary)
    ∷ (codes "--bp-on-primary", p.on_primary)
    ∷ (codes "--bp-bg", p.bg)
    ∷ (codes "--bp-surface", p.surface)
    ∷ (codes "--bp-text", p.text)
    ∷ (codes "--bp-muted", p.muted)
    ∷ (codes "--bp-border", p.border)
    ∷ (codes "--bp-radius", show radius ++ codes "px")
    ∷ []

unfoldable pub palette_vars : Option PageTheme → List (Text × Text)
palette_vars theme =
    let p = resolve_palette theme in
    (codes "--bp-primary", p.primary)
    ∷ (codes "--bp-on-primary", p.on_primary)
    ∷ (codes "--bp-bg", p.bg)
    ∷ (codes "--bp-surface", p.surface)
    ∷ (codes "--bp-text", p.text)
    ∷ (codes "--bp-muted", p.muted)
    ∷ (codes "--bp-border", p.border)
    ∷ (codes "--bp-radius", show (resolve_radius theme) ++ codes "px")
    ∷ []
