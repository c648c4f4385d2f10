-- ===== src/PageTheme/Tests.antt =====
-- The theme of pageTheme.ts at concrete inputs.
use whatsapp_bots_saa_s.Base.{◌≡◌, refl, none, some, pos}
use whatsapp_bots_saa_s.Text.{codes, text_eq}
use whatsapp_bots_saa_s.PageTheme.Palettes.{navy}
use whatsapp_bots_saa_s.PageTheme.{
  finite, PageTheme, find_palette, palette_of, resolve_palette, round, clamp, radius_of,
  resolve_radius,
}

-- A radius of 7.5.
abbrev stored : PageTheme
stored = record { palette = some (codes "navy"); radius = finite (pos 15) 1 }

theme_tests :
    (resolve_palette (some stored) ≡ navy)
    × (resolve_radius (some stored) ≡ 8)
    × (resolve_radius none ≡ 22)
    × (radius_of (finite (pos 300) 0) ≡ 40)
unfolding resolve_palette palette_of find_palette text_eq resolve_radius radius_of round clamp
theme_tests = (refl, refl, refl, refl)
