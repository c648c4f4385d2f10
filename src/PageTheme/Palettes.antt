-- ===== src/PageTheme/Palettes.antt =====
-- The table `PAGE_PALETTES` of frontend/src/components/booking/public/pageTheme.ts.
use whatsapp_bots_saa_s.Base.{List, [], ◌∷◌}
use whatsapp_bots_saa_s.Text.{Text, codes}

pub record PagePalette : Type 0 where
  pub key : Text
  pub label : Text
  pub primary : Text
  pub on_primary : Text
  pub bg : Text
  pub surface : Text
  pub text : Text
  pub muted : Text
  pub border : Text

abbrev pub leaf : PagePalette
leaf = record {
  key = codes "leaf";
  label = (0x5d9 ∷ 0x5e8 ∷ 0x5d5 ∷ 0x5e7 ∷ 0x20 ∷ 0x5d8 ∷ 0x5d1 ∷ 0x5e2 ∷ 0x5d9 ∷ []);
  primary = codes "#4f7a15";
  on_primary = codes "#ffffff";
  bg = codes "#ece9e1";
  surface = codes "#ffffff";
  text = codes "#1b2e0c";
  muted = codes "#5b6b4a";
  border = codes "#d8e2c6";
}

abbrev pub ocean : PagePalette
ocean = record {
  key = codes "ocean";
  label =
      (0x5db ∷ 0x5d7 ∷ 0x5d5 ∷ 0x5dc ∷ 0x20 ∷ 0x5d0 ∷ 0x5d5 ∷ 0x5e7 ∷ 0x5d9 ∷ 0x5d9 ∷ 0x5e0 ∷ 0x5d5
        ∷ 0x5e1 ∷ []);
  primary = codes "#0369a1";
  on_primary = codes "#ffffff";
  bg = codes "#eff6fb";
  surface = codes "#ffffff";
  text = codes "#0f172a";
  muted = codes "#51667e";
  border = codes "#cfe1ef";
}

abbrev pub sand : PagePalette
sand = record {
  key = codes "sand";
  label = (0x5d7 ∷ 0x5d5 ∷ 0x5dc ∷ 0x20 ∷ 0x5d5 ∷ 0x5e7 ∷ 0x5e8 ∷ 0x5dd ∷ []);
  primary = codes "#a16207";
  on_primary = codes "#ffffff";
  bg = codes "#faf7f0";
  surface = codes "#ffffff";
  text = codes "#292524";
  muted = codes "#78716c";
  border = codes "#e7e0d2";
}

abbrev pub lavender : PagePalette
lavender = record {
  key = codes "lavender";
  label =
      (0x5e1 ∷ 0x5d2 ∷ 0x5d5 ∷ 0x5dc ∷ 0x20 ∷ 0x5e2 ∷ 0x5e8 ∷ 0x5e4 ∷ 0x5d9 ∷ 0x5dc ∷ 0x5d9 ∷ []);
  primary = codes "#7c3aed";
  on_primary = codes "#ffffff";
  bg = codes "#f5f3ff";
  surface = codes "#ffffff";
  text = codes "#2e1065";
  muted = codes "#5b21b6";
  border = codes "#ddd6fe";
}

abbrev pub mono : PagePalette
mono = record {
  key = codes "mono";
  label =
      (0x5e9 ∷ 0x5d7 ∷ 0x5d5 ∷ 0x5e8 ∷ 0x5be ∷ 0x5dc ∷ 0x5d1 ∷ 0x5df ∷ 0x20 ∷ 0x5e7 ∷ 0x5dc ∷ 0x5d0
        ∷ 0x5e1 ∷ 0x5d9 ∷ []);
  primary = codes "#1f2937";
  on_primary = codes "#ffffff";
  bg = codes "#f4f4f5";
  surface = codes "#ffffff";
  text = codes "#111827";
  muted = codes "#5b6472";
  border = codes "#e0e2e6";
}

abbrev pub blackgold : PagePalette
blackgold = record {
  key = codes "blackgold";
  label = (0x5e9 ∷ 0x5d7 ∷ 0x5d5 ∷ 0x5e8 ∷ 0x20 ∷ 0x5d5 ∷ 0x5d6 ∷ 0x5d4 ∷ 0x5d1 ∷ []);
  primary = codes "#d4af37";
  on_primary = codes "#17130a";
  bg = codes "#0b0b0d";
  surface = codes "#17171b";
  text = codes "#f6f2e8";
  muted = codes "#a89f8c";
  border = codes "#2b2b32";
}

abbrev pub crimson : PagePalette
crimson = record {
  key = codes "crimson";
  label = (0x5d0 ∷ 0x5e8 ∷ 0x5d2 ∷ 0x5de ∷ 0x5df ∷ 0x20 ∷ 0x5d5 ∷ 0x5e4 ∷ 0x5d7 ∷ 0x5dd ∷ []);
  primary = codes "#e11d48";
  on_primary = codes "#ffffff";
  bg = codes "#1c1917";
  surface = codes "#292524";
  text = codes "#fafaf9";
  muted = codes "#a8a29e";
  border = codes "#3b3633";
}

abbrev pub navy : PagePalette
navy = record {
  key = codes "navy";
  label =
      (0x5e0 ∷ 0x5d9 ∷ 0x5d9 ∷ 0x5d1 ∷ 0x5d9 ∷ 0x20 ∷ 0x5d5 ∷ 0x5e4 ∷ 0x5dc ∷ 0x5d8 ∷ 0x5d9 ∷ 0x5e0
        ∷ 0x5d4 ∷ []);
  primary = codes "#d8c38a";
  on_primary = codes "#101a2c";
  bg = codes "#0f172a";
  surface = codes "#1b2942";
  text = codes "#eaf0f8";
  muted = codes "#94a5bf";
  border = codes "#2d3f5d";
}

abbrev pub urban : PagePalette
urban = record {
  key = codes "urban";
  label =
      (0x5db ∷ 0x5ea ∷ 0x5d5 ∷ 0x5dd ∷ 0x20 ∷ 0x5d0 ∷ 0x5d5 ∷ 0x5e8 ∷ 0x5d1 ∷ 0x5e0 ∷ 0x5d9 ∷ []);
  primary = codes "#f97316";
  on_primary = codes "#1a0f05";
  bg = codes "#18181b";
  surface = codes "#242428";
  text = codes "#fafafa";
  muted = codes "#a1a1aa";
  border = codes "#35353c";
}

abbrev pub cocoa : PagePalette
cocoa = record {
  key = codes "cocoa";
  label = (0x5e7 ∷ 0x5e7 ∷ 0x5d0 ∷ 0x5d5 ∷ 0x20 ∷ 0x5d5 ∷ 0x5e9 ∷ 0x5de ∷ 0x5e0 ∷ 0x5ea ∷ []);
  primary = codes "#e0a45c";
  on_primary = codes "#2a1608";
  bg = codes "#241610";
  surface = codes "#33231a";
  text = codes "#f7ebdc";
  muted = codes "#c0a085";
  border = codes "#463122";
}

abbrev pub page_palettes : List PagePalette
page_palettes =
    leaf ∷ ocean ∷ sand ∷ lavender ∷ mono ∷ blackgold ∷ crimson ∷ navy ∷ urban ∷ cocoa ∷ []
