-- ===== src/Gallery/Tests.antt =====
-- The gallery of GalleryManager.tsx at concrete inputs.
use whatsapp_bots_saa_s.Base.{
  ℕ, ◌≡◌, refl, true, false, Option, none, some, List, [], ◌∷◌, map, arith, get_elem?,
}
use mathlib.Core.List.{Perm}
use whatsapp_bots_saa_s.Text.{Text, distinct, codes, mem_text, text_eq}
use whatsapp_bots_saa_s.Gallery.{
  BusinessImage, Gallery, remove_at, insert_at, renumber, find_order, changed_from, reorder,
  patch_orders, move_patches, move_to,
}
use whatsapp_bots_saa_s.Gallery.Order.{image_id, move_to_lem}
use whatsapp_bots_saa_s.Gallery.Server.{move_patches_agree}

abbrev image : Text → ℕ → BusinessImage
image id place = record {
  id = id;
  storage_path = id;
  caption = none;
  sort_order = place;
  mime_type = none;
  size_bytes = none;
  created_at = none;
}

abbrev a : BusinessImage
a = image (codes "a") 0

abbrev b : BusinessImage
b = image (codes "b") 1

abbrev c : BusinessImage
c = image (codes "c") 2

abbrev shown : Gallery
shown = record { images = a ∷ b ∷ c ∷ []; error = false; uploading = none; busy_id = none }

-- The first image goes to the end: all three numbers change.
move_facts :
    (move_patches 0 2 a shown.images
      ≡ image (codes "b") 0 ∷ image (codes "c") 1 ∷ image (codes "a") 2 ∷ [])
    × (distinct (map image_id shown.images) ≡ true)
    × (mem_text (codes "b") (map image_id shown.images) ≡ true)
unfolding move_patches reorder renumber insert_at remove_at changed_from find_order mem_text text_eq
move_facts = (refl, refl, refl)

move_to_example :
    Perm (map image_id (move_to 0 2 true shown).images) (map image_id shown.images)
    × (get_elem? (move_to 0 2 true shown).images 2 ≡ some (record a { sort_order = 2 }))
    × ((i : ℕ) (img : BusinessImage)
        → get_elem? (move_to 0 2 true shown).images i ≡ some img
        → img.sort_order ≡ i)
move_to_example = move_to_lem 0 2 shown a (omega arith) (omega arith) refl

move_patches_agree_example :
    find_order (codes "b") (patch_orders (move_patches 0 2 a shown.images) shown.images)
    ≡ find_order (codes "b") (reorder 0 2 a shown.images)
move_patches_agree_example =
    move_patches_agree 0 2 a shown.images shown.images (codes "b") (λ k. refl) (move_facts.1) refl
      (move_facts.2)

-- Two files are picked, and the second one fails.
abbrev answers : List (Option BusinessImage)
answers = some (image (codes "d") 3) ∷ none ∷ []
