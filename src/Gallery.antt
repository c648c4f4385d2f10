-- ===== src/Gallery.antt =====
-- frontend/src/components/booking/setup/GalleryManager.tsx: the owner's gallery, its upload queue, its
-- order and its captions, with the types of dashboard/businessPageTypes.ts. The server's answers
-- are arguments of the handlers.
mod Tests
pub mod Order
pub mod Patches
pub mod Server
pub mod Upload
use whatsapp_bots_saa_s.Base.{
  ℕ, zero, suc, ◌+◌, ◌-◌, Bool, true, false, not, ◌||◌, Option, none, some, List, [], ◌∷◌, ◌++◌,
  ltb, leb, ◌==◌, if◌then◌else◌, length, get_elem?, take, filter_by,
}
use whatsapp_bots_saa_s.Text.{Text, text_eq, trim}

pub record BusinessImage : Type 0 where
  pub id : Text
  pub storage_path : Text
  pub caption : Option Text
  pub sort_order : ℕ
  pub mime_type : Option Text
  pub size_bytes : Option ℕ
  pub created_at : Option Text

abbrev pub max_business_images : ℕ
max_business_images = 40

abbrev pub caption_max : ℕ
caption_max = 120

pub record Gallery : Type 0 where
  pub images : List BusinessImage
  pub error : Bool
  pub uploading : Option (ℕ × ℕ)
  pub busy_id : Option Text

-- `MAX_BUSINESS_IMAGES - images.length`, which the code cuts at 0 before it uses it.
unfoldable pub remaining : List BusinessImage → ℕ
remaining images = max_business_images - length images

-- The loop over the files: what the server made of each, up to the first failure.
unfoldable pub upload_loop : List (Option BusinessImage) → List BusinessImage × Bool
upload_loop [] = ([], false)
upload_loop (none ∷ answers) = ([], true)
upload_loop (some created ∷ answers) =
    let (added, stopped) = upload_loop answers in (created ∷ added, stopped)

-- `uploadFiles` over the server's answers to the files, one for each file that was picked.
unfoldable pub upload_files : List (Option BusinessImage) → Gallery → Gallery
upload_files [] g = g
upload_files (answer ∷ answers) g =
    let files = answer ∷ answers in
    let allowed = take (remaining g.images) files in
    let (added, stopped) = upload_loop allowed in
    record g {
      images = g.images ++ added;
      error = stopped || ltb (length allowed) (length files);
      uploading = none;
    }

-- `raw.trim().slice(0, CAPTION_MAX) || null`.
abbrev pub none_if_empty : Text → Option Text
none_if_empty [] = none
none_if_empty (c ∷ s) = some (c ∷ s)

unfoldable pub next_caption : Text → Option Text
next_caption raw = none_if_empty (take caption_max (trim raw))

abbrev pub caption_eq : Option Text → Option Text → Bool
caption_eq none none = true
caption_eq (some s) (some t) = text_eq s t
caption_eq _ _ = false

unfoldable pub replace_image : Text → BusinessImage → List BusinessImage → List BusinessImage
replace_image id updated [] = []
replace_image id updated (img ∷ images) =
    (if text_eq img.id id then updated else img) ∷ replace_image id updated images

-- `saveCaption`, with the server's answer to the PATCH.
unfoldable pub save_caption : BusinessImage → Text → Option BusinessImage → Gallery → Gallery
save_caption image raw answer g =
    if caption_eq (next_caption raw) image.caption then g else elim answer [
      | none ↦ record g { error = true; busy_id = none }
      | some updated ↦ record g {
        images = replace_image image.id updated g.images;
        error = false;
        busy_id = none;
      }
    ]

-- `splice(from, 1)` and `splice(to, 0, moved)`.
unfoldable pub remove_at {ℓ} : {A : Type ℓ} → ℕ → List A → List A
remove_at i [] = []
remove_at zero (x ∷ xs) = xs
remove_at (suc i) (x ∷ xs) = x ∷ remove_at i xs

unfoldable pub insert_at {ℓ} : {A : Type ℓ} → ℕ → A → List A → List A
insert_at zero x xs = x ∷ xs
insert_at (suc i) x [] = x ∷ []
insert_at (suc i) x (y ∷ ys) = y ∷ insert_at i x ys

-- `reordered.map((img, index) => ({ ...img, sort_order: index }))`, counting from `index`.
unfoldable pub renumber : ℕ → List BusinessImage → List BusinessImage
renumber index [] = []
renumber index (img ∷ images) = record img { sort_order = index } ∷ renumber (index + 1) images

unfoldable pub find_order : Text → List BusinessImage → Option ℕ
find_order id [] = none
find_order id (img ∷ images) =
    let rest = find_order id images in if text_eq img.id id then some img.sort_order else rest

abbrev pub order_is : Option ℕ → ℕ → Bool
order_is none n = false
order_is (some m) n = m == n

-- The renumbered images whose number in `old` is another.
unfoldable pub changed_from : List BusinessImage → List BusinessImage → List BusinessImage
changed_from old renumbered =
    filter_by (λ img. not (order_is (find_order img.id old) img.sort_order)) renumbered

unfoldable pub reorder : ℕ → ℕ → BusinessImage → List BusinessImage → List BusinessImage
reorder from to moved images = renumber 0 (insert_at to moved (remove_at from images))

-- A PATCH of one `sort_order`, as the server carries it out.
unfoldable pub patch_order : Text → ℕ → List BusinessImage → List BusinessImage
patch_order id order [] = []
patch_order id order (img ∷ images) =
    (if text_eq img.id id then record img { sort_order = order } else img)
    ∷ patch_order id order images

unfoldable pub patch_orders : List BusinessImage → List BusinessImage → List BusinessImage
patch_orders [] images = images
patch_orders (img ∷ changed) images =
    patch_orders changed (patch_order img.id img.sort_order images)

-- The guard of `moveTo`. (`to < 0` cannot hold of a natural number.)
unfoldable pub move_refused : ℕ → ℕ → List BusinessImage → Bool
move_refused from to images = leb (length images) to || from == to

-- The PATCHes of a move, `done` of which the server carries out before one fails, or all.
unfoldable pub move_patches : ℕ → ℕ → BusinessImage → List BusinessImage → List BusinessImage
move_patches from to moved images = changed_from images (reorder from to moved images)

unfoldable pub move_found : ℕ → ℕ → Bool → Gallery → Option BusinessImage → Gallery
move_found from to succeeds g none = g
move_found from to succeeds g (some moved) =
    if succeeds
    then record g { images = reorder from to moved g.images; error = false; busy_id = none }
    else record g { error = true; busy_id = none }

-- `moveTo`: the grid after it, when all PATCHes succeed or when one fails.
unfoldable pub move_to : ℕ → ℕ → Bool → Gallery → Gallery
move_to from to succeeds g =
    if move_refused from to g.images
    then g
    else move_found from to succeeds g (get_elem? g.images from)

-- `remove`, after the owner confirmed it, with the server's answer.
unfoldable pub remove_image : BusinessImage → Bool → Gallery → Gallery
remove_image image succeeds g =
    if succeeds
    then record g {
      images = filter_by (λ img. not (text_eq img.id image.id)) g.images;
      error = false;
      busy_id = none;
    }
    else record g { error = true; busy_id = none }
