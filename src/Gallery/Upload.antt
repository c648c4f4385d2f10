-- ===== src/Gallery/Upload.antt =====
-- The upload queue and the captions of GalleryManager.tsx.
use whatsapp_bots_saa_s.Base.{
  ℕ, zero, suc, ◌-◌, ◌≤◌, ◌≡◌, refl, ap, ◌∙◌, true, false, ◌||◌, Option, none, some, List, [], ◌∷◌,
  ◌++◌, map, arith, ltb, length, get_elem?, take, length-append,
}
use native.Mathlib.Nat.{le_refl}
use whatsapp_bots_saa_s.Gallery.{
  BusinessImage, Gallery, max_business_images, remaining, upload_loop, upload_files,
}

length-take-le {ℓ} : {A : Type ℓ} (n : ℕ) (xs : List A) → length (take n xs) ≤ n
length-take-le zero xs = omega arith
length-take-le (suc n) [] = omega arith
length-take-le (suc n) (x ∷ xs) = omega (arith, length-take-le n xs)

length-take-le_length {ℓ} : {A : Type ℓ} (n : ℕ) (xs : List A) → length (take n xs) ≤ length xs
length-take-le_length zero xs = omega arith
length-take-le_length (suc n) [] = omega arith
length-take-le_length (suc n) (x ∷ xs) = omega (arith, length-take-le_length n xs)

take-take {ℓ} : {A : Type ℓ} (m n : ℕ) (xs : List A) → m ≤ n → take m (take n xs) ≡ take m xs
take-take zero n xs h = refl
take-take (suc m) zero xs h = absurd (omega arith)
take-take (suc m) (suc n) [] h = refl
take-take (suc m) (suc n) (x ∷ xs) h = ap (λ r. x ∷ r) (take-take m n xs (omega arith))

length-upload_loop :
    (answers : List (Option BusinessImage)) → length (upload_loop answers).0 ≤ length answers
unfolding upload_loop
length-upload_loop [] = omega arith
length-upload_loop (none ∷ answers) = omega arith
length-upload_loop (some created ∷ answers) = omega (arith, length-upload_loop answers)

-- An upload never takes the gallery past its cap of 40 images, and never drops one.
upload_files-capped :
    (answers : List (Option BusinessImage)) (g : Gallery)
    → length g.images ≤ max_business_images
    → (length (upload_files answers g).images ≤ max_business_images)
      × (length g.images ≤ length (upload_files answers g).images)
unfolding upload_files remaining
upload_files-capped [] g h = (h, le_refl _)
upload_files-capped (answer ∷ answers) g h =
    let allowed = take (max_business_images - length g.images) (answer ∷ answers) in
    (
      omega (
        arith,
        length-append g.images (upload_loop allowed).0,
        length-upload_loop allowed,
        length-take-le (max_business_images - length g.images) (answer ∷ answers),
      ),
      omega (arith, length-append g.images (upload_loop allowed).0),
    )

-- What the loop stops at: it takes the answers up to the first failure.
upload_loop_lem :
    (answers : List (Option BusinessImage))
    → (map some (upload_loop answers).0 ≡ take (length (upload_loop answers).0) answers)
      × ((upload_loop answers).1 ≡ false → length (upload_loop answers).0 ≡ length answers)
      × ((upload_loop answers).1 ≡ true
          → get_elem? answers (length (upload_loop answers).0) ≡ some none)
unfolding upload_loop
upload_loop_lem [] = (refl, λ e. refl, λ e. cc)
upload_loop_lem (none ∷ answers) = (refl, λ e. cc, λ e. refl)
upload_loop_lem (some created ∷ answers) =
    let (a, b, c) = upload_loop_lem answers in (ap (λ r. some created ∷ r) a, λ e. ap suc (b e), c)

all_taken :
    (allowed files : List (Option BusinessImage))
    → length allowed ≤ length files
    → ((upload_loop allowed).1 || ltb (length allowed) (length files)) ≡ false
    → ((upload_loop allowed).1 ≡ false → length (upload_loop allowed).0 ≡ length allowed)
    → length (upload_loop allowed).0 ≡ length files
all_taken allowed files le e b =
    let running : (upload_loop allowed).1 ≡ false = ground arith in
    let all_allowed : length allowed ≡ length files = ground arith in b running ∙ all_allowed

-- The images that an upload of one file at least adds are those of the first answers, in their
-- order, and no answer after the first failure counts. Without an error every picked file is in the
-- gallery, and a gallery within its cap of 40 images stays within it.
pub upload_files_lem :
    (answers : List (Option BusinessImage)) (g : Gallery)
    → 1 ≤ length answers
    → (added : List BusinessImage) × ((upload_files answers g).images ≡ g.images ++ added)
      × (map some added ≡ take (length added) answers)
      × ((upload_files answers g).error ≡ false → length added ≡ length answers)
      × ((upload_files answers g).uploading ≡ none)
      × (length g.images ≤ max_business_images
          → length (upload_files answers g).images ≤ max_business_images)
unfolding upload_files
upload_files_lem [] g h = elim h [ ]
upload_files_lem (answer ∷ answers) g h =
    let files = answer ∷ answers in
    let allowed = take (remaining g.images) files in
    let (a, b, c) = upload_loop_lem allowed in
    (
      (upload_loop allowed).0,
      refl,
      a
          ∙ take-take _ (remaining g.images) files (
              omega (arith, length-upload_loop allowed, length-take-le (remaining g.images) files)),
      λ e. all_taken allowed files (length-take-le_length (remaining g.images) files) e b,
      refl,
      λ h. (upload_files-capped (answer ∷ answers) g h).0,
    )
