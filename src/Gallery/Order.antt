-- ===== src/Gallery/Order.antt =====
-- Moving an image in GalleryManager.tsx: the new order, and the server's numbers after the PATCHes.
use whatsapp_bots_saa_s.Base.{
  ℕ, zero, suc, ◌+◌, ◌<◌, ◌≤◌, ◌≡◌, refl, ap, ◌∙◌, subst, ◌≢◌, true, false, ◌||◌, some, List, [],
  ◌∷◌, map, arith, leb, ◌==◌, length, get_elem?, get_elem?-lt,
}
use mathlib.Core.Path.{ap₂}
use mathlib.Core.Option.{some-injective}
use mathlib.Core.List.{Perm}
use mathlib.Core.List.Perm
use whatsapp_bots_saa_s.Text.{Text}
use whatsapp_bots_saa_s.Gallery.{
  BusinessImage, Gallery, remove_at, insert_at, renumber, reorder, move_refused, move_found,
  move_to,
}

abbrev pub image_id : BusinessImage → Text
image_id img = img.id

insert_at-perm : {A : Type 0} (i : ℕ) (x : A) (xs : List A) → Perm (insert_at i x xs) (x ∷ xs)
unfolding insert_at
insert_at-perm zero x xs = Perm.refl _
insert_at-perm (suc i) x [] = Perm.refl _
insert_at-perm (suc i) x (y ∷ ys) =
    Perm.trans (Perm.cons y (insert_at-perm i x ys)) (Perm.swap x y ys)

remove_at-perm :
    {A : Type 0} (i : ℕ) (x : A) (xs : List A)
    → get_elem? xs i ≡ some x
    → Perm (x ∷ remove_at i xs) xs
unfolding remove_at
remove_at-perm i x [] h = cc
remove_at-perm zero x (y ∷ ys) h =
    subst (λ z. Perm (z ∷ ys) (y ∷ ys)) (some-injective _ _ h) (Perm.refl _)
remove_at-perm (suc i) x (y ∷ ys) h =
    Perm.trans (Perm.swap y x _) (Perm.cons y (remove_at-perm i x ys h))

get_elem?-insert_at :
    {A : Type 0} (i : ℕ) (x : A) (xs : List A)
    → i ≤ length xs
    → get_elem? (insert_at i x xs) i ≡ some x
unfolding insert_at
get_elem?-insert_at zero x xs h = refl
get_elem?-insert_at (suc i) x [] h = absurd (omega arith)
get_elem?-insert_at (suc i) x (y ∷ ys) h = get_elem?-insert_at i x ys (omega arith)

length-remove_at :
    {A : Type 0} (i : ℕ) (xs : List A) → i < length xs → suc (length (remove_at i xs)) ≡ length xs
unfolding remove_at
length-remove_at i [] h = elim h [ ]
length-remove_at zero (x ∷ xs) h = refl
length-remove_at (suc i) (x ∷ xs) h = ap suc (length-remove_at i xs (omega arith))

-- Each image is numbered by its place, and is otherwise the image that stood there.
renumber_lem :
    (index i : ℕ) (images : List BusinessImage) {img : BusinessImage}
    → get_elem? images i ≡ some img
    → get_elem? (renumber index images) i ≡ some (record img { sort_order = index + i })
unfolding renumber
renumber_lem index i [] h = cc
renumber_lem index zero (x ∷ xs) {img} h =
    let e : x ≡ img = cc in
    ap₂ (λ (y : BusinessImage) (n : ℕ). some (record y { sort_order = n })) e (omega arith)
renumber_lem index (suc i) (x ∷ xs) {img} h =
    renumber_lem (index + 1) i xs h ∙ ap (λ n. some (record img { sort_order = n })) (omega arith)

map-id-renumber :
    (index : ℕ) (images : List BusinessImage)
    → map image_id (renumber index images) ≡ map image_id images
unfolding renumber
map-id-renumber index [] = refl
map-id-renumber index (x ∷ xs) = ap (λ ids. x.id ∷ ids) (map-id-renumber (index + 1) xs)

map-insert_at :
    {A B : Type 0} (f : A → B) (i : ℕ) (x : A) (xs : List A)
    → map f (insert_at i x xs) ≡ insert_at i (f x) (map f xs)
unfolding insert_at
map-insert_at f zero x xs = refl
map-insert_at f (suc i) x [] = refl
map-insert_at f (suc i) x (y ∷ ys) = ap (λ r. f y ∷ r) (map-insert_at f i x ys)

map-remove_at :
    {A B : Type 0} (f : A → B) (i : ℕ) (xs : List A)
    → map f (remove_at i xs) ≡ remove_at i (map f xs)
unfolding remove_at
map-remove_at f i [] = refl
map-remove_at f zero (x ∷ xs) = refl
map-remove_at f (suc i) (x ∷ xs) = ap (λ r. f x ∷ r) (map-remove_at f i xs)

pub get_elem?-map :
    {A B : Type 0} (f : A → B) (xs : List A) (i : ℕ) {x : A}
    → get_elem? xs i ≡ some x
    → get_elem? (map f xs) i ≡ some (f x)
get_elem?-map f [] i h = cc
get_elem?-map f (y ∷ ys) zero h = ap (λ z. some (f z)) (some-injective _ _ h)
get_elem?-map f (y ∷ ys) (suc i) h = get_elem?-map f ys i h

pub ids-reorder :
    (from to : ℕ) (moved : BusinessImage) (images : List BusinessImage)
    → map image_id (reorder from to moved images)
      ≡ insert_at to moved.id (remove_at from (map image_id images))
unfolding reorder
ids-reorder from to moved images =
    map-id-renumber 0 _
    ∙ map-insert_at image_id to moved _
    ∙ ap (insert_at to moved.id) (map-remove_at image_id from images)

reorder-perm :
    (from to : ℕ) (moved : BusinessImage) (images : List BusinessImage)
    → get_elem? images from ≡ some moved
    → Perm (map image_id (reorder from to moved images)) (map image_id images)
reorder-perm from to moved images h = rw (ids-reorder from to moved images) (
    Perm.trans (insert_at-perm to moved.id _)
      (remove_at-perm from moved.id (map image_id images) (get_elem?-map image_id images from h)))

renumbered_at :
    (index i : ℕ) (images : List BusinessImage) {img : BusinessImage}
    → get_elem? (renumber index images) i ≡ some img
    → img.sort_order ≡ index + i
unfolding renumber
renumbered_at index i [] h = cc
renumbered_at index zero (x ∷ xs) {img} h =
    let e : img ≡ record x { sort_order = index } = cc in
    ap (λ (y : BusinessImage). y.sort_order) e ∙ omega arith
renumbered_at index (suc i) (x ∷ xs) h = renumbered_at (index + 1) i xs h ∙ omega arith

move_to-images :
    (from to : ℕ) (g : Gallery) (moved : BusinessImage)
    → to < length g.images
    → from ≢ to
    → get_elem? g.images from ≡ some moved
    → (move_to from to true g).images ≡ reorder from to moved g.images
unfolding move_to move_refused move_found
move_to-images from to g moved lt ne h =
    let e : (leb (length g.images) to || from == to) ≡ false = ground arith in rw (e, h)

-- Every image is numbered by its place.
numbered :
    (from to : ℕ) (moved : BusinessImage) (images : List BusinessImage) (i : ℕ)
    {img : BusinessImage}
    → get_elem? (reorder from to moved images) i ≡ some img
    → img.sort_order ≡ i
unfolding reorder
numbered from to moved images i h = renumbered_at 0 i _ h ∙ omega arith

reorder_at :
    (from to : ℕ) (moved : BusinessImage) (images : List BusinessImage)
    → to < length images
    → from < length images
    → get_elem? (reorder from to moved images) to ≡ some (record moved { sort_order = to })
unfolding reorder
reorder_at from to moved images lt inside =
    renumber_lem 0 to _ (
      get_elem?-insert_at to moved (remove_at from images)
        (omega (arith, length-remove_at from images inside)))
    ∙ ap (λ n. some (record moved { sort_order = n })) (omega arith)

-- A move that goes through gives the same images in a new order: the moved one stands at its
-- new place, and every image is numbered by its place, 0, 1, 2 and so on.
pub move_to_lem :
    (from to : ℕ) (g : Gallery) (moved : BusinessImage)
    → to < length g.images
    → from ≢ to
    → get_elem? g.images from ≡ some moved
    → Perm (map image_id (move_to from to true g).images) (map image_id g.images)
      × (get_elem? (move_to from to true g).images to ≡ some (record moved { sort_order = to }))
      × ((i : ℕ) (img : BusinessImage)
          → get_elem? (move_to from to true g).images i ≡ some img
          → img.sort_order ≡ i)
move_to_lem from to g moved lt ne h =
    let e = move_to-images from to g moved lt ne h in
    rw e (
      reorder-perm from to moved g.images h,
      reorder_at from to moved g.images lt (get_elem?-lt g.images from h),
      λ i img k. numbered from to moved g.images i k,
    )
