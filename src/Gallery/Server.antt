-- ===== src/Gallery/Server.antt =====
-- The PATCHes of a move in GalleryManager.tsx, as the server carries them out.
use whatsapp_bots_saa_s.Base.{
  ℕ, zero, suc, ◌≡◌, refl, sym, ap, ◌∙◌, subst, ◌≢◌, ◌↔◌, inl, inr, Bool, true, false, not, ◌||◌,
  Option, none, some, List, [], ◌∷◌, map, arith, Bool-cases, Option-cases, get_elem?, filter_by,
}
use whatsapp_bots_saa_s.Text.{Text, distinct, text_eq, mem_text}
use whatsapp_bots_saa_s.Text.Laws.{text_eq→eq, text_eq_refl}
use whatsapp_bots_saa_s.Gallery.{
  BusinessImage, Gallery, remove_at, insert_at, find_order, order_is, changed_from, reorder,
  patch_orders, move_patches, move_to, move_found, move_refused,
}
use whatsapp_bots_saa_s.Gallery.Order.{image_id, get_elem?-map, ids-reorder}
use whatsapp_bots_saa_s.Gallery.Patches.{find_order-patch_order, find_order-settled}

-- The ids after a move.
mem_text-insert_at :
    (s t : Text) (i : ℕ) (ts : List Text)
    → mem_text s (insert_at i t ts) ≡ (text_eq t s || mem_text s ts)
unfolding mem_text insert_at
mem_text-insert_at s t zero ts = refl
mem_text-insert_at s t (suc i) [] = refl
mem_text-insert_at s t (suc i) (r ∷ ts) = ground (arith, mem_text-insert_at s t i ts)

distinct-insert_at :
    (t : Text) (i : ℕ) (ts : List Text)
    → distinct ts ≡ true
    → mem_text t ts ≡ false
    → distinct (insert_at i t ts) ≡ true
unfolding mem_text insert_at
distinct-insert_at t zero ts d n = ground arith
distinct-insert_at t (suc i) [] d n = refl
distinct-insert_at t (suc i) (r ∷ ts) d n =
    ground (
      arith,
      distinct-insert_at t i ts,
      mem_text-insert_at r t i ts,
      text_eq→eq t r,
      text_eq_refl r,
    )

mem_text-remove_at :
    (s t : Text) (i : ℕ) (ts : List Text)
    → get_elem? ts i ≡ some t
    → mem_text s ts ≡ (text_eq t s || mem_text s (remove_at i ts))
unfolding mem_text remove_at
mem_text-remove_at s t i [] h = cc
mem_text-remove_at s t zero (r ∷ ts) h = ground arith
mem_text-remove_at s t (suc i) (r ∷ ts) h = ground (arith, mem_text-remove_at s t i ts h)

distinct-remove_at :
    (t : Text) (i : ℕ) (ts : List Text)
    → get_elem? ts i ≡ some t
    → distinct ts ≡ true
    → (distinct (remove_at i ts) ≡ true) × (mem_text t (remove_at i ts) ≡ false)
unfolding mem_text remove_at
distinct-remove_at t i [] h d = cc
distinct-remove_at t zero (r ∷ ts) h d = ground arith
distinct-remove_at t (suc i) (r ∷ ts) h d = ground (
  arith,
  distinct-remove_at t i ts h,
  mem_text-remove_at r t i ts h,
  text_eq→eq r t,
  text_eq_refl t,
)

find_order-mem :
    (j : Text) (images : List BusinessImage)
    → (find_order j images ≢ none) ↔ (mem_text j (map image_id images) ≡ true)
unfolding find_order mem_text
find_order-mem j [] = ground arith
find_order-mem j (img ∷ images) = ground (arith, find_order-mem j images)

-- When no two images of the grid have the same id, the server holds the same images as the grid with the
-- same numbers, in any order, and every PATCH of a move goes through, then the server holds for every
-- image the number that the grid shows, although only the images whose number changed were sent.
pub move_patches_agree :
    (from to : ℕ) (moved : BusinessImage) (images server : List BusinessImage) (j : Text)
    → ((k : Text) → find_order k server ≡ find_order k images)
    → distinct (map image_id images) ≡ true
    → get_elem? images from ≡ some moved
    → mem_text j (map image_id images) ≡ true
    → find_order j (patch_orders (move_patches from to moved images) server)
      ≡ find_order j (reorder from to moved images)
unfolding move_patches
move_patches_agree from to moved images server j same d h m =
    let at = get_elem?-map image_id images from h in
    let (left, gone) = distinct-remove_at moved.id from (map image_id images) at d in
    let ids = ids-reorder from to moved images in
    let d' : distinct (map image_id (reorder from to moved images)) ≡ true =
      rw ids (distinct-insert_at moved.id to _ left gone) in
    let m' : mem_text j (map image_id (reorder from to moved images)) ≡ true = rw ids (
      mem_text-insert_at j moved.id to _
      ∙ sym (mem_text-remove_at j moved.id from (map image_id images) at)
      ∙ m) in
    elim (Option-cases (find_order j (reorder from to moved images))) [
      | inl lost ↦ absurd ((find_order-mem j _).1 m' lost)
      | inr (n, found) ↦
          find_order-settled images (reorder from to moved images) server j n d' (λ i k. same i)
            found (λ e. (find_order-mem j images).1 m (sym (same j) ∙ e))
          ∙ sym found
    ]

filter_by-head :
    (p : BusinessImage → Bool) (xs : List BusinessImage) {y : BusinessImage}
    {ys : List BusinessImage}
    → filter_by p xs ≡ y ∷ ys
    → p y ≡ true
filter_by-head p [] h = cc
filter_by-head p (x ∷ xs) {y} {ys} h = elim (Bool-cases (p x)) [
  | inl yes_x ↦ let e : x ≡ y = ground arith in subst (λ z. p z ≡ true) e yes_x
  | inr no_x ↦ let e : filter_by p xs ≡ y ∷ ys = ground arith in filter_by-head p xs e
]

move_to-failed : (from to : ℕ) (g : Gallery) → (move_to from to false g).images ≡ g.images
unfolding move_to
move_to-failed from to g = elim (Bool-cases (move_refused from to g.images)) [
  | inl refused ↦ rw refused
  | inr moving ↦ rw moving (kept (get_elem? g.images from))
]
  where
    kept : (o : Option BusinessImage) → (move_found from to false g o).images ≡ g.images
    kept none = unfold move_found in refl
    kept (some moved) = unfold move_found in refl

order_is_self : (n : ℕ) → order_is (some n) n ≡ true
order_is_self n = ground arith

-- When the first PATCH of a move goes through and a later one fails, the grid goes back to the old
-- numbers, and the server holds the new number of the first image: the two differ.
pub move_failed_halfway :
    (from to : ℕ) (g : Gallery) (moved first : BusinessImage) (rest : List BusinessImage)
    → move_patches from to moved g.images ≡ first ∷ rest
    → mem_text first.id (map image_id g.images) ≡ true
    → find_order first.id (move_to from to false g).images
      ≢ find_order first.id (patch_orders (first ∷ []) g.images)
unfolding move_patches changed_from patch_orders
move_failed_halfway from to g moved first rest e m same =
    let changed : not (order_is (find_order first.id g.images) first.sort_order) ≡ true =
      filter_by-head _ (reorder from to moved g.images) e in
    let now : find_order first.id g.images ≡ some first.sort_order =
      ap (find_order first.id) (sym (move_to-failed from to g))
      ∙ same
      ∙ find_order-patch_order first.id first.id first.sort_order g.images
      ∙ ground (arith, text_eq_refl first.id, (find_order-mem first.id g.images).1 m) in
    ground (arith, order_is_self first.sort_order)
