-- ===== src/Gallery/Patches.antt =====
-- A row of PATCHes in GalleryManager.tsx, as the server carries them out: afterwards the server has
-- the numbers of the targets.
use whatsapp_bots_saa_s.Base.{
  ℕ, ◌≡◌, refl, sym, ap, ◌∙◌, subst, ◌≢◌, inl, inr, Bool, true, false, not, ◌&&◌, Option, none,
  some, List, [], ◌∷◌, map, arith, if◌then◌else◌, Bool-cases, is_none,
}
use mathlib.Core.Bool.{false≢true}
use whatsapp_bots_saa_s.Text.{Text, distinct, text_eq, mem_text}
use whatsapp_bots_saa_s.Text.Laws.{text_eq→eq, text_eq_refl}
use whatsapp_bots_saa_s.Gallery.{
  BusinessImage, find_order, order_is, changed_from, patch_order, patch_orders,
}
use whatsapp_bots_saa_s.Gallery.Order.{image_id}

-- One PATCH changes one number.
pub find_order-patch_order :
    (id j : Text) (n : ℕ) (images : List BusinessImage)
    → find_order j (patch_order id n images) ≡ (
        if text_eq id j && not (is_none (find_order j images)) then some n else find_order j images)
unfolding find_order patch_order
find_order-patch_order id j n [] = ground arith
find_order-patch_order id j n (img ∷ images) = ground (
  arith,
  find_order-patch_order id j n images,
  text_eq→eq img.id id,
  text_eq→eq img.id j,
  text_eq→eq id j,
  text_eq_refl j,
)

abbrev changed_step : Bool → BusinessImage → List BusinessImage → List BusinessImage
changed_step same t rest = if same then rest else t ∷ rest

changed_from-cons :
    (old : List BusinessImage) (t : BusinessImage) (ts : List BusinessImage)
    → changed_from old (t ∷ ts)
      ≡ changed_step (order_is (find_order t.id old) t.sort_order) t (changed_from old ts)
unfolding changed_from
changed_from-cons old t ts = ground arith

-- Images that are not among the targets keep their numbers.
find_order-untouched :
    (old ts images : List BusinessImage) (j : Text)
    → mem_text j (map image_id ts) ≡ false
    → find_order j (patch_orders (changed_from old ts) images) ≡ find_order j images
unfolding patch_orders mem_text
find_order-untouched old [] images j h = unfold changed_from in refl
find_order-untouched old (t ∷ ts) images j h =
    elim (Bool-cases (order_is (find_order t.id old) t.sort_order)) [
      | inl same ↦
          rw (changed_from-cons old t ts, same)
            (find_order-untouched old ts images j (ground arith))
      | inr other ↦
          rw (changed_from-cons old t ts, other)
            (find_order-untouched old ts (patch_order t.id t.sort_order images) j (ground arith)
              ∙ find_order-patch_order t.id j t.sort_order images
              ∙ ground arith)
    ]

-- What the induction carries: the images still to be numbered have their old numbers.
abbrev Pending : List BusinessImage → List BusinessImage → List BusinessImage → Type 0
Pending old ts images =
    (i : Text) → mem_text i (map image_id ts) ≡ true → find_order i images ≡ find_order i old

text_eq_ne : (s t : Text) → s ≢ t → text_eq s t ≡ false
text_eq_ne s t n = elim (Bool-cases (text_eq s t)) [
  | inl e ↦ absurd (n (text_eq→eq s t e))
  | inr e ↦ e
]

Pending-skip :
    (old : List BusinessImage) (t : BusinessImage) (ts images : List BusinessImage)
    → Pending old (t ∷ ts) images
    → Pending old ts images
unfolding mem_text
Pending-skip old t ts images p i m = p i (ground arith)

Pending-patch :
    (old : List BusinessImage) (t : BusinessImage) (ts images : List BusinessImage)
    → mem_text t.id (map image_id ts) ≡ false
    → Pending old (t ∷ ts) images
    → Pending old ts (patch_order t.id t.sort_order images)
Pending-patch old t ts images fresh p i m =
    let n : text_eq t.id i ≡ false =
      text_eq_ne t.id i (λ e.
        false≢true (sym fresh ∙ subst (λ k. mem_text k (map image_id ts) ≡ true) (sym e) m)) in
    find_order-patch_order t.id i t.sort_order images ∙ rw n (Pending-skip old t ts images p i m)

order_is-some : (o : Option ℕ) (n : ℕ) → order_is o n ≡ true → o ≡ some n
order_is-some none n h = cc
order_is-some (some m) n h = ground arith

settled_here :
    (old : List BusinessImage) (t : BusinessImage) (ts images : List BusinessImage) (j : Text)
    (n : ℕ)
    → distinct (map image_id (t ∷ ts)) ≡ true
    → Pending old (t ∷ ts) images
    → text_eq t.id j ≡ true
    → find_order j (t ∷ ts) ≡ some n
    → find_order j images ≢ none
    → find_order j (patch_orders (changed_from old (t ∷ ts)) images) ≡ some n
unfolding patch_orders
settled_here old t ts images j n d p here f m =
    let same_id : t.id ≡ j = text_eq→eq t.id j here in
    let order : t.sort_order ≡ n = unfold find_order in ground arith in
    let fresh : mem_text j (map image_id ts) ≡ false =
      subst (λ k. mem_text k (map image_id ts) ≡ false) same_id (ground arith) in
    elim (Bool-cases (order_is (find_order t.id old) t.sort_order)) [
      | inl same ↦
          rw (changed_from-cons old t ts, same)
            (find_order-untouched old ts images j fresh
              ∙ p j (unfold mem_text in ground arith)
              ∙ ap (λ k. find_order k old) (sym same_id)
              ∙ order_is-some _ _ same
              ∙ ap some order)
      | inr other ↦
          rw (changed_from-cons old t ts, other)
            (find_order-untouched old ts (patch_order t.id t.sort_order images) j fresh
              ∙ find_order-patch_order t.id j t.sort_order images
              ∙ ground arith)
    ]

-- After the PATCHes the server's number of a target is the target's.
pub find_order-settled :
    (old ts images : List BusinessImage) (j : Text) (n : ℕ)
    → distinct (map image_id ts) ≡ true
    → Pending old ts images
    → find_order j ts ≡ some n
    → find_order j images ≢ none
    → find_order j (patch_orders (changed_from old ts) images) ≡ some n
unfolding patch_orders
find_order-settled old [] images j n d p f m = unfold find_order in cc
find_order-settled old (t ∷ ts) images j n d p f m = elim (Bool-cases (text_eq t.id j)) [
  | inl here ↦ settled_here old t ts images j n d p here f m
  | inr there ↦ elim (Bool-cases (order_is (find_order t.id old) t.sort_order)) [
    | inl same ↦
        rw (changed_from-cons old t ts, same)
          (find_order-settled old ts images j n (ground arith) (Pending-skip old t ts images p)
            (unfold find_order in ground arith) m)
    | inr other ↦
        rw (changed_from-cons old t ts, other)
          (find_order-settled old ts (patch_order t.id t.sort_order images) j n (ground arith)
            (Pending-patch old t ts images (ground arith) p) (unfold find_order in ground arith)
            (λ e. m (sym (find_order-patch_order t.id j t.sort_order images ∙ rw there) ∙ e)))
  ]
]
