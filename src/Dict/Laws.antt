-- ===== src/Dict/Laws.antt =====
-- The laws of reading and writing the entries of an object.
use whatsapp_bots_saa_s.Base.{
  ◌≡◌, ◌∙◌, ◌≢◌, ◌↔◌, true, ◌||◌, none, some, List, [], ◌∷◌, arith, if◌then◌else◌,
}
use whatsapp_bots_saa_s.Text.{Text, text_eq, mem_text}
use whatsapp_bots_saa_s.Text.Laws.{text_eq→eq, text_eq_refl}
use whatsapp_bots_saa_s.Dict.{lookup, put, keys}

module _ {ℓ} {V : Type ℓ} where
  pub lookup-put :
      (k j : Text) (v : V) (o : List (Text × V))
      → lookup j (put k v o) ≡ (if text_eq k j then some v else lookup j o)
  unfolding lookup put
  lookup-put k j v [] = ground arith
  lookup-put k j v ((i, w) ∷ o) = ground (
    arith,
    lookup-put k j v o,
    text_eq→eq i k,
    text_eq→eq i j,
    text_eq→eq k j,
    text_eq_refl j,
    text_eq_refl k,
  )

  pub lookup-put_self : (k : Text) (v : V) (o : List (Text × V)) → lookup k (put k v o) ≡ some v
  lookup-put_self k v o = lookup-put k k v o ∙ rw (text_eq_refl k)

  pub mem_text-keys-put :
      (k j : Text) (v : V) (o : List (Text × V))
      → mem_text j (keys (put k v o)) ≡ (mem_text j (keys o) || text_eq k j)
  unfolding put mem_text
  mem_text-keys-put k j v [] = ground arith
  mem_text-keys-put k j v ((i, w) ∷ o) =
      ground (arith, mem_text-keys-put k j v o, text_eq→eq i k, text_eq→eq k j, text_eq_refl j)

  pub mem_text-keys_iff :
      (k : Text) (o : List (Text × V)) → (mem_text k (keys o) ≡ true) ↔ (lookup k o ≢ none)
  unfolding lookup mem_text
  mem_text-keys_iff k [] = ground arith
  mem_text-keys_iff k ((i, w) ∷ o) = ground (arith, mem_text-keys_iff k o)
