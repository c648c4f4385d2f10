-- ===== src/Dict.antt =====
-- A `Record<string, V>`: the entries of an object in the order of insertion, each key once.
-- (Keys that are written as array indices, which JavaScript lists first, are not reordered.)
pub mod Laws
use whatsapp_bots_saa_s.Base.{Option, none, some, List, [], ◌∷◌, if◌then◌else◌}
use whatsapp_bots_saa_s.Text.{Text, text_eq}

module _ {ℓ} {V : Type ℓ} where
  -- `o[key]`.
  unfoldable pub lookup : Text → List (Text × V) → Option V
  unfolding text_eq
  lookup key [] = none
  lookup key ((k, v) ∷ o) = let rest = lookup key o in if text_eq k key then some v else rest

  -- `{ ...o, [key]: value }`: in place if the key is there, else at the end.
  unfoldable pub put : Text → V → List (Text × V) → List (Text × V)
  unfolding text_eq
  put key value [] = (key, value) ∷ []
  put key value ((k, v) ∷ o) =
      let rest = put key value o in if text_eq k key then (k, value) ∷ o else (k, v) ∷ rest

  -- `delete o[key]`.
  unfoldable pub delete : Text → List (Text × V) → List (Text × V)
  unfolding text_eq
  delete key [] = []
  delete key ((k, v) ∷ o) = let rest = delete key o in if text_eq k key then o else (k, v) ∷ rest

  -- `Object.keys(o)`.
  abbrev pub keys : List (Text × V) → List Text
  keys [] = []
  keys ((k, v) ∷ o) = k ∷ keys o
