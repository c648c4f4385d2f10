-- ===== src/Fetch.antt =====
-- Calls of the server that an effect of a component makes: each has the flag that its clean-up sets,
-- so that an answer which comes too late is thrown away. `key` is what the call asks for.
pub mod Laws
use whatsapp_bots_saa_s.Base.{
  ℕ, Bool, true, false, Option, none, some, List, [], ◌∷◌, ◌==◌, if◌then◌else◌,
}

pub record Call {ℓ} (K : Type ℓ) : Type ℓ where
  pub id : ℕ
  pub key : K
  pub cancelled : Bool

-- The id of the call whose clean-up is kept.
abbrev pub is_kept : Option ℕ → ℕ → Bool
is_kept none id = false
is_kept (some i) id = i == id

module _ {ℓ} {K : Type ℓ} where
  unfoldable pub cancel : Option ℕ → Call K → Call K
  cancel kept c = if is_kept kept c.id then record c { cancelled = true } else c

  unfoldable pub cancel_calls : Option ℕ → List (Call K) → List (Call K)
  unfolding cancel
  cancel_calls kept [] = []
  cancel_calls kept (c ∷ cs) = cancel kept c ∷ cancel_calls kept cs

  unfoldable pub find_call : ℕ → List (Call K) → Option (Call K)
  find_call id [] = none
  find_call id (c ∷ cs) = let rest = find_call id cs in if c.id == id then some c else rest

  unfoldable pub drop_call : ℕ → List (Call K) → List (Call K)
  drop_call id [] = []
  drop_call id (c ∷ cs) = let rest = drop_call id cs in if c.id == id then rest else c ∷ rest
