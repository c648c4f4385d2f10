-- ===== src/Fetch/Laws.antt =====
-- Which calls still count: the one whose clean-up is kept, and no other.
use whatsapp_bots_saa_s.Base.{
  ℕ, ◌+◌, ◌≡◌, refl, sym, subst, inl, inr, Bool, true, false, not, Option, none, some, List, [],
  ◌∷◌, arith, ◌==◌, if◌then◌else◌, Bool-cases, any,
}
use mathlib.Core.Option.{some-injective}
use whatsapp_bots_saa_s.Fetch.{Call, is_kept, cancel, cancel_calls, find_call, drop_call}

is_kept_unique : (o : Option ℕ) (i j : ℕ) → is_kept o i ≡ true → is_kept o j ≡ true → i ≡ j
is_kept_unique none i j h k = cc
is_kept_unique (some n) i j h k = ground arith

module _ {ℓ} {K : Type ℓ} where
  abbrev pub counts : Call K → Bool
  counts c = not c.cancelled

  -- Every call that counts is the one whose clean-up is kept, and asks for this key.
  pub record IsKept (kept : Option ℕ) (key : K) (c : Call K) : Type ℓ where
    pub id_kept : is_kept kept c.id ≡ true
    pub same_key : c.key ≡ key

  pub data Covers (kept : Option ℕ) (key : K) : List (Call K) → Type ℓ where
    done : Covers kept key []
    more :
        (c : Call K) (cs : List (Call K))
        → (counts c ≡ true → IsKept kept key c)
        → Covers kept key cs
        → Covers kept key (c ∷ cs)

  pub cancel_calls-none_count :
      (kept : Option ℕ) (key : K) (cs : List (Call K))
      → Covers kept key cs
      → any counts (cancel_calls kept cs) ≡ false
  unfolding cancel_calls cancel
  cancel_calls-none_count kept key _ done = refl
  cancel_calls-none_count kept key _ (more c cs h rest) =
      let later = cancel_calls-none_count kept key cs rest in
      elim (Bool-cases (counts c)) [
        | inl live ↦ rw ((h live).id_kept) later
        | inr closed ↦ ground (arith, closed, later)
      ]

  pub none_count-Covers :
      (kept : Option ℕ) (key : K) (cs : List (Call K)) → any counts cs ≡ false → Covers kept key cs
  none_count-Covers kept key [] n = done
  none_count-Covers kept key (c ∷ cs) n =
      more c cs (λ h. absurd (ground arith)) (none_count-Covers kept key cs (ground arith))

  pub drop_call-Covers :
      (id : ℕ) (kept : Option ℕ) (key : K) (cs : List (Call K))
      → Covers kept key cs
      → Covers kept key (drop_call id cs)
  unfolding drop_call
  drop_call-Covers id kept key _ done = done
  drop_call-Covers id kept key _ (more c cs h rest) = elim (Bool-cases (c.id == id)) [
    | inl same ↦ rw same (drop_call-Covers id kept key cs rest)
    | inr other ↦ rw other (more c (drop_call id cs) h (drop_call-Covers id kept key cs rest))
  ]

  pub any-drop_call :
      (id : ℕ) (cs : List (Call K)) → any counts (drop_call id cs) ≡ true → any counts cs ≡ true
  unfolding drop_call
  any-drop_call id [] h = h
  any-drop_call id (c ∷ cs) h = ground (arith, any-drop_call id cs)

  -- When the call that counts ends, none is left that counts.
  pub drop_call-none_count :
      (id : ℕ) (kept : Option ℕ) (key : K) (cs : List (Call K))
      → Covers kept key cs
      → is_kept kept id ≡ true
      → any counts (drop_call id cs) ≡ false
  unfolding drop_call
  drop_call-none_count id kept key _ done k = refl
  drop_call-none_count id kept key _ (more c cs h rest) k =
      let later = drop_call-none_count id kept key cs rest k in
      elim (Bool-cases (counts c)) [
        | inl live ↦ ground (arith, is_kept_unique kept c.id id ((h live).id_kept) k, later)
        | inr closed ↦ ground (arith, closed, later)
      ]

  pub find_call-IsKept :
      (id : ℕ) (kept : Option ℕ) (key : K) (cs : List (Call K)) {c : Call K}
      → Covers kept key cs
      → find_call id cs ≡ some c
      → counts c ≡ true
      → (any counts cs ≡ true) × IsKept kept key c
  unfolding find_call
  find_call-IsKept id kept key _ done e o = cc
  find_call-IsKept id kept key _ {c = r} (more c cs h rest) e o = elim (Bool-cases (c.id == id)) [
    | inl same ↦
        let here : c ≡ r =
          some-injective _ _
            (subst (λ b. (if b then some c else find_call id cs) ≡ some r) same e) in
        let live : counts c ≡ true = subst (λ x. counts x ≡ true) (sym here) o in
        subst (λ x. (any counts (c ∷ cs) ≡ true) × IsKept kept key x) here
          (ground (arith, live), h live)
    | inr other ↦
        let later = subst (λ b. (if b then some c else find_call id cs) ≡ some r) other e in
        let (a, b) = find_call-IsKept id kept key cs rest later o in (ground (arith, a), b)
  ]

  -- A call whose clean-up is not kept is still found, open, after the next one was made.
  pub find_call-forgotten :
      (n id : ℕ) (a b : K) (kept : Option ℕ) (cs : List (Call K))
      → n ≡ id + 1
      → is_kept kept id ≡ false
      → find_call id (
          record { id = n; key = b; cancelled = false }
          ∷ cancel_calls kept (record { id = id; key = a; cancelled = false } ∷ cs))
        ≡ some (record { id = id; key = a; cancelled = false })
  unfolding find_call cancel_calls cancel
  find_call-forgotten n id a b kept cs hn hk = ground (arith, hn, hk)
