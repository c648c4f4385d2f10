-- ===== src/Gateway/AuthStore/Saving.antt =====
-- What the backend holds after the saves, in the order of their arrival and in another.
use whatsapp_bots_saa_s.Base.{
  ◌≡◌, refl, sym, subst, ◌⊎◌, inl, inr, Bool, true, false, Option, none, some, List, [], ◌∷◌, ◌++◌,
  ◌==◌, if◌then◌else◌, Bool-cases, All,
}
use mathlib.Core.Bool.{false≢true}
use whatsapp_bots_saa_s.Text.{Text, codes}
use whatsapp_bots_saa_s.Dict.{put}
use whatsapp_bots_saa_s.Gateway.Value.{Value}
use whatsapp_bots_saa_s.Gateway.AuthStore.{
  Snapshot, AuthStore, snapshot, opened, schedule_save, do_save, save_if_pending, keys_set,
  save_creds_of, clear_sessions_for_users, arrive, StoreEvent, set_data, set_creds, clear, save_due,
  arrives, is_lost, store_step, cleared_count, kept_sessions, bucket,
}

abbrev pub last_of : Option Snapshot → List Snapshot → Option Snapshot
last_of o [] = o
last_of o (t ∷ ts) = last_of (some t) ts

-- The saves arrive in the order in which they were sent, and none is lost.
abbrev pub IsOrdered : StoreEvent → Type 0
IsOrdered (set_data d) = Unit
IsOrdered (set_creds c) = Unit
IsOrdered (clear us) = Unit
IsOrdered save_due = Unit
IsOrdered (arrives i) = i ≡ 0
IsOrdered (is_lost i) = ⊥

-- The memory as it was opened without a blob that could be read: nothing was sent or stored.
abbrev pub IsUntouched : Option Snapshot → Snapshot → AuthStore → Type 0
IsUntouched blob first s = (blob ≡ none) × (s.stored ≡ none) × (s.saves ≡ []) × (snapshot s ≡ first)

-- Where no save is pending, the newest one that was sent has the whole memory, if there was a reason
-- for one.
abbrev pub IsTracked : Option Snapshot → Snapshot → AuthStore → Type 0
IsTracked blob first s =
    s.save_timer ≡ false → (last_of s.stored s.saves ≡ some (snapshot s)) ⊎ IsUntouched blob first s

last_of-append :
    (o : Option Snapshot) (t : Snapshot) (ss : List Snapshot) → last_of o (ss ++ t ∷ []) ≡ some t
last_of-append o t [] = refl
last_of-append o t (u ∷ ss) = last_of-append (some u) t ss

abbrev pub store_run : List StoreEvent → AuthStore → AuthStore
store_run [] s = s
store_run (e ∷ es) s = store_run es (store_step e s)

not_empty : (t : Snapshot) (ss : List Snapshot) → t ∷ ss ≡ [] → ⊥
not_empty t ss e = cc

fresh_state : Value → Snapshot
fresh_state fresh = record { creds = fresh; keys = [] }

opened-IsTracked :
    (fresh : Value) (blob : Option Snapshot)
    → IsTracked blob (fresh_state fresh) (opened fresh blob)
unfolding opened snapshot fresh_state
opened-IsTracked fresh none = λ e. inr (refl, refl, refl, refl)
opened-IsTracked fresh (some state) = λ e. inl refl

module _ (blob : Option Snapshot) (first : Snapshot) where
  save_if_pending-IsTracked :
      (s : AuthStore) → IsTracked blob first s → IsTracked blob first (save_if_pending s)
  unfolding save_if_pending do_save snapshot
  save_if_pending-IsTracked s h = elim (Bool-cases s.save_timer) [
    | inl e ↦ rw e (λ k. inl (last_of-append s.stored (snapshot s) s.saves))
    | inr e ↦ rw e (λ k. h e)
  ]

  arrive-IsTracked : (s : AuthStore) → IsTracked blob first s → IsTracked blob first (arrive 0 s)
  unfolding arrive snapshot
  arrive-IsTracked s h = go s.saves h
    where
      go :
          (ss : List Snapshot)
          → (s.save_timer ≡ false
              → (last_of s.stored ss ≡ some (snapshot s))
                ⊎ ((blob ≡ none) × (s.stored ≡ none) × (ss ≡ []) × (snapshot s ≡ first)))
          → IsTracked blob first (arrive 0 (record s { saves = ss }))
      go [] k = k
      go (t ∷ ss) k = λ e. elim (k e) [
        | inl newest ↦ inl newest
        | inr (lost, empty, no_saves, same) ↦ absurd (not_empty t ss no_saves)
      ]

  clear-IsTracked :
      (users : List Text) (s : AuthStore)
      → IsTracked blob first s
      → IsTracked blob first (clear_sessions_for_users users s).1
  unfolding clear_sessions_for_users schedule_save
  clear-IsTracked users s h = go (cleared_count users (bucket (codes "session") s.keys) == 0)
    where
      next : AuthStore
      next = record s {
        keys = put (codes "session") (kept_sessions users (bucket (codes "session") s.keys)) s.keys;
      }

      go : (b : Bool) → IsTracked blob first (if b then s else schedule_save next)
      go true = h
      go false = λ k. absurd (false≢true (sym k))

  store_step-IsTracked :
      (e : StoreEvent) (s : AuthStore)
      → IsOrdered e
      → IsTracked blob first s
      → IsTracked blob first (store_step e s)
  unfolding store_step keys_set save_creds_of schedule_save
  store_step-IsTracked (set_data d) s o h = λ k. absurd (false≢true (sym k))
  store_step-IsTracked (set_creds c) s o h = λ k. absurd (false≢true (sym k))
  store_step-IsTracked (clear us) s o h = clear-IsTracked us s h
  store_step-IsTracked save_due s o h = save_if_pending-IsTracked s h
  store_step-IsTracked (arrives i) s o h = rw o (arrive-IsTracked s h)
  store_step-IsTracked (is_lost i) s o h = elim o [ ]

  run-IsTracked :
      (es : List StoreEvent) (s : AuthStore)
      → All IsOrdered es
      → IsTracked blob first s
      → IsTracked blob first (store_run es s)
  run-IsTracked [] s o h = h
  run-IsTracked (e ∷ es) s (o, os) h =
      run-IsTracked es (store_step e s) os (store_step-IsTracked e s o h)

-- If the saves of a session arrive in the order in which they were sent and none is lost, then
-- whenever no save is pending and none is under way, the backend holds the memory of the session,
-- credentials and keys. The one exception is a session that was opened with no blob, or with one
-- that cannot be read, and whose memory is still the fresh one: then nothing was stored.
pub stored_lem :
    (fresh : Value) (blob : Option Snapshot) (es : List StoreEvent)
    → All IsOrdered es
    → (store_run es (opened fresh blob)).save_timer ≡ false
    → (store_run es (opened fresh blob)).saves ≡ []
    → ((store_run es (opened fresh blob)).stored
        ≡ some (snapshot (store_run es (opened fresh blob))))
      ⊎ ((blob ≡ none)
          × ((store_run es (opened fresh blob)).stored ≡ none)
          × (snapshot (store_run es (opened fresh blob)) ≡ record { creds = fresh; keys = [] }))
unfolding fresh_state
stored_lem fresh blob es o h k =
    let s = store_run es (opened fresh blob) in
    elim (run-IsTracked blob (fresh_state fresh) es (opened fresh blob) o
      (opened-IsTracked fresh blob) h) [
        | inl newest ↦ inl (subst (λ ss. last_of s.stored ss ≡ some (snapshot s)) k newest)
        | inr (unread, nothing, no_saves, same) ↦ inr (unread, nothing, same)
      ]

abbrev creds_of : Option Snapshot → Option Value
creds_of none = none
creds_of (some t) = some t.creds

-- Two saves of changed credentials that are under way together and arrive in the other order leave
-- the older ones with the backend, with no save pending: the saves are not put in order.
pub stored_old :
    (fresh : Value) (blob : Option Snapshot) (older newer : Value)
    → let s =
        store_run
          (set_creds older ∷ save_due ∷ set_creds newer ∷ save_due ∷ arrives 1 ∷ arrives 0 ∷ [])
          (opened fresh blob) in
      (creds_of s.stored ≡ some older) × (s.creds ≡ newer) × (s.save_timer ≡ false) × (s.saves ≡ [])
unfolding opened store_step save_creds_of schedule_save save_if_pending do_save arrive snapshot
stored_old fresh blob older newer = (refl, refl, refl, refl)
