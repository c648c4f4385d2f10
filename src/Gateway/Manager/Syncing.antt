-- ===== src/Gateway/Manager/Syncing.antt =====
-- How gateway/src/manager.js reconciles the sessions with the list of the backend.
use whatsapp_bots_saa_s.Base.{
  ◌≡◌, refl, sym, ap, ◌∙◌, subst, inl, inr, Bool, true, false, not, ◌||◌, Option, none, some, List,
  [], ◌∷◌, ◌++◌, arith, if◌then◌else◌, Bool-cases, get_or_else, is_none, is_empty,
}
use mathlib.Core.Bool.{false≢true}
use whatsapp_bots_saa_s.Text.{Text, codes, text_eq, mem_text}
use whatsapp_bots_saa_s.Text.Laws.{text_eq→eq, text_eq_refl}
use whatsapp_bots_saa_s.Dict.{lookup, put}
use whatsapp_bots_saa_s.Dict.Laws.{lookup-put}
use whatsapp_bots_saa_s.Gateway.Value.{Value, get, array?}
use whatsapp_bots_saa_s.Gateway.InternalApi.{Response, json, ids_of, list_sessions}
use whatsapp_bots_saa_s.Gateway.Lifecycle.{Life, stop_call, life_step}
use whatsapp_bots_saa_s.Gateway.Manager.{
  Manager, to_set, started, has_session, start_new, listed, unlisted, stop_unlisted, sync_answered,
  get_session,
}

mem_text-append :
    (s t : Text) (ts : List Text) → mem_text s (ts ++ t ∷ []) ≡ (mem_text s ts || text_eq t s)
unfolding mem_text
mem_text-append s t [] = ground arith
mem_text-append s t (u ∷ ts) = ground (arith, mem_text-append s t ts)

mem_text-swap :
    (s t : Text) (ts : List Text) → mem_text t ts ≡ true → text_eq t s ≡ true → mem_text s ts ≡ true
mem_text-swap s t ts h e = subst (λ r. mem_text r ts ≡ true) (text_eq→eq t s e) h

-- The set has the ids of the list.
mem_text-to_set :
    (id : Text) (seen ids : List Text)
    → mem_text id (to_set seen ids) ≡ (mem_text id seen || mem_text id ids)
unfolding to_set mem_text
mem_text-to_set id seen [] = ground arith
mem_text-to_set id seen (j ∷ ids) = elim (Bool-cases (mem_text j seen)) [
  | inl e ↦ rw e (ground (arith, mem_text-to_set id seen ids, mem_text-swap id j seen e))
  | inr e ↦
      rw e (ground (arith, mem_text-to_set id (seen ++ j ∷ []) ids, mem_text-append id j seen))
]

no_seen : (id : Text) (ids : List Text) → (mem_text id [] || mem_text id ids) ≡ mem_text id ids
unfolding mem_text
no_seen id ids = refl

to_set-cons : (s : Text) (seen ids : List Text) → is_empty (to_set (s ∷ seen) ids) ≡ false
unfolding to_set
to_set-cons s seen [] = refl
to_set-cons s seen (j ∷ ids) = elim (Bool-cases (mem_text j (s ∷ seen))) [
  | inl e ↦ rw e (to_set-cons s seen ids)
  | inr e ↦ rw e (to_set-cons s (seen ++ j ∷ []) ids)
]

to_set_nonempty : (j : Text) (ids : List Text) → is_empty (to_set [] (j ∷ ids)) ≡ false
unfolding to_set mem_text
to_set_nonempty j ids = to_set-cons j [] ids

-- What a business has after the new ones were started.
or_started : Bool → Option Life → Option Life
or_started m (some s) = some s
or_started m none = if m then some started else none

or_started-has :
    (b m : Bool) (o : Option Life)
    → (b ≡ true → not (is_none o) ≡ true)
    → or_started m o ≡ or_started (b || m) o
unfolding or_started
or_started-has b m (some s) h = refl
or_started-has false m none h = refl
or_started-has true m none h = absurd (false≢true (h refl))

or_started-new :
    (b m : Bool) (o : Option Life)
    → (b ≡ true → not (is_none o) ≡ false)
    → or_started m (if b then some started else o) ≡ or_started (b || m) o
unfolding or_started
or_started-new false m o h = refl
or_started-new true m none h = refl
or_started-new true m (some s) h = absurd (false≢true (sym (h refl)))

has_session_eq :
    (j id : Text) (sessions : List (Text × Life))
    → text_eq j id ≡ true
    → not (is_none (lookup id sessions)) ≡ has_session j sessions
unfolding has_session
has_session_eq j id sessions e = rw (text_eq→eq j id e) refl

lookup-start_new :
    (id : Text) (ids : List Text) (sessions : List (Text × Life))
    → lookup id (start_new ids sessions) ≡ or_started (mem_text id ids) (lookup id sessions)
unfolding start_new mem_text or_started
lookup-start_new id [] sessions = no_ids (lookup id sessions)
  where
    no_ids : (o : Option Life) → o ≡ or_started false o
    no_ids none = refl
    no_ids (some s) = refl
lookup-start_new id (j ∷ ids) sessions =
    let o = lookup id sessions in
    elim (Bool-cases (has_session j sessions)) [
      | inl h ↦ rw h (
          lookup-start_new id ids sessions
          ∙ or_started-has (text_eq j id) (mem_text id ids) o
              (λ e. has_session_eq j id sessions e ∙ h))
      | inr h ↦ rw h (
          lookup-start_new id ids (put j started sessions)
          ∙ ap (or_started (mem_text id ids)) (lookup-put j id started sessions)
          ∙ or_started-new (text_eq j id) (mem_text id ids) o
              (λ e. has_session_eq j id sessions e ∙ h))
    ]

lookup-listed :
    (id : Text) (desired : List Text) (sessions : List (Text × Life))
    → lookup id (listed desired sessions)
      ≡ (if mem_text id desired then lookup id sessions else none)
unfolding lookup listed
lookup-listed id desired [] = ground arith
lookup-listed id desired ((i, w) ∷ b) = elim (Bool-cases (text_eq i id)) [
  | inl e ↦ rw (text_eq→eq i id e) (ground (arith, lookup-listed id desired b, text_eq_refl id))
  | inr e ↦ ground (arith, lookup-listed id desired b)
]

abbrev pub told_to_stop : Option Life → Option Life
told_to_stop none = none
told_to_stop (some s) = some (life_step stop_call s)

lookup-unlisted :
    (id : Text) (desired : List Text) (sessions : List (Text × Life))
    → lookup id (unlisted desired sessions)
      ≡ (if mem_text id desired then none else told_to_stop (lookup id sessions))
unfolding lookup unlisted
lookup-unlisted id desired [] = ground arith
lookup-unlisted id desired ((i, w) ∷ b) = elim (Bool-cases (text_eq i id)) [
  | inl e ↦ rw (text_eq→eq i id e) (ground (arith, lookup-unlisted id desired b, text_eq_refl id))
  | inr e ↦ ground (arith, lookup-unlisted id desired b)
]

-- The sessions after the answer, on a set that is not empty.
sessions_after : List Text → Manager → List (Text × Life)
sessions_after desired m = listed desired (start_new desired m.sessions)

kept_or_started :
    (b : Bool) (o : Option Life)
    → (if b then or_started b o else none) ≡ (if b then some (get_or_else o started) else none)
unfolding or_started
kept_or_started true none = refl
kept_or_started true (some s) = refl
kept_or_started false o = refl

unlisted_lem :
    (b : Bool) (o : Option Life)
    → (if b then none else told_to_stop (or_started b o)) ≡ (if b then none else told_to_stop o)
unfolding or_started
unlisted_lem true o = refl
unlisted_lem false none = refl
unlisted_lem false (some s) = refl

sync_nonempty :
    (desired : List Text) (m : Manager)
    → is_empty desired ≡ false
    → let t = stop_unlisted desired (record m { sessions = start_new desired m.sessions }) in
      (t.sessions ≡ sessions_after desired m)
      × (t.stopping ≡ m.stopping ++ unlisted desired (start_new desired m.sessions))
unfolding stop_unlisted sessions_after
sync_nonempty desired m h = rw h (refl, refl)

-- After a list that is not empty, a business has a session exactly if it is listed: the one it had, or
-- else a new one that was started; the sessions of the others, and no more, have left and were told to
-- stop.
pub sync_answered_lem :
    (id j : Text) (ids : List Text) (m : Manager)
    → let t = sync_answered (j ∷ ids) m in
      (get_session id t
        ≡ (if mem_text id (j ∷ ids) then some (get_or_else (get_session id m) started) else none))
      × ((gone : List (Text × Life)) × (t.stopping ≡ m.stopping ++ gone)
          × (lookup id gone
              ≡ (if mem_text id (j ∷ ids) then none else told_to_stop (get_session id m))))
      × (t.syncing ≡ false)
unfolding sync_answered get_session sessions_after
sync_answered_lem id j ids m =
    let desired = to_set [] (j ∷ ids) in
    let (s, g) = sync_nonempty desired m (to_set_nonempty j ids) in
    let d : mem_text id desired ≡ mem_text id (j ∷ ids) =
      rw mem_text-to_set (no_seen id (j ∷ ids)) in
    let o = lookup id m.sessions in
    let e = lookup-start_new id desired m.sessions in
    (
      ap (lookup id) s
          ∙ lookup-listed id desired (start_new desired m.sessions)
          ∙ rw (e, d) (kept_or_started (mem_text id (j ∷ ids)) o),
      (
        unlisted desired (start_new desired m.sessions),
        g,
        lookup-unlisted id desired (start_new desired m.sessions)
            ∙ rw (e, d) (unlisted_lem (mem_text id (j ∷ ids)) o),
      ),
      refl,
    )

-- An empty list changes no session.
pub sync_answered_empty :
    (m : Manager)
    → ((sync_answered [] m).sessions ≡ m.sessions) × ((sync_answered [] m).stopping ≡ m.stopping)
unfolding sync_answered to_set start_new stop_unlisted
sync_answered_empty m = (refl, refl)

no_list : (o : Option (List Value)) → o ≡ none → ids_of (get_or_else o []) ≡ []
unfolding ids_of
no_list o h = rw h refl

-- A poll that the backend does not answer, or answers with anything that holds no list, errors of any
-- status included, stops and starts no session.
pub sync_failed :
    (m : Manager) (answer : Option Response)
    → ((res : Response) → answer ≡ some res → array? (get (codes "sessions") (json res)) ≡ none)
    → ((sync_answered (list_sessions answer) m).sessions ≡ m.sessions)
      × ((sync_answered (list_sessions answer) m).stopping ≡ m.stopping)
unfolding list_sessions
sync_failed m none h = sync_answered_empty m
sync_failed m (some res) h =
    rw (no_list (array? (get (codes "sessions") (json res))) (h res refl)) (sync_answered_empty m)
