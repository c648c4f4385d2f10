-- ===== src/Session/Gates.antt =====
-- Who gets past the gates of AuthGate.tsx and AdminGate.tsx.
use whatsapp_bots_saa_s.Base.{
  ◌≡◌, refl, sym, ap, ◌∙◌, ◌≢◌, ◌↔◌, Bool, true, false, not, Option, none, some, arith, get_or_else,
  if◌then◌else◌,
}
use mathlib.Core.Bool.{false≢true}
use whatsapp_bots_saa_s.Api.{Caught}
use whatsapp_bots_saa_s.Session.{
  Me, Auth, View, spinner, to_login, children, admin_of, is_admin_user, authed, auth_gate,
  admin_gate, admin_route, refresh_fail, refresh_start, logout, is_session_lost,
}

admin_of-some :
    (o : Option Me) → admin_of o ≡ true → (m : Me) × (o ≡ some m) × (m.is_admin ≡ some true)
admin_of-some none h = absurd (false≢true h)
admin_of-some (some m) h = (m, refl, flag m.is_admin h)
  where
    flag : (o : Option Bool) → get_or_else o false ≡ true → o ≡ some true
    flag none h = absurd (false≢true h)
    flag (some b) h = ap some h

admin_route-children :
    (s : Auth) → admin_route s ≡ children → (s.loading ≡ false) × (admin_of s.me ≡ true)
unfolding admin_route auth_gate admin_gate authed is_admin_user
admin_route-children s h = ground arith

admin_route-shown :
    (s : Auth) (m : Me)
    → s.loading ≡ false
    → s.me ≡ some m
    → m.is_admin ≡ some true
    → admin_route s ≡ children
unfolding admin_route auth_gate admin_gate authed is_admin_user
admin_route-shown s m hl hm ha = rw (hl, hm, ha) refl

gate-to_login :
    (s : Auth) (inner : View)
    → s.loading ≡ false
    → s.me ≡ none
    → (auth_gate s inner ≡ to_login) × (admin_gate s inner ≡ to_login)
unfolding auth_gate admin_gate authed
gate-to_login s inner hl hm = rw (hl, hm) (refl, refl)

not_admin : (s : Auth) → s.me ≡ none → admin_route s ≢ children
not_admin s h e = absurd (false≢true (sym (ap admin_of h) ∙ (admin_route-children s e).1))

logged_out_gates :
    (s : Auth) (inner : View)
    → (auth_gate (logout s) inner ≡ (if s.loading then spinner else to_login))
      × (admin_gate (logout s) inner ≡ (if s.loading then spinner else to_login))
unfolding auth_gate admin_gate authed logout
logged_out_gates s inner = (refl, refl)

-- An operator's page is shown exactly when the session is loaded, somebody is logged in, and the
-- server said that they are an operator: a flag that is missing or false shows nothing. When
-- `/api/me` fails, each gate leads to the login whatever stands in it, and the error is shown unless
-- the server said 401. After a logout each gate leads to the login too, or shows the spinner while the
-- session still loads, and an operator's page is not shown.
pub admin_route_iff :
    (s : Auth)
    → ((admin_route s ≡ children)
        ↔ ((s.loading ≡ false) × ((m : Me) × (s.me ≡ some m) × (m.is_admin ≡ some true))))
      × ((err : Caught) (inner : View)
          → (auth_gate (refresh_fail err (refresh_start s)) inner ≡ to_login)
            × (admin_gate (refresh_fail err (refresh_start s)) inner ≡ to_login)
            × ((refresh_fail err (refresh_start s)).error ≡ not (is_session_lost err)))
      × ((inner : View)
          → (auth_gate (logout s) inner ≡ (if s.loading then spinner else to_login))
            × (admin_gate (logout s) inner ≡ (if s.loading then spinner else to_login)))
      × (admin_route (logout s) ≢ children)
unfolding refresh_fail refresh_start logout
admin_route_iff s = (
  (
    λ h. let (hl, ha) = admin_route-children s h in (hl, admin_of-some s.me ha),
    λ (hl, (m, hm, ha)). admin_route-shown s m hl hm ha,
  ),
  λ err inner.
      let (a, b) = gate-to_login (refresh_fail err (refresh_start s)) inner refl refl in
      (a, b, ground arith),
  λ inner. logged_out_gates s inner,
  not_admin (logout s) refl,
)
