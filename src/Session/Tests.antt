-- ===== src/Session/Tests.antt =====
-- The session and the unread badge at concrete inputs.
use whatsapp_bots_saa_s.Base.{◌≡◌, refl, ◌≢◌, ◌↔◌, true, false, not, none, some, []}
use whatsapp_bots_saa_s.Text.{codes}
use whatsapp_bots_saa_s.Api.{Caught}
use whatsapp_bots_saa_s.Session.{
  Me, connected, Auth, View, to_login, to_home, children, is_session_lost, refresh_start,
  refresh_fail, logout, is_admin_user, authed, auth_gate, admin_gate, admin_route, Unread,
}
use whatsapp_bots_saa_s.Session.Gates.{admin_route_iff}

abbrev owner : Me
owner = record {
  user = record { id = codes "u"; email = codes "u@x.co"; name = codes "U"; picture = [] };
  business = record { id = codes "b"; name = codes "B" };
  connection = connected;
  is_admin = none;
}

abbrev signed_in_owner : Auth
signed_in_owner = record { me = some owner; loading = false; error = false }

gate_tests :
    (admin_route signed_in_owner ≡ to_home) × (auth_gate signed_in_owner children ≡ children)
unfolding admin_route auth_gate admin_gate authed is_admin_user
gate_tests = (refl, refl)

admin_route_example :
    ((admin_route signed_in_owner ≡ children) ↔ (
      (signed_in_owner.loading ≡ false)
      × ((m : Me) × (signed_in_owner.me ≡ some m) × (m.is_admin ≡ some true))))
    × ((err : Caught) (inner : View)
        → (auth_gate (refresh_fail err (refresh_start signed_in_owner)) inner ≡ to_login)
          × (admin_gate (refresh_fail err (refresh_start signed_in_owner)) inner ≡ to_login)
          × ((refresh_fail err (refresh_start signed_in_owner)).error ≡ not (is_session_lost err)))
    × ((inner : View)
        → (auth_gate (logout signed_in_owner) inner ≡ to_login)
          × (admin_gate (logout signed_in_owner) inner ≡ to_login))
    × (admin_route (logout signed_in_owner) ≢ children)
admin_route_example = admin_route_iff signed_in_owner

abbrev polling : Unread
polling = record { signed_in = true; mounted = true; total = 3; polls = 0 }
