-- ===== src/Session.antt =====
-- The session: frontend/src/auth/AuthContext.tsx with auth/types.ts, the gates
-- components/AuthGate.tsx and components/AdminGate.tsx, and the unread badge of
-- dashboard/UnreadContext.tsx, which depends on the session.
pub mod Gates
pub mod Badge
mod Tests
use whatsapp_bots_saa_s.Base.{
  ℕ, ◌+◌, ◌-◌, Bool, true, false, not, Option, none, some, ◌==◌, if◌then◌else◌, get_or_else,
  is_none,
}
use whatsapp_bots_saa_s.Text.{Text}
use whatsapp_bots_saa_s.Api.{Caught, api_error, other_error, is_unauthorized}

pub data ConnectionStatus : Type 0 where
  disconnected connecting qr_pending connected : ConnectionStatus

pub record User : Type 0 where
  pub id : Text
  pub email : Text
  pub name : Text
  pub picture : Text

pub record Business : Type 0 where
  pub id : Text
  pub name : Text

pub record Me : Type 0 where
  pub user : User
  pub business : Business
  pub connection : ConnectionStatus
  pub is_admin : Option Bool

-- The state of `AuthProvider`; its error is one sentence, there or not.
pub record Auth : Type 0 where
  pub me : Option Me
  pub loading : Bool
  pub error : Bool

unfoldable pub initial : Auth
initial = record { me = none; loading = true; error = false }

unfoldable pub refresh_start : Auth → Auth
refresh_start s = record s { loading = true; error = false }

unfoldable pub refresh_ok : Me → Auth → Auth
refresh_ok data' s = record s { me = some data'; loading = false }

unfoldable pub is_session_lost : Caught → Bool
is_session_lost (api_error e) = is_unauthorized e
is_session_lost other_error = false

unfoldable pub refresh_fail : Caught → Auth → Auth
refresh_fail err s = record s {
  me = none;
  loading = false;
  error = if is_session_lost err then s.error else true;
}

-- The end of `logout`, whether its call went through or not; the page then goes to /login.
unfoldable pub logout : Auth → Auth
logout s = record s { me = none }

abbrev pub admin_of : Option Me → Bool
admin_of none = false
admin_of (some m) = get_or_else m.is_admin false

-- The fields of the context that the gates read.
unfoldable pub is_admin_user : Auth → Bool
is_admin_user s = admin_of s.me

unfoldable pub authed : Auth → Bool
authed s = not (is_none s.me)

-- What a gate renders: the spinner, a redirect, or its children.
pub data View : Type 0 where
  spinner to_login to_home children : View

unfoldable pub auth_gate : Auth → View → View
auth_gate s inner = if s.loading then spinner else if not (authed s) then to_login else inner

unfoldable pub admin_gate : Auth → View → View
admin_gate s inner =
    if s.loading
    then spinner
    else if not (authed s)
    then to_login
    else if not (is_admin_user s)
    then to_home
    else inner

-- An operator's page stands in both gates.
unfoldable pub admin_route : Auth → View
admin_route s = auth_gate s (admin_gate s children)

-- The state of `UnreadProvider`; `polls` counts the calls that have not been answered.
pub record Unread : Type 0 where
  pub signed_in : Bool
  pub mounted : Bool
  pub total : ℕ
  pub polls : ℕ

unfoldable pub refresh : Unread → Unread
refresh s = if s.signed_in then record s { polls = s.polls + 1 } else s

-- The effect, after its clean-up, when `authed` changes.
unfoldable pub auth_changed : Bool → Unread → Unread
unfolding refresh
auth_changed now s =
    let t = record s { signed_in = now; mounted = true } in
    if now then refresh t else record t { total = 0 }

unfoldable pub unmounted : Unread → Unread
unmounted s = record s { mounted = false }

-- A poll that is under way is answered with a count, or fails.
unfoldable pub poll_answer : Option ℕ → Unread → Unread
poll_answer none s = record s { polls = s.polls - 1 }
poll_answer (some n) s =
    if s.polls == 0
    then s
    else record s { polls = s.polls - 1; total = if s.mounted then n else s.total }
