-- ===== src/Session/Badge.antt =====
-- The count of UnreadContext.tsx after the session ended.
use whatsapp_bots_saa_s.Base.{ℕ, ◌≡◌, true, false, some, arith}
use whatsapp_bots_saa_s.Session.{Unread, refresh, auth_changed, poll_answer, unmounted}

-- The session ends while a poll is under way: the count is reset, but when the poll is answered its
-- count is shown, with nobody logged in, since the flag that guards the answer is set again.
pub auth_changed-count_lingers :
    (s : Unread) (n : ℕ)
    → s.signed_in ≡ true
    → ((auth_changed false (refresh s)).total ≡ 0)
      × ((poll_answer (some n) (auth_changed false (refresh s))).total ≡ n)
      × ((poll_answer (some n) (auth_changed false (refresh s))).signed_in ≡ false)
unfolding auth_changed poll_answer unmounted refresh
auth_changed-count_lingers s n h = ground arith
