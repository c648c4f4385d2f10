-- ===== src/Booking/Form/Email.antt =====
-- `isValidEmail` of BookingFlow.tsx decides its regular expression.
use whatsapp_bots_saa_s.Base.{
  ℕ, ◌≤◌, ◌≡◌, refl, sym, ap, ◌∙◌, inl, inr, Bool, true, false, not, ◌&&◌, [], ◌∷◌, ◌++◌, arith,
  ◌==◌, Bool-cases, length, all, is_empty,
}
use mathlib.Core.Bool.{false≢true}
use mathlib.Core.Path.{ap₂}
use whatsapp_bots_saa_s.Text.{Text, is_space}
use whatsapp_bots_saa_s.Booking.Form.{
  is_plain, plain_run, after_run, dot_more, inner_dot, at_domain, is_valid_email,
}

-- The texts that the expression describes.
pub record IsEmail (s : Text) : Type 0 where
  pub user : Text
  pub host : Text
  pub domain : Text
  pub parts : s ≡ user ++ b'@' ∷ (host ++ b'.' ∷ domain)
  pub user_plain : all is_plain user ≡ true
  pub host_plain : all is_plain host ≡ true
  pub domain_plain : all is_plain domain ≡ true
  pub user_some : 1 ≤ length user
  pub host_some : 1 ≤ length host
  pub domain_some : 1 ≤ length domain

run_split : (s : Text) → s ≡ plain_run s ++ after_run s
unfolding plain_run after_run
run_split [] = refl
run_split (c ∷ s) = ground (arith, run_split s)

run_plain : (s : Text) → all is_plain (plain_run s) ≡ true
unfolding plain_run
run_plain [] = refl
run_plain (c ∷ s) = ground (arith, run_plain s)

all-append : (p : ℕ → Bool) (s t : Text) → all p (s ++ t) ≡ (all p s && all p t)
all-append p [] t = refl
all-append p (c ∷ s) t = ground (arith, all-append p s t)

nonempty : (s : Text) → is_empty s ≡ false → 1 ≤ length s
nonempty [] h = cc
nonempty (c ∷ s) h = omega arith

nonempty_of_length : (s : Text) → 1 ≤ length s → is_empty s ≡ false
nonempty_of_length [] h = absurd (omega arith)
nonempty_of_length (c ∷ s) h = refl

-- A dot with something after it splits the text.
dot_more-split :
    (s : Text) → dot_more s ≡ true → (a : Text) × (b : Text) × (s ≡ a ++ b'.' ∷ b) × (1 ≤ length b)
unfolding dot_more
dot_more-split [] h = cc
dot_more-split (c ∷ s) h = elim (Bool-cases (c == b'.' && not (is_empty s))) [
  | inl here ↦ ([], s, ap (λ d. d ∷ s) (ground arith), nonempty s (ground arith))
  | inr there ↦
      let (a, b, e, n) = dot_more-split s (ground arith) in (c ∷ a, b, ap (λ t. c ∷ t) e, n)
]

dot_more-append : (a b : Text) → 1 ≤ length b → dot_more (a ++ b'.' ∷ b) ≡ true
unfolding dot_more
dot_more-append [] [] n = absurd (omega arith)
dot_more-append [] (d ∷ b) n = ground arith
dot_more-append (c ∷ a) b n = ground (arith, dot_more-append a b n)

-- A plain run ends at the sign.
run_at :
    (user rest : Text)
    → all is_plain user ≡ true
    → (plain_run (user ++ b'@' ∷ rest) ≡ user) × (after_run (user ++ b'@' ∷ rest) ≡ b'@' ∷ rest)
unfolding plain_run after_run is_plain
run_at [] rest h = (refl, refl)
run_at (c ∷ user) rest h = ground (arith, run_at user rest)

dot_plain : is_plain b'.' ≡ true
unfolding is_plain
dot_plain = unfold is_space in refl

IsDomain : Text → Type 0
IsDomain r =
    (host : Text) × (domain : Text) × (r ≡ b'@' ∷ (host ++ b'.' ∷ domain))
    × (all is_plain host ≡ true)
    × (all is_plain domain ≡ true)
    × (1 ≤ length host)
    × (1 ≤ length domain)

at_domain-split : (r : Text) → at_domain r ≡ true → IsDomain r
unfolding at_domain inner_dot IsDomain
at_domain-split [] h = cc
at_domain-split (c ∷ []) h = absurd (false≢true (ground arith))
at_domain-split (c ∷ (x ∷ s)) h =
    let (a, b, e, n) = dot_more-split s (ground arith) in
    let sign : c ≡ b'@' = ground arith in
    let split : x ∷ s ≡ (x ∷ a) ++ b'.' ∷ b = ap (λ t. x ∷ t) e in
    let plain : all is_plain (x ∷ s) ≡ true = ground arith in
    let both : (all is_plain (x ∷ a) && all is_plain (b'.' ∷ b)) ≡ true =
      sym (all-append is_plain (x ∷ a) (b'.' ∷ b)) ∙ ap (all is_plain) (sym split) ∙ plain in
    (
      x ∷ a,
      b,
      ap₂ (λ (d : ℕ) (t : Text). d ∷ t) sign split,
      ground arith,
      ground arith,
      omega arith,
      n,
    )

at_domain-IsDomain : (r : Text) → IsDomain r → at_domain r ≡ true
unfolding at_domain inner_dot IsDomain
at_domain-IsDomain r ([], domain, e, ph, pd, nh, nd) = absurd (omega arith)
at_domain-IsDomain r (x ∷ host, domain, e, ph, pd, nh, nd) = rw e (
    ground
      (arith, all-append is_plain host (b'.' ∷ domain), dot_more-append host domain nd, dot_plain))

-- `isValidEmail` accepts exactly the texts with one part before the sign and two after it, parted
-- by a dot, each part not empty and free of signs and white space.
pub is_valid_email-IsEmail :
    (s : Text) → (is_valid_email s ≡ true → IsEmail s) × (IsEmail s → is_valid_email s ≡ true)
unfolding is_valid_email IsDomain
is_valid_email-IsEmail s = (
  λ h.
      let (host, domain, e, ph, pd, nh, nd) = at_domain-split (after_run s) (ground arith) in
      record {
        user = plain_run s;
        host = host;
        domain = domain;
        parts = run_split s ∙ ap (λ r. plain_run s ++ r) e;
        user_plain = run_plain s;
        host_plain = ph;
        domain_plain = pd;
        user_some = nonempty (plain_run s) (ground arith);
        host_some = nh;
        domain_some = nd;
      },
  λ m.
      let rest = m.host ++ b'.' ∷ m.domain in
      let (run, after) = run_at m.user rest m.user_plain in
      let fits : at_domain (b'@' ∷ rest) ≡ true =
        at_domain-IsDomain _
          (m.host, m.domain, refl, m.host_plain, m.domain_plain, m.host_some, m.domain_some) in
      rw m.parts (rw (run, after, nonempty_of_length m.user m.user_some, fits)),
)
