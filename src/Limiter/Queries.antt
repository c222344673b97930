-- ===== src/Limiter/Queries.antt =====
-- backend/internal/auth/limiter.go: what a query of the limiter leaves for later queries.
use wol_secure_light_switch.Prelude.{ℕ, ◌≤◌, ◌≡◌, ◌∙◌, not, arith, Text, text_dec}
use wol_secure_light_switch.Prelude.Map.{
  Distinct, lookup-retain, lookup-erase_self, lookup-erase_ne,
}
use wol_secure_light_switch.Limiter.{
  Limiter, attempt_expires_at, attempt_expired, cleanup_expired, cleanup_if_due, retry_key,
  retry_loop, retry_after, login_attempt_keys, ip_key, account_key,
}
use wol_secure_light_switch.Limiter.Entries.{live, cleanup_if_due-SameLimits, SameLimits}

-- What counts later is not removed before.
pub later-cleanup_if_due :
    (l : Limiter) (now later : ℕ) (key : Text)
    → now ≤ later
    → Distinct l.attempts
    → live (cleanup_if_due l now) later key ≡ live l later key
unfolding cleanup_if_due cleanup_expired live attempt_expired attempt_expires_at
later-cleanup_if_due l now later key h d =
    ground (arith, lookup-retain (λ _ a. not (attempt_expired l a now)) key l.attempts d)

pub later-retry_key :
    (now later : ℕ) (key q : Text) (l : Limiter) (n : ℕ)
    → now ≤ later
    → live (retry_key now key (l, n)).0 later q ≡ live l later q
unfolding retry_key live attempt_expired attempt_expires_at
later-retry_key now later key q l n h = elim (text_dec q key) [
  | yes p ↦ ground (arith, lookup-erase_self key l.attempts)
  | no p ↦ ground (arith, lookup-erase_ne key q l.attempts p)
]

retry_key-SameLimits :
    (now : ℕ) (key : Text) (l : Limiter) (n : ℕ) → SameLimits l (retry_key now key (l, n)).0
unfolding retry_key
retry_key-SameLimits now key l n = ground arith

pub retry_after-SameLimits :
    (unicode_lower : ℕ → ℕ) (l : Limiter) (ip email : Text) (now : ℕ)
    → SameLimits l (retry_after unicode_lower l ip email now).0
unfolding retry_after login_attempt_keys retry_loop
retry_after-SameLimits unicode_lower l ip email now =
    let c = cleanup_if_due l now in
    let r = retry_key now (ip_key unicode_lower ip) (c, 0) in
    let (f, w, b, m) = cleanup_if_due-SameLimits l now in
    let (f', w', b', m') = retry_key-SameLimits now (ip_key unicode_lower ip) c 0 in
    let (f'', w'', b'', m'') = retry_key-SameLimits now (account_key unicode_lower email) r.0 r.1 in
    (f'' ∙ f' ∙ f, w'' ∙ w' ∙ w, b'' ∙ b' ∙ b, m'' ∙ m' ∙ m)
