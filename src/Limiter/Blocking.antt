-- ===== src/Limiter/Blocking.antt =====
-- backend/internal/auth/limiter.go: what `RetryAfter` answers, and what a failure and a success
-- leave for the next attempt to meet.
use wol_secure_light_switch.Prelude.{ℕ, ◌-◌, max, ◌≡◌, ◌∙◌, none, some, arith, Text, text_dec}
use wol_secure_light_switch.Prelude.Map.{erase, Distinct, lookup-erase_self, lookup-erase_ne}
use wol_secure_light_switch.Limiter.{
  Limiter, attempt_expires_at, attempt_expired, cleanup_if_due, retry_key, retry_loop, retry_after,
  login_attempt_keys, ip_key, account_key, record_success, erase_loop,
}
use wol_secure_light_switch.Limiter.Entries.{live, live-cleanup_if_due}

-- For how long a key is blocked: what is left of the block of its live entry.
unfoldable pub blocked : Limiter → ℕ → Text → ℕ
blocked l now key = elim (live l now key) [ none ↦ 0 | some a ↦ a.blocked_until - now ]

retry_key-blocked :
    (now : ℕ) (key : Text) (l : Limiter) (n : ℕ)
    → (retry_key now key (l, n)).1 ≡ max n (blocked l now key)
unfolding retry_key blocked live
retry_key-blocked now key l n = ground arith

live-retry_key :
    (now : ℕ) (key q : Text) (l : Limiter) (n : ℕ)
    → live (retry_key now key (l, n)).0 now q ≡ live l now q
unfolding retry_key live attempt_expired attempt_expires_at
live-retry_key now key q l n = elim (text_dec q key) [
  | yes p ↦ ground (arith, lookup-erase_self key l.attempts)
  | no p ↦ ground (arith, lookup-erase_ne key q l.attempts p)
]

module _ (unicode_lower : ℕ → ℕ) where
  -- With no key tracked twice, `RetryAfter` answers the longer of what is left of the blocks of
  -- the address and of the account, read from their entries that have not expired, whether or not
  -- a clean-up is due.
  pub retry_after-eq-max :
      (l : Limiter) (ip email : Text) (now : ℕ)
      → Distinct l.attempts
      → (retry_after unicode_lower l ip email now).1
        ≡ max
            (blocked l now (ip_key unicode_lower ip))
            (blocked l now (account_key unicode_lower email))
  unfolding retry_after login_attempt_keys retry_loop blocked
  retry_after-eq-max l ip email now d =
      let c = cleanup_if_due l now in
      let i = ip_key unicode_lower ip in
      let e = account_key unicode_lower email in
      let s = retry_key now i (c, 0) in
      ground (
        arith,
        retry_key-blocked now i c 0,
        retry_key-blocked now e s.0 s.1,
        live-retry_key now i e c 0,
        live-cleanup_if_due l now i d,
        live-cleanup_if_due l now e d,
      )

  -- Asking changes no entry that counts.
  pub live-retry_after :
      (l : Limiter) (ip email : Text) (now : ℕ) (q : Text)
      → Distinct l.attempts
      → live (retry_after unicode_lower l ip email now).0 now q ≡ live l now q
  unfolding retry_after login_attempt_keys retry_loop
  live-retry_after l ip email now q d =
      let c = cleanup_if_due l now in
      let i = ip_key unicode_lower ip in
      let s = retry_key now i (c, 0) in
      live-retry_key now (account_key unicode_lower email) q s.0 s.1
      ∙ live-retry_key now i q c 0
      ∙ live-cleanup_if_due l now q d

  -- After a recorded success that leaves no key tracked twice, `RetryAfter` for the same address
  -- and account answers 0 at every time.
  pub retry_after-record_success :
      (l : Limiter) (ip email : Text) (now : ℕ)
      → Distinct (record_success unicode_lower l ip email).attempts
      → (retry_after unicode_lower (record_success unicode_lower l ip email) ip email now).1 ≡ 0
  retry_after-record_success l ip email now d =
      retry_after-eq-max (record_success unicode_lower l ip email) ip email now d ∙ cleared
    where
      i : Text
      i = ip_key unicode_lower ip

      e : Text
      e = account_key unicode_lower email

      cleared :
          max
            (blocked (record_success unicode_lower l ip email) now i)
            (blocked (record_success unicode_lower l ip email) now e)
          ≡ 0
      cleared =
          unfold record_success login_attempt_keys erase_loop blocked live in
          elim (text_dec i e) [
            | yes p ↦ ground (arith, lookup-erase_self e (erase i l.attempts))
            | no p ↦ ground (
              arith,
              lookup-erase_self e (erase i l.attempts),
              lookup-erase_ne e i (erase i l.attempts) p,
              lookup-erase_self i l.attempts,
            )
          ]
