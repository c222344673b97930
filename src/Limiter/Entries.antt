-- ===== src/Limiter/Entries.antt =====
-- backend/internal/auth/limiter.go: what the clean-ups leave to be read, entry by entry.
use wol_secure_light_switch.Prelude.{
  ℕ, ◌≤◌, ◌≡◌, refl, Bool, not, Option, none, some, arith, Text, length,
}
use wol_secure_light_switch.Prelude.Map.{
  lookup, Distinct, keep, lookup-retain, retain-Distinct, length-retain-le,
}
use wol_secure_light_switch.Limiter.{
  LoginAttempt, Limiter, attempt_expires_at, attempt_expired, cleanup_expired, cleanup_if_due,
}

-- The entry that counts for a key: one that is tracked and has not expired.
unfoldable pub live : Limiter → ℕ → Text → Option LoginAttempt
live l now key = keep (λ a. not (attempt_expired l a now)) (lookup key l.attempts)

-- The limits that no method changes.
abbrev pub SameLimits : Limiter → Limiter → Type 0
SameLimits l k =
    (k.max_failures ≡ l.max_failures)
    × (k.window ≡ l.window)
    × (k.backoff ≡ l.backoff)
    × (k.max_tracked_keys ≡ l.max_tracked_keys)

module _ (l : Limiter) (now : ℕ) where
  pub cleanup_if_due-SameLimits : SameLimits l (cleanup_if_due l now)
  unfolding cleanup_if_due cleanup_expired
  cleanup_if_due-SameLimits = ground arith

  pub cleanup_if_due-Distinct : Distinct l.attempts → Distinct (cleanup_if_due l now).attempts
  unfolding cleanup_if_due cleanup_expired
  cleanup_if_due-Distinct d =
      ground (arith, retain-Distinct (λ _ a. not (attempt_expired l a now)) l.attempts d)

  pub length-cleanup_if_due-le : length (cleanup_if_due l now).attempts ≤ length l.attempts
  unfolding cleanup_if_due cleanup_expired
  length-cleanup_if_due-le =
      ground (arith, length-retain-le (λ _ a. not (attempt_expired l a now)) l.attempts)

  pub keep_twice :
      (p : LoginAttempt → Bool) (o : Option LoginAttempt) → keep p (keep p o) ≡ keep p o
  keep_twice p none = refl
  keep_twice p (some a) = ground arith

  -- A clean-up removes nothing that still counts.
  pub live-cleanup_if_due :
      (key : Text) → Distinct l.attempts → live (cleanup_if_due l now) now key ≡ live l now key
  unfolding cleanup_if_due cleanup_expired live attempt_expired attempt_expires_at
  live-cleanup_if_due key d =
      ground (arith, lookup-retain (λ _ a. not (attempt_expired l a now)) key l.attempts d)

  pub lookup-cleanup_if_due-live :
      (key : Text) (a : LoginAttempt)
      → Distinct l.attempts
      → live l now key ≡ some a
      → lookup key (cleanup_if_due l now).attempts ≡ some a
  unfolding cleanup_if_due cleanup_expired live attempt_expired attempt_expires_at
  lookup-cleanup_if_due-live key a d h =
      ground (arith, lookup-retain (λ _ a. not (attempt_expired l a now)) key l.attempts d)
