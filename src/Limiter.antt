-- ===== src/Limiter.antt =====
-- backend/internal/auth/limiter.go: the login-attempt limiter. A time is the number of nanoseconds
-- since Go's zero time, so `IsZero` is the test for 0, and times do not wrap. The mutex makes each
-- method one step. `a.Sub(b)` is used only where a negative duration counts as none.
pub mod Entries
pub mod Bounds
pub mod Validity
pub mod Blocking
pub mod Queries
pub mod Failures
pub mod Lockout
pub mod Ledger
use wol_secure_light_switch.Prelude.{
  ℕ, zero, suc, ◌+◌, ◌-◌, ◌*◌, ◌%◌, ◌^◌, Bool, not, ◌&&◌, ◌||◌, Option, none, some, List, [], ◌∷◌,
  ◌++◌, Text, codes, trim_space, to_lower, text_dec, ltb, leb, ◌==◌, if◌then◌else◌, same, length,
}
use wol_secure_light_switch.Prelude.Map.{Map, lookup, erase, put, retain}

abbrev pub second : ℕ
second = 1000000000

abbrev pub minute : ℕ
minute = 60 * second

abbrev pub login_max_failures : ℕ
login_max_failures = 5

abbrev pub login_window : ℕ
login_window = 15 * minute

abbrev pub login_backoff : ℕ
login_backoff = minute

abbrev pub login_max_tracked_keys : ℕ
login_max_tracked_keys = 10000

abbrev pub login_cleanup_interval : ℕ
login_cleanup_interval = minute

pub record LoginAttempt : Type 0 where
  pub failures : ℕ
  pub window_start : ℕ
  pub blocked_until : ℕ

pub record LoginMetrics : Type 0 where
  pub failed_attempts_total : ℕ
  pub rate_limited_attempts_total : ℕ
  pub tracked_keys : ℕ
  pub evicted_keys_total : ℕ

pub record Limiter : Type 0 where
  pub attempts : Map LoginAttempt
  pub max_failures : ℕ
  pub window : ℕ
  pub backoff : ℕ
  pub max_tracked_keys : ℕ
  pub cleanup_interval : ℕ
  pub next_cleanup : ℕ
  pub failed_attempts_total : ℕ
  pub rate_limited_attempts_total : ℕ
  pub evicted_keys_total : ℕ

unfoldable pub new_limiter : ℕ → ℕ → ℕ → ℕ → ℕ → Limiter
new_limiter max_failures window backoff max_tracked_keys cleanup_interval = record {
  attempts = [];
  max_failures = max_failures;
  window = window;
  backoff = backoff;
  max_tracked_keys = max_tracked_keys;
  cleanup_interval = cleanup_interval;
  next_cleanup = 0;
  failed_attempts_total = 0;
  rate_limited_attempts_total = 0;
  evicted_keys_total = 0;
}

unfoldable pub default_limiter : Limiter
unfolding new_limiter
default_limiter =
    new_limiter login_max_failures login_window login_backoff login_max_tracked_keys
      login_cleanup_interval

-- An `atomic.Uint64` counter.
abbrev pub count_up : ℕ → ℕ
count_up n = (n + 1) % 2 ^ 64

module _ (unicode_lower : ℕ → ℕ) where
  abbrev pub ip_key : Text → Text
  ip_key ip = codes "ip:" ++ ip

  unfoldable pub account_key : Text → Text
  account_key email = codes "account:" ++ to_lower unicode_lower (trim_space email)

  unfoldable pub login_attempt_keys : Text → Text → List Text
  login_attempt_keys ip email = ip_key ip ∷ account_key email ∷ []

unfoldable pub attempt_expires_at : Limiter → LoginAttempt → ℕ
attempt_expires_at l a =
    let expires_at = a.window_start + l.window in
    if ltb expires_at a.blocked_until then a.blocked_until else expires_at

unfoldable pub attempt_expired : Limiter → LoginAttempt → ℕ → Bool
attempt_expired l a now = not (ltb now (attempt_expires_at l a))

unfoldable pub cleanup_expired : Limiter → ℕ → Limiter
cleanup_expired l now = record l {
  attempts = retain (λ _ a. not (attempt_expired l a now)) l.attempts;
}

unfoldable pub cleanup_if_due : Limiter → ℕ → Limiter
cleanup_if_due l now =
    if not (l.next_cleanup == 0) && ltb now l.next_cleanup
    then l
    else record (cleanup_expired l now) { next_cleanup = now + l.cleanup_interval }

-- The scan of `makeRoomLocked` for the oldest entry; the empty key means that none was seen.
unfoldable pub oldest_from : Limiter → Text → ℕ → Map LoginAttempt → Text
oldest_from l oldest_key oldest_expiry [] = oldest_key
oldest_from l oldest_key oldest_expiry ((key, a) ∷ m) =
    let expires_at = attempt_expires_at l a in
    let better = same oldest_key [] || ltb expires_at oldest_expiry in
    oldest_from l (if better then key else oldest_key)
      (if better then expires_at else oldest_expiry) m

-- The `for` loop of `makeRoomLocked`, with fuel.
unfoldable pub evict_loop : ℕ → Limiter → Limiter
evict_loop zero l = l
evict_loop (suc fuel) l =
    let oldest_key = oldest_from l [] 0 l.attempts in
    let rest = evict_loop fuel (record l {
      attempts = erase oldest_key l.attempts;
      evicted_keys_total = count_up l.evicted_keys_total;
    }) in
    if leb l.max_tracked_keys (length l.attempts)
    then (if same oldest_key [] then l else rest)
    else l

unfoldable pub make_room : Limiter → ℕ → Limiter
make_room l now =
    if ltb (length l.attempts) l.max_tracked_keys
    then l
    else let swept = cleanup_expired l now in evict_loop (length swept.attempts) swept

-- One round of the loop in `RetryAfter`, over the limiter and `longest`.
unfoldable pub retry_key : ℕ → Text → Limiter × ℕ → Limiter × ℕ
retry_key now key (l, longest) = elim (lookup key l.attempts) [
  | none ↦ (l, longest)
  | some a ↦
      if attempt_expired l a now then (record l { attempts = erase key l.attempts }, longest) else (
        l,
        let remaining = a.blocked_until - now in
            if ltb longest remaining then remaining else longest,
      )
]

unfoldable pub retry_loop : ℕ → List Text → Limiter × ℕ → Limiter × ℕ
retry_loop now [] s = s
retry_loop now (key ∷ keys) s = retry_loop now keys (retry_key now key s)

-- The entry that a failure writes, from the one that it found.
unfoldable pub bump : Limiter → ℕ → LoginAttempt → LoginAttempt
bump l now a =
    let failures = a.failures + 1 in
    record a {
      failures = failures;
      blocked_until = if leb l.max_failures failures then now + l.backoff else a.blocked_until;
    }

abbrev pub fresh_attempt : ℕ → LoginAttempt
fresh_attempt now = record { failures = 0; window_start = now; blocked_until = 0 }

-- `limiter.attempts[key] = attempt`, after the failure is counted in.
unfoldable pub write_attempt : Limiter → ℕ → Text → LoginAttempt → Limiter
write_attempt l now key a = record l { attempts = put key (bump l now a) l.attempts }

-- One round of the loop in `RecordFailure`.
unfoldable pub record_key : ℕ → Text → Limiter → Limiter
record_key now key l = elim (lookup key l.attempts) [
  | none ↦ write_attempt (make_room l now) now key (fresh_attempt now)
  | some a ↦ write_attempt l now key (if attempt_expired l a now then fresh_attempt now else a)
]

unfoldable pub record_loop : ℕ → List Text → Limiter → Limiter
record_loop now [] l = l
record_loop now (key ∷ keys) l = record_loop now keys (record_key now key l)

unfoldable pub erase_loop : List Text → Map LoginAttempt → Map LoginAttempt
erase_loop [] m = m
erase_loop (key ∷ keys) m = erase_loop keys (erase key m)

unfoldable pub record_rate_limited : Limiter → Limiter
record_rate_limited l = record l {
  rate_limited_attempts_total = count_up l.rate_limited_attempts_total;
}

unfoldable pub metrics : Limiter → LoginMetrics
metrics l = record {
  failed_attempts_total = l.failed_attempts_total;
  rate_limited_attempts_total = l.rate_limited_attempts_total;
  tracked_keys = length l.attempts;
  evicted_keys_total = l.evicted_keys_total;
}

module _ (unicode_lower : ℕ → ℕ) where
  unfoldable pub retry_after : Limiter → Text → Text → ℕ → Limiter × ℕ
  retry_after l ip email now =
      retry_loop now (login_attempt_keys unicode_lower ip email) (cleanup_if_due l now, 0)

  unfoldable pub record_failure : Limiter → Text → Text → ℕ → Limiter
  record_failure l ip email now =
      record_loop now (login_attempt_keys unicode_lower ip email)
        (cleanup_if_due (record l { failed_attempts_total = count_up l.failed_attempts_total }) now)

  unfoldable pub record_success : Limiter → Text → Text → Limiter
  record_success l ip email = record l {
    attempts = erase_loop (login_attempt_keys unicode_lower ip email) l.attempts;
  }
