-- ===== src/Limiter/Ledger.antt =====
-- backend/internal/auth/limiter.go: what the login limiter promises, without a table of bounded
-- size, clean-ups or deletions. A ledger keeps the last attempt of each key for ever, and reads it
-- only while it counts.
pub mod Agreement
pub mod Answers
use wol_secure_light_switch.Prelude.{
  ℕ, ◌+◌, ◌-◌, ◌≤◌, ◌≡◌, max, Bool, true, false, Option, none, some, List, [], ◌∷◌, Text, text_dec,
  ite, ltb, leb,
}
use wol_secure_light_switch.Prelude.Map.{keep}
use wol_secure_light_switch.Limiter.{LoginAttempt, Limiter, retry_after, ip_key, account_key}
use wol_secure_light_switch.Limiter.Validity.{Call, retry, fail, limited, succeed, step}
use wol_secure_light_switch.Limiter.Failures.{base}

pub record Limits : Type 0 where
  pub max_failures : ℕ
  pub window : ℕ
  pub backoff : ℕ

abbrev pub Ledger : Type 0
Ledger = Text → Option LoginAttempt

abbrev pub empty_ledger : Ledger
empty_ledger key = none

module _ (s : Limits) where
  -- An attempt counts within its window, and as long as it blocks.
  abbrev pub counts : ℕ → LoginAttempt → Bool
  counts now a = ltb now (max (a.window_start + s.window) a.blocked_until)

  abbrev pub current : Ledger → ℕ → Ledger
  current d now key = keep (counts now) (d key)

  abbrev pub block_left : ℕ → Option LoginAttempt → ℕ
  block_left now none = 0
  block_left now (some a) = a.blocked_until - now

  abbrev pub one_more : ℕ → LoginAttempt → LoginAttempt
  one_more now a = record a {
    failures = a.failures + 1;
    blocked_until = elim (leb s.max_failures (a.failures + 1)) [
      | true ↦ now + s.backoff
      | false ↦ a.blocked_until
    ];
  }

  abbrev pub write : Text → Option LoginAttempt → Ledger → Ledger
  write key m d q = ite (text_dec key q) m (d q)

  -- A failure counts for both keys.
  unfoldable pub failed : Ledger → Text → Text → ℕ → Ledger
  failed d i e now =
      write e (some (one_more now (base now (current d now e))))
        (write i (some (one_more now (base now (current d now i)))) d)

  module _ (unicode_lower : ℕ → ℕ) where
    unfoldable pub ledger_step : Ledger → Call → Ledger
    unfolding failed
    ledger_step d (retry ip email now) = d
    ledger_step d (fail ip email now) =
        failed d (ip_key unicode_lower ip) (account_key unicode_lower email) now
    ledger_step d limited = d
    ledger_step d (succeed ip email) =
        write (account_key unicode_lower email) none (write (ip_key unicode_lower ip) none d)

    -- The answers to the calls of `RetryAfter`, in order.
    unfoldable pub ledger_answers : Ledger → List Call → List ℕ
    ledger_answers d [] = []
    ledger_answers d (retry ip email now ∷ cs) =
        max (block_left now (current d now (ip_key unicode_lower ip)))
          (block_left now (current d now (account_key unicode_lower email)))
        ∷ ledger_answers (ledger_step d (retry ip email now)) cs
    ledger_answers d (c ∷ cs) = ledger_answers (ledger_step d c) cs

module _ (unicode_lower : ℕ → ℕ) where
  -- The same answers of the limiter.
  unfoldable pub answers : Limiter → List Call → List ℕ
  answers l [] = []
  answers l (retry ip email now ∷ cs) =
      (retry_after unicode_lower l ip email now).1
      ∷ answers (step unicode_lower l (retry ip email now)) cs
  answers l (c ∷ cs) = answers (step unicode_lower l c) cs

-- The number of keys that the calls can bring in.
abbrev pub demand : List Call → ℕ
demand [] = 0
demand (fail ip email now ∷ cs) = 2 + demand cs
demand (c ∷ cs) = demand cs

-- The clock does not go back.
abbrev pub InOrder : ℕ → List Call → Type 0
InOrder t [] = Unit
InOrder t (retry ip email now ∷ cs) = (t ≤ now) × InOrder now cs
InOrder t (fail ip email now ∷ cs) = (t ≤ now) × InOrder now cs
InOrder t (c ∷ cs) = InOrder t cs
