-- ===== src/Limiter/Ledger/Answers.antt =====
-- backend/internal/auth/limiter.go: over a run of calls, the limiter refines the ledger.
use wol_secure_light_switch.Prelude.{
  ℕ, ◌+◌, ◌≤◌, ◌<◌, ◌≡◌, refl, ap, max, inl, arith, List, [], ◌∷◌, Text, length,
}
use wol_secure_light_switch.Prelude.Map.{lookup, erase, length-erase-le}
use wol_secure_light_switch.Limiter.{
  Limiter, new_limiter, attempt_expires_at, attempt_expired, cleanup_if_due, retry_key, retry_loop,
  retry_after, record_failure, record_success, record_rate_limited, erase_loop, login_attempt_keys,
  ip_key, account_key,
}
use wol_secure_light_switch.Limiter.Bounds.{IsValid}
use wol_secure_light_switch.Limiter.Entries.{live, length-cleanup_if_due-le}
use wol_secure_light_switch.Limiter.Failures.{lookup-record_failure, lookup-record_failure_ne}
use wol_secure_light_switch.Limiter.Validity.{
  Call, retry, fail, limited, succeed, step, step-IsValid, new_limiter-IsValid,
}
use wol_secure_light_switch.Limiter.Ledger.{
  Limits, Ledger, empty_ledger, current, block_left, failed, ledger_step, ledger_answers, answers,
  demand, InOrder,
}
use wol_secure_light_switch.Limiter.Queries.{retry_after-SameLimits}
use wol_secure_light_switch.Limiter.Ledger.Agreement.{
  Agrees, retry-Agrees, retry-answer, fail-Agrees, succeed-Agrees,
}

length-retry_key-le :
    (now : ℕ) (key : Text) (l : Limiter) (n : ℕ)
    → length (retry_key now key (l, n)).0.attempts ≤ length l.attempts
unfolding retry_key
length-retry_key-le now key l n = ground (arith, length-erase-le key l.attempts)

module _ (s : Limits) (unicode_lower : ℕ → ℕ) where
  length-retry_after-le :
      (l : Limiter) (ip email : Text) (now : ℕ)
      → length (retry_after unicode_lower l ip email now).0.attempts ≤ length l.attempts
  unfolding retry_after login_attempt_keys retry_loop
  length-retry_after-le l ip email now =
      let c = cleanup_if_due l now in
      let r = retry_key now (ip_key unicode_lower ip) (c, 0) in
      omega (
        arith,
        length-cleanup_if_due-le l now,
        length-retry_key-le now (ip_key unicode_lower ip) c 0,
        length-retry_key-le now (account_key unicode_lower email) r.0 r.1,
      )

  length-record_success-le :
      (l : Limiter) (ip email : Text)
      → length (record_success unicode_lower l ip email).attempts ≤ length l.attempts
  unfolding record_success login_attempt_keys erase_loop
  length-record_success-le l ip email = omega (
    arith,
    length-erase-le (ip_key unicode_lower ip) l.attempts,
    length-erase-le (account_key unicode_lower email) (erase (ip_key unicode_lower ip) l.attempts),
  )

  limited-Agrees :
      (l : Limiter) (d : Ledger) (t : ℕ) → Agrees s l d t → Agrees s (record_rate_limited l) d t
  unfolding record_rate_limited live attempt_expired attempt_expires_at
  limited-Agrees l d t g = record {
    max_failures = g.max_failures;
    window = g.window;
    backoff = g.backoff;
    same = g.same;
  }

  run-Agrees :
      (l : Limiter) (d : Ledger) (t : ℕ) (cs : List Call)
      → IsValid l
      → Agrees s l d t
      → InOrder t cs
      → length l.attempts + demand cs ≤ l.max_tracked_keys
      → answers unicode_lower l cs ≡ ledger_answers s unicode_lower d cs
  unfolding answers ledger_answers step ledger_step
  run-Agrees l d t [] v g order room = refl
  run-Agrees l d t (retry ip email now ∷ cs) v g (h, order) room =
      let k = (retry_after unicode_lower l ip email now).0 in
      let limits = retry_after-SameLimits unicode_lower l ip email now in
      rw (retry-answer s unicode_lower l d ip email now h v.distinct g) (
        ap
          (λ rest.
            max (block_left s now (current s d now (ip_key unicode_lower ip)))
              (block_left s now (current s d now (account_key unicode_lower email)))
            ∷ rest)
          (run-Agrees k d now cs (step-IsValid unicode_lower l (retry ip email now) v)
            (retry-Agrees s unicode_lower l d ip email now h v.distinct g) order
            (omega (arith, length-retry_after-le l ip email now, limits, room))))
  run-Agrees l d t (fail ip email now ∷ cs) v g (h, order) room =
      let two : length l.attempts + 2 ≤ l.max_tracked_keys = omega (arith, room) in
      let k = record_failure unicode_lower l ip email now in
      let (_, _, limits) =
        lookup-record_failure unicode_lower l ip email now v.distinct (inl two) in
      let (_, longer) =
        lookup-record_failure_ne unicode_lower l ip email now v.distinct (inl two) in
      run-Agrees k (failed s d (ip_key unicode_lower ip) (account_key unicode_lower email) now) now
        cs (step-IsValid unicode_lower l (fail ip email now) v)
        (fail-Agrees s unicode_lower l d ip email now h v.distinct two g) order
        (omega (arith, longer, limits, room))
  run-Agrees l d t (limited ∷ cs) v g order room =
      run-Agrees (record_rate_limited l) d t cs (step-IsValid unicode_lower l limited v)
        (limited-Agrees l d t g) order (unfold record_rate_limited in omega (arith, room))
  run-Agrees l d t (succeed ip email ∷ cs) v g order room =
      run-Agrees (record_success unicode_lower l ip email) _ t cs
        (step-IsValid unicode_lower l (succeed ip email) v)
        (succeed-Agrees s unicode_lower l d ip email t g) order
        (unfold record_success in omega (arith, length-record_success-le l ip email, room))

  -- A new limiter gives, over every sequence of calls whose times do not go back and whose
  -- failures need no more keys than its capacity, the answers of a ledger that never forgets an
  -- attempt and reads it only while it counts: clean-ups, deletions and their timing show in no
  -- answer. The capacity is positive.
  pub answers-ledger_answers :
      (max_tracked_keys cleanup_interval t : ℕ) (cs : List Call)
      → InOrder t cs
      → demand cs ≤ max_tracked_keys
      → 0 < max_tracked_keys
      → answers unicode_lower
          (new_limiter s.max_failures s.window s.backoff max_tracked_keys cleanup_interval)
          cs
        ≡ ledger_answers s unicode_lower empty_ledger cs
  unfolding new_limiter live lookup
  answers-ledger_answers max_tracked_keys cleanup_interval t cs order room positive =
      run-Agrees (new_limiter s.max_failures s.window s.backoff max_tracked_keys cleanup_interval)
        empty_ledger t cs
        (new_limiter-IsValid s.max_failures s.window s.backoff max_tracked_keys cleanup_interval
          positive)
        (record {
          max_failures = refl;
          window = refl;
          backoff = refl;
          same = λ now after key. refl;
        })
        order (omega (arith, room))
