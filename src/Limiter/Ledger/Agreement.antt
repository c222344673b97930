-- ===== src/Limiter/Ledger/Agreement.antt =====
-- backend/internal/auth/limiter.go: within its capacity, the limiter answers as the ledger does.
use wol_secure_light_switch.Prelude.{
  ℕ, ◌+◌, ◌≤◌, ◌≡◌, refl, sym, ap, ◌∙◌, subst, max, Option, none, some, arith, Text, text_dec,
  if_pos, if_neg, length, Option-cases, inl, inr,
}
use wol_secure_light_switch.Prelude.Map.{
  lookup, erase, keep, Distinct, lookup-erase_self, lookup-erase_ne,
}
use wol_secure_light_switch.Limiter.{
  LoginAttempt, Limiter, attempt_expires_at, attempt_expired, cleanup_if_due, retry_key, retry_loop,
  retry_after, record_failure, record_success, erase_loop, login_attempt_keys, ip_key, account_key,
  bump,
}
use wol_secure_light_switch.Limiter.Entries.{live, cleanup_if_due-SameLimits}
use wol_secure_light_switch.Limiter.Blocking.{blocked, retry_after-eq-max}
use wol_secure_light_switch.Limiter.Failures.{
  base, keys-ne, lookup-record_failure, lookup-record_failure_ne,
}
use wol_secure_light_switch.Limiter.Ledger.{
  Limits, Ledger, counts, current, block_left, one_more, write, failed,
}
use wol_secure_light_switch.Limiter.Queries.{
  later-cleanup_if_due, later-retry_key, retry_after-SameLimits,
}

-- The limiter and the ledger read the same, now and later.
pub record Agrees (s : Limits) (l : Limiter) (d : Ledger) (t : ℕ) : Type 0 where
  pub max_failures : l.max_failures ≡ s.max_failures
  pub window : l.window ≡ s.window
  pub backoff : l.backoff ≡ s.backoff
  pub same : (now : ℕ) → t ≤ now → (key : Text) → live l now key ≡ current s d now key

module _ (s : Limits) where
  live-keep :
      (l : Limiter) (now : ℕ) (key : Text)
      → l.window ≡ s.window
      → live l now key ≡ keep (counts s now) (lookup key l.attempts)
  unfolding live attempt_expired attempt_expires_at
  live-keep l now key w = elim (Option-cases (lookup key l.attempts)) [
    | inl absent ↦ rw absent refl
    | inr (a, present) ↦ rw (present, w) (ground arith)
  ]

  bump-one_more :
      (l : Limiter) (now : ℕ) (a : LoginAttempt)
      → l.max_failures ≡ s.max_failures
      → l.backoff ≡ s.backoff
      → bump l now a ≡ one_more s now a
  unfolding bump
  bump-one_more l now a f b = rw (f, b) (ground arith)

  blocked_of_live :
      (l : Limiter) (now : ℕ) (key : Text) (m : Option LoginAttempt)
      → live l now key ≡ m
      → blocked l now key ≡ block_left s now m
  unfolding blocked
  blocked_of_live l now key none h = rw (h, blocked) refl
  blocked_of_live l now key (some a) h = rw (h, blocked) refl

  module _ (unicode_lower : ℕ → ℕ) (l : Limiter) (d : Ledger) (ip email : Text) (now : ℕ) where
    abbrev i : Text
    i = ip_key unicode_lower ip

    abbrev e : Text
    e = account_key unicode_lower email

    pub retry-Agrees :
        {t : ℕ}
        → t ≤ now
        → Distinct l.attempts
        → Agrees s l d t
        → Agrees s (retry_after unicode_lower l ip email now).0 d now
    retry-Agrees h v g = record {
      max_failures = (retry_after-SameLimits unicode_lower l ip email now).0 ∙ g.max_failures;
      window = (retry_after-SameLimits unicode_lower l ip email now).1 ∙ g.window;
      backoff = (retry_after-SameLimits unicode_lower l ip email now).2 ∙ g.backoff;
      same = λ later after key.
          unfold retry_after login_attempt_keys retry_loop in
          later-retry_key now later e key (retry_key now i (cleanup_if_due l now, 0)).0
            (retry_key now i (cleanup_if_due l now, 0)).1 after
          ∙ later-retry_key now later i key (cleanup_if_due l now) 0 after
          ∙ later-cleanup_if_due l now later key after v
          ∙ g.same later (omega (arith, h, after)) key;
    }

    -- The answers are the same.
    pub retry-answer :
        {t : ℕ}
        → t ≤ now
        → Distinct l.attempts
        → Agrees s l d t
        → (retry_after unicode_lower l ip email now).1
          ≡ max (block_left s now (current s d now i)) (block_left s now (current s d now e))
    retry-answer h v g =
        retry_after-eq-max unicode_lower l ip email now v
        ∙ rw
            (
              blocked_of_live l now i (current s d now i) (g.same now h i),
              blocked_of_live l now e (current s d now e) (g.same now h e),
            )
            refl

    -- A key that the failure writes.
    written_same :
        (later : ℕ) (key : Text)
        → (record_failure unicode_lower l ip email now).window ≡ s.window
        → lookup key (record_failure unicode_lower l ip email now).attempts
          ≡ some (bump l now (base now (live l now key)))
        → live l now key ≡ current s d now key
        → l.max_failures ≡ s.max_failures
        → l.backoff ≡ s.backoff
        → live (record_failure unicode_lower l ip email now) later key
          ≡ keep (counts s later) (some (one_more s now (base now (current s d now key))))
    written_same later key w found read f b =
        live-keep (record_failure unicode_lower l ip email now) later key w
        ∙ ap (keep (counts s later)) (
            found
            ∙ ap some (
                bump-one_more l now (base now (live l now key)) f b
                ∙ ap (λ m. one_more s now (base now m)) read))

    -- A key that the failure does not write.
    spared_same :
        (later : ℕ) (key : Text)
        → now ≤ later
        → Distinct l.attempts
        → (record_failure unicode_lower l ip email now).window ≡ s.window
        → l.window ≡ s.window
        → lookup key (record_failure unicode_lower l ip email now).attempts
          ≡ lookup key (cleanup_if_due l now).attempts
        → live l later key ≡ current s d later key
        → live (record_failure unicode_lower l ip email now) later key ≡ current s d later key
    spared_same later key after v w w' found read =
        live-keep (record_failure unicode_lower l ip email now) later key w
        ∙ ap (keep (counts s later)) found
        ∙ sym
            (live-keep (cleanup_if_due l now) later key ((cleanup_if_due-SameLimits l now).1 ∙ w'))
        ∙ later-cleanup_if_due l now later key after v
        ∙ read

    pub fail-Agrees :
        {t : ℕ}
        → t ≤ now
        → Distinct l.attempts
        → length l.attempts + 2 ≤ l.max_tracked_keys
        → Agrees s l d t
        → Agrees s (record_failure unicode_lower l ip email now) (failed s d i e now) now
    unfolding failed
    fail-Agrees {t} h v room g =
        let (at_i, at_e, limits) =
          lookup-record_failure unicode_lower l ip email now v (inl room) in
        let (others, _) = lookup-record_failure_ne unicode_lower l ip email now v (inl room) in
        record {
          max_failures = limits.0 ∙ g.max_failures;
          window = limits.1 ∙ g.window;
          backoff = limits.2 ∙ g.backoff;
          same = λ later after key. elim (text_dec e key) [
            | yes p ↦ subst (Reads later) p (
                written_same later e (limits.1 ∙ g.window) at_e (g.same now h e) g.max_failures
                  g.backoff
                ∙ ap (keep (counts s later)) (sym (if_pos (text_dec e e) refl _ _)))
            | no p ↦ elim (text_dec i key) [
              | yes q ↦ subst (Reads later) q (
                  written_same later i (limits.1 ∙ g.window) at_i (g.same now h i) g.max_failures
                    g.backoff
                  ∙ ap (keep (counts s later)) (
                      sym (
                        if_neg (text_dec e i) (λ x. keys-ne unicode_lower ip email (sym x)) _ _
                        ∙ if_pos (text_dec i i) refl _ _)))
              | no q ↦
                  spared_same later key after v (limits.1 ∙ g.window) g.window
                    (others key (λ x. q (sym x)) (λ x. p (sym x)))
                    (g.same later (omega (arith, h, after)) key)
                  ∙ ap (keep (counts s later))
                      (sym (if_neg (text_dec e key) p _ _ ∙ if_neg (text_dec i key) q _ _))
            ]
          ];
        }
      where
        Reads : ℕ → Text → Type 0
        Reads later key =
            live (record_failure unicode_lower l ip email now) later key
            ≡ current s (failed s d i e now) later key

    pub succeed-Agrees :
        {t : ℕ}
        → Agrees s l d t
        → Agrees s (record_success unicode_lower l ip email) (write s e none (write s i none d)) t
    unfolding record_success login_attempt_keys erase_loop
    succeed-Agrees {t} g = record {
      max_failures = g.max_failures;
      window = g.window;
      backoff = g.backoff;
      same = λ later after key.
          live-keep (record_success unicode_lower l ip email) later key g.window
          ∙ erased later key (sym (live-keep l later key g.window) ∙ g.same later after key);
    }
      where
        erased :
            (later : ℕ) (key : Text)
            → keep (counts s later) (lookup key l.attempts) ≡ current s d later key
            → keep (counts s later) (lookup key (erase e (erase i l.attempts)))
              ≡ current s (write s e none (write s i none d)) later key
        erased later key read = elim (text_dec e key) [
          | yes p ↦
              subst
                (λ k.
                  keep (counts s later) (lookup k (erase e (erase i l.attempts)))
                  ≡ current s (write s e none (write s i none d)) later k)
                p
                (ap (keep (counts s later))
                  (lookup-erase_self e (erase i l.attempts) ∙ sym (if_pos (text_dec e e) refl _ _)))
          | no p ↦ elim (text_dec i key) [
            | yes q ↦ ap (keep (counts s later)) (
                lookup-erase_ne e key (erase i l.attempts) (λ x. p (sym x))
                ∙ subst (λ k. lookup k (erase i l.attempts) ≡ none) q
                    (lookup-erase_self i l.attempts)
                ∙ sym (if_neg (text_dec e key) p _ _ ∙ if_pos (text_dec i key) q _ _))
            | no q ↦
                ap (keep (counts s later)) (
                  lookup-erase_ne e key (erase i l.attempts) (λ x. p (sym x))
                  ∙ lookup-erase_ne i key l.attempts (λ x. q (sym x)))
                ∙ read
                ∙ ap (keep (counts s later))
                    (sym (if_neg (text_dec e key) p _ _ ∙ if_neg (text_dec i key) q _ _))
          ]
        ]
