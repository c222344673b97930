-- ===== src/Limiter/Lockout.antt =====
-- backend/internal/auth/limiter.go: repeated failures block the address and the account.
use wol_secure_light_switch.Prelude.{
  ℕ, ◌≤◌, ◌<◌, ◌+◌, ◌-◌, ◌≡◌, refl, ◌∙◌, subst, none, some, arith, Text, List, [], ◌∷◌, map, length,
  inl, inr, All,
}
use wol_secure_light_switch.Prelude.Map.{lookup, Distinct}
use wol_secure_light_switch.Limiter.{
  LoginAttempt, Limiter, attempt_expires_at, attempt_expired, retry_after, record_failure, bump,
  ip_key, account_key,
}
use wol_secure_light_switch.Limiter.Entries.{live}
use wol_secure_light_switch.Limiter.Bounds.{IsValid}
use wol_secure_light_switch.Limiter.Validity.{Call, fail, step, run, run-IsValid, step-IsValid}
use wol_secure_light_switch.Limiter.Failures.{base, lookup-record_failure}
use wol_secure_light_switch.Limiter.Blocking.{blocked, retry_after-eq-max}

-- An entry that has counted `n` failures since `start`, the last of them at `t`.
abbrev Counted : Limiter → ℕ → ℕ → ℕ → Text → Type 0
Counted l n start t key =
    (a : LoginAttempt) × (lookup key l.attempts ≡ some a)
    × (n ≤ a.failures)
    × (start ≤ a.window_start)
    × (l.max_failures ≤ n → t + l.backoff ≤ a.blocked_until)

-- A failure of the pair at each of the times.
abbrev pub failures_at : Text → Text → List ℕ → List Call
failures_at ip email = map (λ t. fail ip email t)

-- The time of the last failure of a sequence.
abbrev pub last : ℕ → List ℕ → ℕ
last t [] = t
last t (u ∷ ts) = last u ts

live_of_Counted :
    (l : Limiter) (n start t now : ℕ) (key : Text) (c : Counted l n start t key)
    → now < start + l.window
    → live l now key ≡ some c.0
unfolding live attempt_expired attempt_expires_at
live_of_Counted l n start t now key (a, found, _, since, _) h = ground arith

blocked_of_Counted :
    (l : Limiter) (n start t now : ℕ) (key : Text)
    → Counted l n start t key
    → l.max_failures ≤ n
    → now < t + l.backoff
    → t + l.backoff - now ≤ blocked l now key
unfolding blocked live attempt_expired attempt_expires_at
blocked_of_Counted l n start t now key (a, found, _, since, until) full h =
    let u = until full in ground arith

-- The entry that a failure at `t` writes over one that counts.
Counted-bump :
    (l k : Limiter) (n start t u : ℕ) (key : Text) (c : Counted l n start u key)
    → (k.max_failures ≡ l.max_failures)
    → (k.backoff ≡ l.backoff)
    → lookup key k.attempts ≡ some (bump l t c.0)
    → Counted k (n + 1) start t key
unfolding bump
Counted-bump l k n start t u key (a, found, many, since, until) e f written =
    (bump l t a, written, omega arith, since, λ full. ground arith)

module _ (unicode_lower : ℕ → ℕ) (ip email : Text) where
  abbrev Both : Limiter → ℕ → ℕ → ℕ → Type 0
  Both l n start t =
      Counted l n start t (ip_key unicode_lower ip)
      × Counted l n start t (account_key unicode_lower email)

  Both-step :
      (l : Limiter) (n start u t : ℕ)
      → Distinct l.attempts
      → Both l n start u
      → t < start + l.window
      → Both (record_failure unicode_lower l ip email t) (n + 1) start t
        × ((record_failure unicode_lower l ip email t).max_failures ≡ l.max_failures)
        × ((record_failure unicode_lower l ip email t).window ≡ l.window)
        × ((record_failure unicode_lower l ip email t).backoff ≡ l.backoff)
  Both-step l n start u t d (c, b) h =
      let i = ip_key unicode_lower ip in
      let e = account_key unicode_lower email in
      let at_i = live_of_Counted l n start u t i c h in
      let at_e = live_of_Counted l n start u t e b h in
      let (wrote_i, wrote_e, limits) =
        lookup-record_failure unicode_lower l ip email t d (inr ((c.0, at_i), (b.0, at_e))) in
      let k = record_failure unicode_lower l ip email t in
      (
        (
          Counted-bump l k n start t u i c limits.0 limits.2 (rw at_i at wrote_i),
          Counted-bump l k n start t u e b limits.0 limits.2 (rw at_e at wrote_e),
        ),
        limits.0,
        limits.1,
        limits.2,
      )

  Both-start :
      (l : Limiter) (t : ℕ)
      → Distinct l.attempts
      → length l.attempts + 2 ≤ l.max_tracked_keys
      → live l t (ip_key unicode_lower ip) ≡ none
      → live l t (account_key unicode_lower email) ≡ none
      → Both (record_failure unicode_lower l ip email t) 1 t t
        × ((record_failure unicode_lower l ip email t).max_failures ≡ l.max_failures)
        × ((record_failure unicode_lower l ip email t).window ≡ l.window)
        × ((record_failure unicode_lower l ip email t).backoff ≡ l.backoff)
  unfolding bump
  Both-start l t d room no_i no_e =
      let (wrote_i, wrote_e, limits) =
        lookup-record_failure unicode_lower l ip email t d (inl room) in
      let a = bump l t (base t none) in
      (
        (
          (a, rw no_i at wrote_i, omega arith, omega arith, λ full. ground arith),
          (a, rw no_e at wrote_e, omega arith, omega arith, λ full. ground arith),
        ),
        limits.0,
        limits.1,
        limits.2,
      )

  Both-run :
      (l : Limiter) (n m start u : ℕ) (ts : List ℕ)
      → n + length ts ≡ m
      → IsValid l
      → Both l n start u
      → All (λ t. t < start + l.window) ts
      → Both (run unicode_lower l (failures_at ip email ts)) m start (last u ts)
        × ((run unicode_lower l (failures_at ip email ts)).max_failures ≡ l.max_failures)
        × ((run unicode_lower l (failures_at ip email ts)).backoff ≡ l.backoff)
  unfolding run step
  Both-run l n m start u [] e v b h =
      let e' : n ≡ m = omega arith in (subst (λ k. Both l k start u) e' b, refl, refl)
  Both-run l n m start u (t ∷ ts) e v b (h, hs) =
      let (b', e₁, e₂, e₃) = Both-step l n start u t v.distinct b h in
      let k = record_failure unicode_lower l ip email t in
      let v' : IsValid k = step-IsValid unicode_lower l (fail ip email t) v in
      let (b'', f₁, f₂) = Both-run k (n + 1) m start t ts (omega arith) v' b' (rw e₂ hs) in
      (b'', f₁ ∙ e₁, f₂ ∙ e₃)

  -- From a valid limiter with room for two more keys, and with no entry that counts for the
  -- address and the account: if `maxFailures` failures or more of the pair are recorded, the later
  -- ones each before the window since the first has passed, then, until the back-off has passed
  -- since the last, `RetryAfter` answers at least what is left of it.
  pub lockout :
      (l : Limiter) (start now : ℕ) (ts : List ℕ)
      → IsValid l
      → length l.attempts + 2 ≤ l.max_tracked_keys
      → live l start (ip_key unicode_lower ip) ≡ none
      → live l start (account_key unicode_lower email) ≡ none
      → All (λ t. t < start + l.window) ts
      → l.max_failures ≤ length ts + 1
      → now < last start ts + l.backoff
      → last start ts + l.backoff - now
        ≤ (retry_after unicode_lower
            (run unicode_lower l (failures_at ip email (start ∷ ts)))
            ip
            email
            now).1
  unfolding run step
  lockout l start now ts v room no_i no_e within enough soon =
      let (b, e₁, e₂, e₃) = Both-start l start v.distinct room no_i no_e in
      let k = record_failure unicode_lower l ip email start in
      let w : IsValid k = step-IsValid unicode_lower l (fail ip email start) v in
      let (c, f₁, f₂) =
        Both-run k 1 (length ts + 1) start start ts (omega arith) w b (rw e₂ within) in
      let r = run unicode_lower k (failures_at ip email ts) in
      let z : IsValid r = run-IsValid unicode_lower k (failures_at ip email ts) w in
      rw (retry_after-eq-max unicode_lower r ip email now z.distinct) (
        omega (
          arith,
          blocked_of_Counted r (length ts + 1) start (last start ts) now _ c.0 (omega arith)
              (omega arith),
        ))
