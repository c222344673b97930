-- ===== src/Limiter/Failures.antt =====
-- backend/internal/auth/limiter.go: what one failure writes.
use wol_secure_light_switch.Prelude.{
  ℕ, ◌≤◌, ◌<◌, ◌+◌, ◌≡◌, refl, sym, ◌∙◌, ap, ◌≢◌, ◌⊎◌, Option, none, some, arith, Text, [], ◌∷◌,
  length, if_neg, text_dec, Bool-cases, Option-cases, inl, inr,
}
use wol_secure_light_switch.Prelude.Map.{lookup, put, Distinct, lookup-put, length-erase-le}
use wol_secure_light_switch.Limiter.{
  LoginAttempt, Limiter, attempt_expires_at, attempt_expired, cleanup_if_due, cleanup_expired,
  login_attempt_keys, ip_key, account_key, record_failure, make_room, bump, fresh_attempt,
  write_attempt, record_key, record_loop, count_up,
}
use wol_secure_light_switch.Limiter.Entries.{
  SameLimits, live, live-cleanup_if_due, lookup-cleanup_if_due-live, cleanup_if_due-SameLimits,
  length-cleanup_if_due-le,
}

-- The entry that a failure counts from.
abbrev pub base : ℕ → Option LoginAttempt → LoginAttempt
base now none = fresh_attempt now
base now (some a) = a

-- A failure can write the key without an eviction: it is tracked, or there is room for one more.
abbrev CanWrite : Limiter → Text → Type 0
CanWrite l key =
    (length l.attempts < l.max_tracked_keys)
    ⊎ ((a : LoginAttempt) × (lookup key l.attempts ≡ some a))

module _ (l : Limiter) (now : ℕ) (key : Text) where
  abbrev counted : LoginAttempt
  counted = bump l now (base now (live l now key))

  make_room_idle : length l.attempts < l.max_tracked_keys → make_room l now ≡ l
  unfolding make_room
  make_room_idle h = ground arith

  -- Such a round writes the counted entry, and touches no other.
  record_key-write :
      CanWrite l key → record_key now key l ≡ record l { attempts = put key counted l.attempts }
  unfolding record_key write_attempt live
  record_key-write h = elim (Option-cases (lookup key l.attempts)) [
    | inl absent ↦ rw (absent, record_key, live, make_room_idle (ground arith)) refl
    | inr (a, present) ↦ elim (Bool-cases (attempt_expired l a now)) [
      | inl old ↦ rw (present, record_key, live, old) refl
      | inr recent ↦ rw (present, record_key, live, recent) refl
    ]
  ]

  length-put-le : length (put key counted l.attempts) ≤ length l.attempts + 1
  unfolding put
  length-put-le = omega (arith, length-erase-le key l.attempts)

bump-same :
    (l k : Limiter) (now : ℕ) (a : LoginAttempt) → SameLimits l k → bump k now a ≡ bump l now a
unfolding bump
bump-same l k now a same = ground arith

live-counter :
    (l : Limiter) (n now : ℕ) (key : Text)
    → live (record l { failed_attempts_total = n }) now key ≡ live l now key
unfolding live attempt_expired attempt_expires_at
live-counter l n now key = refl

live-put_ne :
    (l : Limiter) (now : ℕ) (j key : Text) (a : LoginAttempt)
    → key ≢ j
    → live (record l { attempts = put j a l.attempts }) now key ≡ live l now key
unfolding live attempt_expired attempt_expires_at
live-put_ne l now j key a ne = ground (arith, lookup-put j key a l.attempts)

lookup_of_live :
    (l : Limiter) (now : ℕ) (key : Text) {a : LoginAttempt}
    → live l now key ≡ some a
    → lookup key l.attempts ≡ some a
unfolding live
lookup_of_live l now key h = ground arith

-- Room for both keys, or an entry for each.
abbrev CanWriteBoth : Limiter → Text → Text → Type 0
CanWriteBoth l i e =
    (length l.attempts + 2 ≤ l.max_tracked_keys)
    ⊎ (((a : LoginAttempt) × (lookup i l.attempts ≡ some a))
        × ((b : LoginAttempt) × (lookup e l.attempts ≡ some b)))

module _ (l : Limiter) (now : ℕ) (i e : Text) (ne : e ≢ i) where
  abbrev one_written : Limiter
  one_written = record l { attempts = put i (counted l now i) l.attempts }

  CanWrite-first : CanWriteBoth l i e → CanWrite l i
  CanWrite-first (inl room) = inl (omega arith)
  CanWrite-first (inr (at_i, at_e)) = inr at_i

  CanWrite-second : CanWriteBoth l i e → CanWrite one_written e
  CanWrite-second (inl room) = inl (omega (arith, length-put-le l now i))
  CanWrite-second (inr (at_i, (b, found))) =
      inr (b, ground (arith, lookup-put i e (counted l now i) l.attempts))

  two_rounds :
      CanWriteBoth l i e
      → record_key now e (record_key now i l)
        ≡ record l { attempts = put e (counted l now e) (put i (counted l now i) l.attempts) }
  unfolding bump
  two_rounds h =
      rw
        (
          record_key-write l now i (CanWrite-first h),
          record_key-write one_written now e (CanWrite-second h),
        )
        (ap
          (λ o. record one_written {
            attempts = put e (bump l now (base now o)) one_written.attempts;
          })
          (live-put_ne l now i e (counted l now i) ne))

code_at_front : Text → ℕ
code_at_front [] = 0
code_at_front (u ∷ s) = u

module _ (unicode_lower : ℕ → ℕ) where
  pub keys-ne : (ip email : Text) → ip_key unicode_lower ip ≢ account_key unicode_lower email
  unfolding account_key code_at_front
  keys-ne ip email = λ e. absurd (omega (arith, ap code_at_front e))

  -- The limiter that the rounds of a failure start from.
  abbrev swept : Limiter → ℕ → Limiter
  swept l now =
      cleanup_if_due (record l { failed_attempts_total = count_up l.failed_attempts_total }) now

  module _ (l : Limiter) (ip email : Text) (now : ℕ) where
    abbrev i : Text
    i = ip_key unicode_lower ip

    abbrev e : Text
    e = account_key unicode_lower email

    -- A failure evicts nothing: both keys have entries that count, or there is room for two more.
    abbrev pub CanRecord : Type 0
    CanRecord =
        (length l.attempts + 2 ≤ l.max_tracked_keys)
        ⊎ (((a : LoginAttempt) × (live l now i ≡ some a))
            × ((b : LoginAttempt) × (live l now e ≡ some b)))

    swept-counted :
        (key : Text)
        → Distinct l.attempts
        → counted (swept l now) now key ≡ bump l now (base now (live l now key))
    swept-counted key d =
        let n = count_up l.failed_attempts_total in
        let same =
          live-cleanup_if_due (record l { failed_attempts_total = n }) now key d
          ∙ live-counter l n now key in
        rw same (
          bump-same l (swept l now) now _
            (cleanup_if_due-SameLimits (record l { failed_attempts_total = n }) now))

    swept-CanWriteBoth : Distinct l.attempts → CanRecord → CanWriteBoth (swept l now) i e
    swept-CanWriteBoth d (inl room) =
        let r = record l { failed_attempts_total = count_up l.failed_attempts_total } in
        inl (omega (arith, length-cleanup_if_due-le r now, cleanup_if_due-SameLimits r now))
    swept-CanWriteBoth d (inr ((a, at_i), (b, at_e))) =
        let r = record l { failed_attempts_total = count_up l.failed_attempts_total } in
        let n = count_up l.failed_attempts_total in
        inr (
          (a, lookup-cleanup_if_due-live r now i a d (live-counter l n now i ∙ at_i)),
          (b, lookup-cleanup_if_due-live r now e b d (live-counter l n now e ∙ at_e)),
        )

    -- With no key tracked twice, and with room for two more keys or entries that count for both: a
    -- failure stores for the address and for the account the entry that counted, or a fresh one,
    -- with one failure more, and leaves the limits.
    pub lookup-record_failure :
        Distinct l.attempts
        → CanRecord
        → (lookup i (record_failure unicode_lower l ip email now).attempts
            ≡ some (bump l now (base now (live l now i))))
          × (lookup e (record_failure unicode_lower l ip email now).attempts
              ≡ some (bump l now (base now (live l now e))))
          × SameLimits l (record_failure unicode_lower l ip email now)
    unfolding record_failure login_attempt_keys record_loop
    lookup-record_failure d h =
        let s = swept l now in
        let at_i = counted s now i in
        let at_e = counted s now e in
        let limits =
          cleanup_if_due-SameLimits
            (record l { failed_attempts_total = count_up l.failed_attempts_total }) now in
        rw (two_rounds s now i e (λ p. keys-ne ip email (sym p)) (swept-CanWriteBoth d h)) (
          ground (
            arith,
            lookup-put e i at_e (put i at_i s.attempts),
            lookup-put i i at_i s.attempts,
            keys-ne ip email,
            swept-counted i d,
          ),
          ground (arith, lookup-put e e at_e (put i at_i s.attempts), swept-counted e d),
          limits,
        )

    swept-attempts : (swept l now).attempts ≡ (cleanup_if_due l now).attempts
    unfolding cleanup_if_due cleanup_expired attempt_expired attempt_expires_at
    swept-attempts = ground arith

    -- No other entry is touched, and at most two keys come in.
    pub lookup-record_failure_ne :
        Distinct l.attempts
        → CanRecord
        → ((q : Text)
            → q ≢ i
            → q ≢ e
            → lookup q (record_failure unicode_lower l ip email now).attempts
              ≡ lookup q (cleanup_if_due l now).attempts)
          × (length (record_failure unicode_lower l ip email now).attempts ≤ length l.attempts + 2)
    unfolding record_failure login_attempt_keys record_loop
    lookup-record_failure_ne d h =
        let s = swept l now in
        let at_i = counted s now i in
        let at_e = counted s now e in
        let r = record l { failed_attempts_total = count_up l.failed_attempts_total } in
        rw (two_rounds s now i e (λ p. keys-ne ip email (sym p)) (swept-CanWriteBoth d h)) (
          λ q ne_i ne_e.
              lookup-put e q at_e (put i at_i s.attempts)
              ∙ if_neg (text_dec e q) (λ p. ne_e (sym p)) _ _
              ∙ lookup-put i q at_i s.attempts
              ∙ if_neg (text_dec i q) (λ p. ne_i (sym p)) _ _
              ∙ ap (lookup q) swept-attempts,
          unfold put in
              omega (
                arith,
                length-erase-le e (put i at_i s.attempts),
                length-erase-le i s.attempts,
                length-cleanup_if_due-le r now,
              ),
        )
