-- ===== src/Limiter/Validity.antt =====
-- backend/internal/auth/limiter.go: every method keeps the table of attempts well formed.
use wol_secure_light_switch.Prelude.{
  ℕ, zero, suc, ◌<◌, refl, ◌≢◌, not, arith, Text, List, [], ◌∷◌, length, Bool-cases, Option-cases,
  inl, inr, ltb, All,
}
use wol_secure_light_switch.Prelude.Map.{
  lookup, erase, put, erase-Distinct, put-Distinct, retain-none, retain-Distinct, length-erase-le,
  length-erase_present, length-retain-le, lookup-put,
}
use wol_secure_light_switch.Limiter.{
  LoginAttempt, Limiter, attempt_expired, cleanup_expired, cleanup_if_due, evict_loop, oldest_from,
  make_room, retry_key, retry_loop, bump, fresh_attempt, write_attempt, record_key, record_loop,
  erase_loop, count_up, retry_after, record_failure, record_success, record_rate_limited,
  new_limiter, login_attempt_keys, account_key,
}
use wol_secure_light_switch.Limiter.Entries.{SameLimits}
use wol_secure_light_switch.Limiter.Bounds.{IsValid, evict_loop-room, erase-named}

erase-IsValid :
    (l : Limiter) (key : Text) → IsValid l → IsValid (record l { attempts = erase key l.attempts })
erase-IsValid l key v = record {
  distinct = erase-Distinct key l.attempts v.distinct;
  named = erase-named l key l.attempts v.named;
  bounded = omega (arith, length-erase-le key l.attempts, v.bounded);
  positive = v.positive;
}

cleanup_expired-IsValid : (l : Limiter) (now : ℕ) → IsValid l → IsValid (cleanup_expired l now)
unfolding cleanup_expired
cleanup_expired-IsValid l now v =
    let p = λ (k : Text) (a : LoginAttempt). not (attempt_expired l a now) in
    record {
      distinct = retain-Distinct p l.attempts v.distinct;
      named = retain-none p [] l.attempts v.named;
      bounded = omega (arith, length-retain-le p l.attempts, v.bounded);
      positive = v.positive;
    }

pub cleanup_if_due-IsValid : (l : Limiter) (now : ℕ) → IsValid l → IsValid (cleanup_if_due l now)
unfolding cleanup_if_due
cleanup_if_due-IsValid l now v = ground (arith, cleanup_expired-IsValid l now v)

pub evict_loop-SameLimits : (fuel : ℕ) (l : Limiter) → SameLimits l (evict_loop fuel l)
unfolding evict_loop
evict_loop-SameLimits zero l = (refl, refl, refl, refl)
evict_loop-SameLimits (suc fuel) l = ground (
  arith,
  evict_loop-SameLimits fuel (record l {
    attempts = erase (oldest_from l [] 0 l.attempts) l.attempts;
    evicted_keys_total = count_up l.evicted_keys_total;
  }),
)

pub make_room-SameLimits : (l : Limiter) (now : ℕ) → SameLimits l (make_room l now)
unfolding make_room cleanup_expired
make_room-SameLimits l now =
    ground (
      arith,
      evict_loop-SameLimits (length (cleanup_expired l now).attempts) (cleanup_expired l now),
    )

-- What `makeRoomLocked` hands to the write of a new key.
pub make_room-room :
    (l : Limiter) (now : ℕ)
    → IsValid l
    → IsValid (make_room l now)
      × (length (make_room l now).attempts < (make_room l now).max_tracked_keys)
unfolding make_room
make_room-room l now v = elim (Bool-cases (ltb (length l.attempts) l.max_tracked_keys)) [
  | inl under ↦ rw under (v, ground arith)
  | inr full ↦ rw full (swept (cleanup_expired l now) (cleanup_expired-IsValid l now v))
]
  where
    swept :
        (s : Limiter)
        → IsValid s
        → IsValid (evict_loop (length s.attempts) s)
          × (length (evict_loop (length s.attempts) s).attempts
              < (evict_loop (length s.attempts) s).max_tracked_keys)
    swept s w =
        let (room, named, distinct) =
          evict_loop-room (length s.attempts) s w.named w.distinct (omega arith) w.positive in
        let limits = evict_loop-SameLimits (length s.attempts) s in
        (
          record {
            distinct = distinct;
            named = named;
            bounded = omega (arith, limits);
            positive = omega (arith, limits, w.positive);
          },
          omega (arith, limits),
        )

write_attempt-IsValid :
    (l : Limiter) (now : ℕ) (key : Text) (a : LoginAttempt)
    → IsValid l
    → key ≢ []
    → length (erase key l.attempts) < l.max_tracked_keys
    → IsValid (write_attempt l now key a)
unfolding write_attempt
write_attempt-IsValid l now key a v ne room = record {
  distinct = put-Distinct key (bump l now a) l.attempts v.distinct;
  named = ground (arith, lookup-put key [] (bump l now a) l.attempts, v.named);
  bounded = unfold put in omega arith;
  positive = v.positive;
}

record_key-IsValid :
    (now : ℕ) (key : Text) (l : Limiter) → key ≢ [] → IsValid l → IsValid (record_key now key l)
unfolding record_key
record_key-IsValid now key l ne v = elim (Option-cases (lookup key l.attempts)) [
  | inl absent ↦
      let (w, room) = make_room-room l now v in
      rw (absent, record_key)
        (write_attempt-IsValid (make_room l now) now key (fresh_attempt now) w ne
          (omega (arith, length-erase-le key (make_room l now).attempts)))
  | inr (a, present) ↦
      rw (present, record_key)
        (write_attempt-IsValid l now key _ v ne
          (omega (arith, length-erase_present key a l.attempts present, v.bounded)))
]

record_loop-IsValid :
    (now : ℕ) (keys : List Text) (l : Limiter)
    → All (λ k. k ≢ []) keys
    → IsValid l
    → IsValid (record_loop now keys l)
unfolding record_loop
record_loop-IsValid now [] l ne v = v
record_loop-IsValid now (key ∷ keys) l ne v =
    record_loop-IsValid now keys (record_key now key l) ne.1 (record_key-IsValid now key l ne.0 v)

retry_key-IsValid :
    (now : ℕ) (key : Text) (s : Limiter × ℕ) → IsValid s.0 → IsValid (retry_key now key s).0
unfolding retry_key
retry_key-IsValid now key (l, longest) v = ground (arith, erase-IsValid l key v)

retry_loop-IsValid :
    (now : ℕ) (keys : List Text) (s : Limiter × ℕ) → IsValid s.0 → IsValid (retry_loop now keys s).0
unfolding retry_loop
retry_loop-IsValid now [] s v = v
retry_loop-IsValid now (key ∷ keys) s v =
    retry_loop-IsValid now keys (retry_key now key s) (retry_key-IsValid now key s v)

erase_loop-IsValid :
    (keys : List Text) (l : Limiter)
    → IsValid l
    → IsValid (record l { attempts = erase_loop keys l.attempts })
unfolding erase_loop
erase_loop-IsValid [] l v = v
erase_loop-IsValid (key ∷ keys) l v =
    erase_loop-IsValid keys (record l { attempts = erase key l.attempts }) (erase-IsValid l key v)

-- The methods, as the calls that a handler makes.
pub data Call : Type 0 where
  retry : (ip email : Text) (now : ℕ) → Call
  fail : (ip email : Text) (now : ℕ) → Call
  limited : Call
  succeed : (ip email : Text) → Call

module _ (unicode_lower : ℕ → ℕ) where
  unfoldable pub step : Limiter → Call → Limiter
  step l (retry ip email now) = (retry_after unicode_lower l ip email now).0
  step l (fail ip email now) = record_failure unicode_lower l ip email now
  step l limited = record_rate_limited l
  step l (succeed ip email) = record_success unicode_lower l ip email

  unfoldable pub run : Limiter → List Call → Limiter
  run l [] = l
  run l (c ∷ cs) = run (step l c) cs

  keys-named : (ip email : Text) → All (λ k. k ≢ []) (login_attempt_keys unicode_lower ip email)
  unfolding login_attempt_keys account_key
  keys-named ip email = (cc, (cc, tt))

  pub step-IsValid : (l : Limiter) (c : Call) → IsValid l → IsValid (step l c)
  unfolding step retry_after record_failure record_success record_rate_limited
  step-IsValid l (retry ip email now) v =
      retry_loop-IsValid now _ (cleanup_if_due l now, 0) (cleanup_if_due-IsValid l now v)
  step-IsValid l (fail ip email now) v = record_loop-IsValid now _ _ (keys-named ip email) (
      cleanup_if_due-IsValid (record l { failed_attempts_total = count_up l.failed_attempts_total })
        now
        (record {
          distinct = v.distinct;
          named = v.named;
          bounded = v.bounded;
          positive = v.positive;
        }))
  step-IsValid l limited v = record {
    distinct = v.distinct;
    named = v.named;
    bounded = v.bounded;
    positive = v.positive;
  }
  step-IsValid l (succeed ip email) v =
      erase_loop-IsValid (login_attempt_keys unicode_lower ip email) l v

  -- After any sequence of calls on a valid limiter no key is tracked twice, the empty key is not
  -- tracked, and at most `maxTrackedKeys` keys are tracked.
  pub run-IsValid : (l : Limiter) (cs : List Call) → IsValid l → IsValid (run l cs)
  unfolding run
  run-IsValid l [] v = v
  run-IsValid l (c ∷ cs) v = run-IsValid (step l c) cs (step-IsValid l c v)

pub new_limiter-IsValid :
    (max_failures window backoff max_tracked_keys cleanup_interval : ℕ)
    → 0 < max_tracked_keys
    → IsValid (new_limiter max_failures window backoff max_tracked_keys cleanup_interval)
unfolding new_limiter lookup
new_limiter-IsValid f w b m c pos = record {
  distinct = tt;
  named = refl;
  bounded = omega arith;
  positive = pos;
}
