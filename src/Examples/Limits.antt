-- ===== src/Examples/Limits.antt =====
-- The limiter's theorems at a small limiter: two failures, a back-off of ten, a window of a hundred.
use wol_secure_light_switch.Prelude.{
  ℕ, ◌+◌, ◌-◌, ◌≤◌, ◌<◌, ◌≡◌, refl, inl, none, arith, List, [], ◌∷◌, Text, codes, All, length, max,
  text_dec,
}
use wol_secure_light_switch.Prelude.Map.{Map, lookup, Distinct}
use wol_secure_light_switch.Limiter.{
  LoginAttempt, Limiter, new_limiter, retry_after, record_failure, record_success, ip_key,
  account_key, evict_loop,
}
use wol_secure_light_switch.Limiter.Entries.{live}
use wol_secure_light_switch.Limiter.Bounds.{IsValid, evict_loop-room}
use wol_secure_light_switch.Limiter.Validity.{
  Call, retry, fail, succeed, run, step, run-IsValid, new_limiter-IsValid,
}
use wol_secure_light_switch.Limiter.Blocking.{blocked, retry_after-eq-max}
use wol_secure_light_switch.Limiter.Failures.{CanRecord}
use wol_secure_light_switch.Limiter.Ledger.{Limits, empty_ledger, answers, ledger_answers}
use wol_secure_light_switch.Limiter.Ledger.Answers.{answers-ledger_answers}
use wol_secure_light_switch.Limiter.Lockout.{last, failures_at, lockout}

abbrev pub unicode_lower : ℕ → ℕ
unicode_lower u = u

abbrev pub limiter : Limiter
limiter = new_limiter 2 100 10 4 20

pub limiter-IsValid : IsValid limiter
limiter-IsValid = new_limiter-IsValid 2 100 10 4 20 (omega arith)

abbrev pub ip : Text
ip = codes "192.0.2.1"

abbrev pub email : Text
email = codes "owner@home.example"

room : length limiter.attempts + 2 ≤ limiter.max_tracked_keys
unfolding new_limiter
room = omega arith

none-live : (key : Text) → live limiter 5 key ≡ none
unfolding live new_limiter lookup
none-live key = refl

within : All (λ t. t < 5 + limiter.window) (7 ∷ [])
unfolding new_limiter
within = (omega arith, tt)

enough : limiter.max_failures ≤ length {A = ℕ} (7 ∷ []) + 1
unfolding new_limiter
enough = omega arith

soon : 9 < last 5 (7 ∷ []) + limiter.backoff
unfolding new_limiter
soon = omega arith

lockout_example :
    last 5 (7 ∷ []) + limiter.backoff - 9
    ≤ (retry_after unicode_lower
        (run unicode_lower limiter (failures_at ip email (5 ∷ 7 ∷ [])))
        ip
        email
        9).1
lockout_example =
    lockout unicode_lower ip email limiter 5 9 (7 ∷ []) limiter-IsValid room
      (none-live (ip_key unicode_lower ip)) (none-live (account_key unicode_lower email)) within
      enough soon

can_record : CanRecord unicode_lower limiter ip email 5
can_record = inl room

retry_after-eq-max_example :
    (retry_after unicode_lower limiter ip email 5).1
    ≡ max
        (blocked limiter 5 (ip_key unicode_lower ip))
        (blocked limiter 5 (account_key unicode_lower email))
retry_after-eq-max_example =
    retry_after-eq-max unicode_lower limiter ip email 5 limiter-IsValid.distinct

failed_once-IsValid : IsValid (run unicode_lower limiter (fail ip email 5 ∷ succeed ip email ∷ []))
failed_once-IsValid =
    run-IsValid unicode_lower limiter (fail ip email 5 ∷ succeed ip email ∷ []) limiter-IsValid

cleared :
    Distinct
      (record_success unicode_lower
        (record_failure unicode_lower limiter ip email 5)
        ip
        email).attempts
unfolding run step
cleared = failed_once-IsValid.distinct

abbrev attempt : ℕ → LoginAttempt
attempt t = record { failures = 1; window_start = t; blocked_until = 0 }

abbrev two_attempts : Map LoginAttempt
two_attempts = (codes "b", attempt 8) ∷ (codes "a", attempt 3) ∷ []

two-Distinct : Distinct two_attempts
unfolding lookup text_dec
two-Distinct = (refl, (refl, tt))

two_named : lookup [] two_attempts ≡ none
unfolding lookup text_dec
two_named = refl

-- A limiter for one key that tracks two.
abbrev full : Limiter
full = record limiter { attempts = two_attempts; max_tracked_keys = 1 }

evict_loop-room_example :
    (length (evict_loop 2 full).attempts < full.max_tracked_keys)
    × (lookup [] (evict_loop 2 full).attempts ≡ none)
    × Distinct (evict_loop 2 full).attempts
evict_loop-room_example = evict_loop-room 2 full two_named two-Distinct (omega arith) (omega arith)

abbrev limits : Limits
limits = record { max_failures = 2; window = 100; backoff = 10 }

abbrev attempts : List Call
attempts =
    fail ip email 5
    ∷ retry ip email 6
    ∷ fail ip email 7
    ∷ retry ip email 9
    ∷ succeed ip email
    ∷ retry ip email 9
    ∷ []

answers-ledger_answers_example :
    answers unicode_lower limiter attempts
    ≡ ledger_answers limits unicode_lower empty_ledger attempts
answers-ledger_answers_example =
    answers-ledger_answers limits unicode_lower 4 20 0 attempts
      (omega arith, (omega arith, (omega arith, (omega arith, (omega arith, tt))))) (omega arith)
      (omega arith)
