-- ===== src/Server/Login/Refusals.antt =====
-- backend/internal/server/auth_handlers.go: what a login that is blocked or refused answers and
-- changes.
use wol_secure_light_switch.Prelude.{
  ℕ, ◌+◌, ◌*◌, ◌≤◌, ◌<◌, ◌≡◌, ◌≢◌, ◌⊎◌, refl, false, none, some, arith, Text, inl, inr, max,
}
use wol_secure_light_switch.Prelude.Map.{Distinct}
use wol_secure_light_switch.Limiter.{
  second, retry_after, record_failure, record_rate_limited, ip_key, account_key,
}
use wol_secure_light_switch.Limiter.Blocking.{blocked, retry_after-eq-max}
use wol_secure_light_switch.Store.{User, Result, ok, err, get_user_by_email, has_admins, admins}
use wol_secure_light_switch.Server.{
  Services, World, App, Response, failure, Cookie, valid, validate_email, validate_password,
}
use wol_secure_light_switch.Server.Login.{
  LoginRequest, ceil_seconds, no_admins, unknown_user, known_user, authenticate, limited,
  checked_login, handle_login,
}

-- The header's value is the least number of seconds that covers the block.
ceil_seconds_least :
    (d : ℕ)
    → 0 < d
    → (d ≤ ceil_seconds d * second) × (ceil_seconds d * second < d + second) × (0 < ceil_seconds d)
ceil_seconds_least d h = (omega arith, omega arith, omega arith)

module _ (s : Services) (w : World) (a : App) (request : LoginRequest) (email : Text)
    (good : validate_email s request.email ≡ valid email)
    (fine : validate_password request.password false ≡ none) where
  -- For how long the limiter blocks the address and the account of the request.
  abbrev pub remaining : ℕ
  remaining =
      max (blocked a.limiter (w.clock 0) (ip_key s.unicode_lower w.client_ip))
        (blocked a.limiter (w.clock 0) (account_key s.unicode_lower email))

  -- While the address or the account is blocked, a login of valid form is answered 429 with the
  -- least number of seconds that covers the block, whatever the password; the tables stay, and the
  -- limiter counts one limited attempt more.
  pub handle_login_blocked :
      Distinct a.limiter.attempts
      → 0 < remaining
      → (n : ℕ) × (remaining ≤ n * second)
        × (n * second < remaining + second)
        × ((handle_login s w a (some request)).1.status ≡ 429)
        × ((handle_login s w a (some request)).1.retry_after ≡ some n)
        × ((handle_login s w a (some request)).0.tables ≡ a.tables)
        × ((handle_login s w a (some request)).0.limiter
            ≡ record_rate_limited
                (retry_after s.unicode_lower a.limiter w.client_ip email (w.clock 0)).0)
  unfolding handle_login checked_login limited
  handle_login_blocked d h =
      let same_time =
        retry_after-eq-max s.unicode_lower a.limiter w.client_ip email (w.clock 0) d in
      let (above, below, _) = ceil_seconds_least remaining h in
      (
        ceil_seconds remaining,
        above,
        below,
        ground (arith, good, fine, same_time),
        ground (arith, good, fine, same_time),
        ground (arith, good, fine, same_time),
        ground (arith, good, fine, same_time),
      )

  -- The refusal of a pair of address and password: the answer 401, which has one text, and one
  -- failure recorded in the limiter that the query left.
  abbrev pub refusal : App × Response
  refusal = (
    record a {
      limiter =
          record_failure s.unicode_lower
            (retry_after s.unicode_lower a.limiter w.client_ip email (w.clock 0)).0 w.client_ip
            email (w.clock 1);
    },
    record {
      status = 401;
      body = failure "Invalid email or password";
      retry_after = none;
      cookie = Cookie.unchanged;
    },
  )

  -- For a login of valid form, with no key of the limiter tracked twice: when neither the address
  -- nor the account is blocked, a wrong password for a stored user, and an address for which no
  -- user is read while there is an administrator, have one and the same outcome: the answer 401
  -- with one text, no cookie and no Retry-After, and one failure of the pair recorded in the
  -- limiter that the query left; all else stays.
  pub handle_login_refused :
      Distinct a.limiter.attempts
      → remaining ≡ 0
      → (((user : User) × (get_user_by_email (w.db 0) a.tables email ≡ ok user)
            × (s.check_password_hash request.password user.password_hash ≡ false))
          ⊎ (((user : User) → get_user_by_email (w.db 0) a.tables email ≢ ok user)
              × (0 < admins a.tables)))
      → handle_login s w a (some request) ≡ refusal
  handle_login_refused d free why = reached (authenticate_refused why)
    where
      b : App
      b = record a {
        limiter = (retry_after s.unicode_lower a.limiter w.client_ip email (w.clock 0)).0;
      }

      reached :
          authenticate s w b email request.password ≡ refusal
          → handle_login s w a (some request) ≡ refusal
      reached h =
          let same_time =
            retry_after-eq-max s.unicode_lower a.limiter w.client_ip email (w.clock 0) d in
          unfold handle_login checked_login in ground (arith, good, fine, same_time, free, h)

      no_first_run : 0 < admins a.tables → no_admins (has_admins (w.db 1) a.tables) ≡ false
      no_first_run h = unfold has_admins in ground arith

      unknown :
          (m : Result User)
          → get_user_by_email (w.db 0) a.tables email ≡ m
          → ((user : User) → get_user_by_email (w.db 0) a.tables email ≢ ok user)
          → 0 < admins a.tables
          → authenticate s w b email request.password ≡ refusal
      unknown (ok user) e nobody h = absurd (nobody user e)
      unknown (err x) e nobody h =
          unfold authenticate unknown_user in rw (e, authenticate, no_first_run h) refl

      authenticate_refused :
          (((user : User) × (get_user_by_email (w.db 0) a.tables email ≡ ok user)
              × (s.check_password_hash request.password user.password_hash ≡ false))
            ⊎ (((user : User) → get_user_by_email (w.db 0) a.tables email ≢ ok user)
                × (0 < admins a.tables)))
          → authenticate s w b email request.password ≡ refusal
      authenticate_refused (inl (user, found, wrong)) =
          unfold authenticate known_user in rw (found, wrong, authenticate) refl
      authenticate_refused (inr (nobody, h)) =
          unknown (get_user_by_email (w.db 0) a.tables email) refl nobody h
