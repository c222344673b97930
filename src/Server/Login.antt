-- ===== src/Server/Login.antt =====
-- backend/internal/server/auth_handlers.go: login with the first-run setup, logout, the session
-- and the setup check.
pub mod Grants
pub mod Laws
pub mod Refusals
use Prim.Native.String.{String}
use wol_secure_light_switch.Prelude.{
  ℕ, ◌+◌, ◌-◌, ◌/◌, ◌≡◌, Bool, true, false, not, ◌&&◌, ◌||◌, Option, none, some, List, [], ◌∷◌,
  Text, codes, ltb, if◌then◌else◌,
}
use wol_secure_light_switch.Limiter.{
  Limiter, second, retry_after, record_failure, record_success, record_rate_limited, metrics,
}
use wol_secure_light_switch.Store.{
  User, Tables, StoreError, Result, ok, err, initial_admin_exists, get_user_by_email, has_admins,
  create_initial_admin, revoke_user_tokens, Engine,
}
use wol_secure_light_switch.Auth.{Context, generate_jwt}
use wol_secure_light_switch.Server.{
  Services, World, App, Body, empty, failure, account, needs_setup, login_metrics, Cookie,
  set_token, cleared, Response, respond, Email, valid, invalid, validate_email, validate_password,
}

pub record LoginRequest : Type 0 where
  pub email : Text
  pub password : Text

-- The cost of this hash is paid for unknown accounts; the result of the comparison is dropped.
abbrev pub dummy_password_hash : Text
dummy_password_hash = codes "$2a$14$.v2MM6lQsbQtlFau9Yn2Je5bROrS04X2IHY1QukIOGYMuhbCkH9IG"

-- `int(math.Ceil(retryAfter.Seconds()))`, in exact numbers. Up to 2 ^ 23 seconds, which is 97 days,
-- the rounding of float64 takes no fraction of a second to a whole number below it, so the result is
-- the same; the program blocks for a minute.
abbrev pub ceil_seconds : ℕ → ℕ
ceil_seconds d = (d + (second - 1)) / second

-- `dbErr == nil && !hasAdmins`
abbrev pub no_admins : Result Bool → Bool
no_admins (ok found) = not found
no_admins (err x) = false

module _ (s : Services) (w : World) where
  -- From `RecordSuccess` on.
  unfoldable pub accept : App → Text → User → App × Response
  accept a email user =
      let a' = record a { limiter = record_success s.unicode_lower a.limiter w.client_ip email } in
      elim (generate_jwt s.jwt a.secret user (w.clock 2)) [
        | none ↦ (a', respond 500 (failure "Failed to generate token"))
        | some token ↦ (
          a',
          record {
            status = 200;
            body = account user.id user.email user.is_admin;
            retry_after = none;
            cookie = set_token token;
          },
        )
      ]

  -- Behind a successful `CreateInitialAdmin`.
  unfoldable pub fetch_created : App → Text → App × Response
  unfolding accept
  fetch_created a email = elim (get_user_by_email (w.db 3) a.tables email) [
    | err x ↦ (a, respond 500 (failure "Failed to retrieve new admin user"))
    | ok user ↦ accept a email user
  ]

  unfoldable pub after_creation : App → Text → Tables × Result (Unit {0}) → App × Response
  unfolding fetch_created
  after_creation a email (tables, ok _) = fetch_created (record a { tables = tables }) email
  after_creation a email (tables, err initial_admin_exists) = (
    record a {
      tables = tables;
      limiter = record_failure s.unicode_lower a.limiter w.client_ip email (w.clock 1);
    },
    respond 401 (failure "Invalid email or password"),
  )
  after_creation a email (tables, err _) =
      (record a { tables = tables }, respond 500 (failure "Failed to create initial admin user"))

  -- No administrator exists: this user becomes the first one.
  unfoldable pub first_run : App → Text → Text → App × Response
  unfolding after_creation
  first_run a email password = elim (validate_password password true) [
    | some e ↦ (a, respond 400 (failure e))
    | none ↦ elim (s.hash_password password) [
      | none ↦ (a, respond 500 (failure "Failed to hash password"))
      | some hash ↦ after_creation a email (create_initial_admin (w.db 2) a.tables email hash)
    ]
  ]

  unfoldable pub unknown_user : App → Text → Text → App × Response
  unfolding first_run
  unknown_user a email password =
      if no_admins (has_admins (w.db 1) a.tables) then first_run a email password else (
        record a {
          limiter = record_failure s.unicode_lower a.limiter w.client_ip email (w.clock 1);
        },
        respond 401 (failure "Invalid email or password"),
      )

  unfoldable pub known_user : App → Text → Text → User → App × Response
  unfolding accept
  known_user a email password user =
      if not (s.check_password_hash password user.password_hash)
      then (
        record a {
          limiter = record_failure s.unicode_lower a.limiter w.client_ip email (w.clock 1);
        },
        respond 401 (failure "Invalid email or password"),
      )
      else accept a email user

  -- Behind the rate limit.
  unfoldable pub authenticate : App → Text → Text → App × Response
  unfolding known_user unknown_user
  authenticate a email password = elim (get_user_by_email (w.db 0) a.tables email) [
    | err x ↦ unknown_user a email password
    | ok user ↦ known_user a email password user
  ]

  unfoldable pub limited : App → ℕ → App × Response
  limited a remaining = (
    record a { limiter = record_rate_limited a.limiter },
    record {
      status = 429;
      body = failure "Too many login attempts; try again later";
      retry_after = some (ceil_seconds remaining);
      cookie = Cookie.unchanged;
    },
  )

  unfoldable pub checked_login : App → Text → Text → App × Response
  unfolding authenticate limited
  checked_login a email password =
      let (limiter, remaining) =
        retry_after s.unicode_lower a.limiter w.client_ip email (w.clock 0) in
      let a' = record a { limiter = limiter } in
      if ltb 0 remaining then limited a' remaining else authenticate a' email password

  -- `none` is a body that `ShouldBindJSON` refuses.
  unfoldable pub handle_login : App → Option LoginRequest → App × Response
  unfolding checked_login
  handle_login a none = (a, respond 400 (failure "bad request"))
  handle_login a (some request) = elim (validate_email s request.email) [
    | invalid e ↦ (a, respond 400 (failure e))
    | valid email ↦ elim (validate_password request.password false) [
      | some e ↦ (a, respond 400 (failure e))
      | none ↦ checked_login a email request.password
    ]
  ]

  unfoldable pub handle_logout : App → Context → App × Response
  handle_logout a c =
      let (tables, result) = revoke_user_tokens (w.db 0) a.tables c.user_id c.token_version in
      elim result [
        | err x ↦ (record a { tables = tables }, respond 401 (failure "Invalid or expired token"))
        | ok _ ↦ (
          record a { tables = tables },
          record { status = 204; body = empty; retry_after = none; cookie = cleared },
        )
      ]

  unfoldable pub handle_check_setup : App → App × Response
  handle_check_setup a = elim (has_admins (w.db 0) a.tables) [
    | err x ↦ (a, respond 500 (failure "Failed to check setup status"))
    | ok found ↦ (a, respond 200 (needs_setup (not found)))
  ]

unfoldable pub handle_login_metrics : App → App × Response
handle_login_metrics a = (a, respond 200 (login_metrics (metrics a.limiter)))

unfoldable pub handle_current_user : App → Context → App × Response
handle_current_user a c = (a, respond 200 (account c.user_id c.user_email c.is_admin))
