-- ===== src/Server/Moves/Logins.antt =====
-- backend/internal/server/auth_handlers.go: the handlers change the application by moves.
use wol_secure_light_switch.Prelude.{
  ◌≡◌, refl, true, false, Option, none, some, arith, Text, Bool-cases, Option-cases, inl, inr, ltb,
}
use wol_secure_light_switch.Limiter.Validity
use wol_secure_light_switch.Limiter.Validity.{step}
use wol_secure_light_switch.Limiter.{retry_after, record_failure}
use wol_secure_light_switch.Store.{
  User, Tables, Result, ok, err, initial_admin_exists, get_user_by_email, create_initial_admin,
  has_admins,
}
use wol_secure_light_switch.Store.Keys
use wol_secure_light_switch.Store.Keys.{call}
use wol_secure_light_switch.Auth.{Context}
use wol_secure_light_switch.Server.{
  Services, World, App, Email, valid, invalid, validate_email, validate_password,
}
use wol_secure_light_switch.Server.Login.{
  LoginRequest, accept, fetch_created, after_creation, first_run, no_admins, unknown_user,
  known_user, authenticate, limited, checked_login, handle_login, handle_logout, handle_check_setup,
}
use wol_secure_light_switch.Server.Moves.{
  Moves, Moves-eq, here, Moves-trans, stored_move, counted_move,
}

module _ (s : Services) (w : World) where
  failed-Moves :
      (a : App) (email : Text)
      → Moves s w a (record a {
        limiter = record_failure s.unicode_lower a.limiter w.client_ip email (w.clock 1);
      })
  unfolding step
  failed-Moves a email = counted_move s w a (Validity.fail w.client_ip email (w.clock 1))

  accept-Moves : (a : App) (email : Text) (u : User) → Moves s w a (accept s w a email u).0
  unfolding accept step
  accept-Moves a email u =
      Moves-eq s w (ground arith) (counted_move s w a (Validity.succeed w.client_ip email))

  fetch_created-Moves : (a : App) (email : Text) → Moves s w a (fetch_created s w a email).0
  unfolding fetch_created
  fetch_created-Moves a email = by_user (get_user_by_email (w.db 3) a.tables email) refl
    where
      by_user :
          (m : Result User)
          → get_user_by_email (w.db 3) a.tables email ≡ m
          → Moves s w a (fetch_created s w a email).0
      by_user (err x) e = Moves-eq s w (rw (e, fetch_created) refl) here
      by_user (ok u) e = Moves-eq s w (rw (e, fetch_created) refl) (accept-Moves a email u)

  -- After a creation, the tables are those that it left.
  after_creation-Moves :
      (a b : App) (email : Text) (r : Tables × Result (Unit {0}))
      → Moves s w a (record b { tables = r.0 })
      → Moves s w a (after_creation s w b email r).0
  unfolding after_creation
  after_creation-Moves a b email (t, ok _) m =
      Moves-trans s w m (fetch_created-Moves (record b { tables = t }) email)
  after_creation-Moves a b email (t, err initial_admin_exists) m =
      Moves-trans s w m (failed-Moves (record b { tables = t }) email)
  after_creation-Moves a b email (t, err _) m = m

  first_run-Moves :
      (a : App) (email password : Text) → Moves s w a (first_run s w a email password).0
  unfolding first_run
  first_run-Moves a email password = elim (Option-cases (validate_password password true)) [
    | inr (e, weak) ↦ Moves-eq s w (rw (weak, first_run) refl) here
    | inl strong ↦ elim (Option-cases (s.hash_password password)) [
      | inl unhashed ↦ Moves-eq s w (rw (strong, unhashed, first_run) refl) here
      | inr (hash, hashed) ↦ Moves-eq s w (rw (strong, hashed, first_run) refl) (
          after_creation-Moves a a email (create_initial_admin (w.db 2) a.tables email hash)
            (unfold call in stored_move s w a 2 (Keys.initial_admin email hash)))
    ]
  ]

  authenticate-Moves :
      (a : App) (email password : Text) → Moves s w a (authenticate s w a email password).0
  unfolding authenticate
  authenticate-Moves a email password = by_user (get_user_by_email (w.db 0) a.tables email) refl
    where
      known : (u : User) → Moves s w a (known_user s w a email password u).0
      known u = elim (Bool-cases (s.check_password_hash password u.password_hash)) [
        | inl right ↦ Moves-eq s w (rw (right, known_user) refl) (accept-Moves a email u)
        | inr wrong ↦ Moves-eq s w (rw (wrong, known_user) refl) (failed-Moves a email)
      ]

      unknown : Moves s w a (unknown_user s w a email password).0
      unknown = elim (Bool-cases (no_admins (has_admins (w.db 1) a.tables))) [
        | inl first ↦
            Moves-eq s w (rw (first, unknown_user) refl) (first_run-Moves a email password)
        | inr later ↦ Moves-eq s w (rw (later, unknown_user) refl) (failed-Moves a email)
      ]

      by_user :
          (m : Result User)
          → get_user_by_email (w.db 0) a.tables email ≡ m
          → Moves s w a (authenticate s w a email password).0
      by_user (err x) e = Moves-eq s w (rw (e, authenticate) refl) unknown
      by_user (ok u) e = Moves-eq s w (rw (e, authenticate) refl) (known u)

  checked_login-Moves :
      (a : App) (email password : Text) → Moves s w a (checked_login s w a email password).0
  unfolding checked_login step
  checked_login-Moves a email password =
      elim (Bool-cases
        (ltb 0 (retry_after s.unicode_lower a.limiter w.client_ip email (w.clock 0)).1)) [
          | inl blocked ↦
              Moves-eq s w (rw (blocked, checked_login) (unfold limited in refl))
                (Moves-trans s w asked (counted_move s w b Validity.limited))
          | inr free ↦
              Moves-eq s w (rw (free, checked_login) refl)
                (Moves-trans s w asked (authenticate-Moves b email password))
        ]
    where
      b : App
      b = record a {
        limiter = (retry_after s.unicode_lower a.limiter w.client_ip email (w.clock 0)).0;
      }

      asked : Moves s w a b
      asked = counted_move s w a (Validity.retry w.client_ip email (w.clock 0))

  pub handle_login-Moves :
      (a : App) (request : Option LoginRequest) → Moves s w a (handle_login s w a request).0
  unfolding handle_login
  handle_login-Moves a none = here
  handle_login-Moves a (some request) = by_email (validate_email s request.email) refl
    where
      by_email :
          (m : Email)
          → validate_email s request.email ≡ m
          → Moves s w a (handle_login s w a (some request)).0
      by_email (invalid x) e = Moves-eq s w (rw (e, handle_login) refl) here
      by_email (valid email) e = elim (Option-cases (validate_password request.password false)) [
        | inr (x, bad) ↦ Moves-eq s w (rw (e, bad, handle_login) refl) here
        | inl fine ↦
            Moves-eq s w (rw (e, fine, handle_login) refl)
              (checked_login-Moves a email request.password)
      ]

  pub handle_logout-Moves : (a : App) (c : Context) → Moves s w a (handle_logout s w a c).0
  unfolding handle_logout call
  handle_logout-Moves a c =
      Moves-eq s w (ground arith) (stored_move s w a 0 (Keys.revoke c.user_id c.token_version))

  pub handle_check_setup-Moves : (a : App) → Moves s w a (handle_check_setup s w a).0
  unfolding handle_check_setup
  handle_check_setup-Moves a = Moves-eq s w (ground arith) here
