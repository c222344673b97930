-- ===== src/Server/Login/Grants.antt =====
-- backend/internal/server/auth_handlers.go: what has led to an answer 200, helper by helper.
use wol_secure_light_switch.Prelude.{
  ◌≡◌, ◌⊎◌, refl, true, none, some, arith, Text, ltb, Bool-cases, Option-cases, inl, inr,
}
use wol_secure_light_switch.Limiter.{retry_after}
use wol_secure_light_switch.Store.{
  User, Tables, Result, ok, err, initial_admin_exists, get_user_by_email, has_admins,
  create_initial_admin, admins,
}
use wol_secure_light_switch.Server.{
  Services, World, App, account, Response, set_token, validate_password,
}
use wol_secure_light_switch.Auth.{generate_jwt}
use wol_secure_light_switch.Server.Login.{
  accept, fetch_created, after_creation, first_run, no_admins, unknown_user, known_user,
  authenticate, limited, checked_login,
}

module _ (s : Services) (w : World) where
  -- The answer sets a token that was made from the user.
  abbrev pub Granted : App → User → Response → Type 0
  Granted a u r =
      (token : Text) × (generate_jwt s.jwt a.secret u (w.clock 2) ≡ some token)
      × (r ≡ record {
        status = 200;
        body = account u.id u.email u.is_admin;
        retry_after = none;
        cookie = set_token token;
      })

  accept_200 :
      (a : App) (email : Text) (u : User)
      → (accept s w a email u).1.status ≡ 200
      → ((accept s w a email u).0.tables ≡ a.tables) × Granted a u (accept s w a email u).1
  unfolding accept
  accept_200 a email u h = elim (Option-cases (generate_jwt s.jwt a.secret u (w.clock 2))) [
    | inl broken ↦ absurd (omega (arith, rw (broken, accept) at h))
    | inr (token, made) ↦ (rw (made, accept) refl, (token, made, rw (made, accept) refl))
  ]

  accept-tables : (a : App) (email : Text) (u : User) → (accept s w a email u).0.tables ≡ a.tables
  unfolding accept
  accept-tables a email u = ground arith

  known_200 :
      (a : App) (email password : Text) (u : User)
      → (known_user s w a email password u).1.status ≡ 200
      → (s.check_password_hash password u.password_hash ≡ true)
        × ((known_user s w a email password u).0.tables ≡ a.tables)
        × Granted a u (known_user s w a email password u).1
  unfolding known_user
  known_200 a email password u h =
      elim (Bool-cases (s.check_password_hash password u.password_hash)) [
        | inl right ↦
            let (kept, body) = accept_200 a email u (rw right at h) in
            (right, rw right kept, rw right body)
        | inr wrong ↦ absurd (omega (arith, rw wrong at h))
      ]

  -- What the creation of the first administrator has led to.
  abbrev Created : App → Text → App × Response → Tables × Result (Unit {0}) → Type 0
  Created a email after created =
      (user : User) × (created ≡ (after.0.tables, ok tt))
      × (get_user_by_email (w.db 3) after.0.tables email ≡ ok user)
      × Granted a user after.1

  fetch_200 :
      (a : App) (email : Text)
      → (fetch_created s w a email).1.status ≡ 200
      → (user : User) × ((fetch_created s w a email).0.tables ≡ a.tables)
        × (get_user_by_email (w.db 3) a.tables email ≡ ok user)
        × Granted a user (fetch_created s w a email).1
  unfolding fetch_created
  fetch_200 a email h = by_result (get_user_by_email (w.db 3) a.tables email) refl
    where
      by_result :
          (m : Result User)
          → get_user_by_email (w.db 3) a.tables email ≡ m
          → (user : User) × ((fetch_created s w a email).0.tables ≡ a.tables)
            × (get_user_by_email (w.db 3) a.tables email ≡ ok user)
            × Granted a user (fetch_created s w a email).1
      by_result (err x) e = absurd (omega (arith, rw (e, fetch_created) at h))
      by_result (ok user) e =
          let (kept, body) = accept_200 a email user (rw (e, fetch_created) at h) in
          (user, rw (e, fetch_created) kept, e, rw (e, fetch_created) body)

  after_creation_200 :
      (a : App) (email : Text) (created : Tables × Result (Unit {0}))
      → (after_creation s w a email created).1.status ≡ 200
      → Created a email (after_creation s w a email created) created
  unfolding after_creation
  after_creation_200 a email (tables, ok tt) h =
      let (user, kept, read, body) = fetch_200 (record a { tables = tables }) email h in
      (user, rw kept refl, rw kept read, body)
  after_creation_200 a email (tables, err initial_admin_exists) h = absurd (omega (arith, h))
  after_creation_200 a email (tables, err _) h = absurd (omega (arith, h))

  no_admins-admins :
      (a : App) → no_admins (has_admins (w.db 1) a.tables) ≡ true → admins a.tables ≡ 0
  unfolding has_admins
  no_admins-admins a h = ground arith

  unknown_200 :
      (a : App) (email password : Text)
      → (unknown_user s w a email password).1.status ≡ 200
      → (admins a.tables ≡ 0)
        × (validate_password password true ≡ none)
        × ((hash : Text) × (s.hash_password password ≡ some hash)
            × Created a email
                (unknown_user s w a email password)
                (create_initial_admin (w.db 2) a.tables email hash))
  unfolding unknown_user first_run
  unknown_200 a email password h = elim (Bool-cases (no_admins (has_admins (w.db 1) a.tables))) [
    | inr some_admin ↦ absurd (omega (arith, rw some_admin at h))
    | inl first ↦ elim (Option-cases (validate_password password true)) [
      | inr (e, weak) ↦ absurd (omega (arith, rw (first, weak, first_run) at h))
      | inl strong ↦ elim (Option-cases (s.hash_password password)) [
        | inl broken ↦ absurd (omega (arith, rw (first, strong, broken, first_run) at h))
        | inr (hash, hashed) ↦ (
          no_admins-admins a first,
          strong,
          (
            hash,
            hashed,
            rw (first, strong, hashed, first_run)
                (after_creation_200 a email (create_initial_admin (w.db 2) a.tables email hash)
                  (rw (first, strong, hashed, first_run) at h)),
          ),
        )
      ]
    ]
  ]

  -- Behind the limiter's answer.
  abbrev pub Passed : App → Text → App
  Passed a email = record a {
    limiter = (retry_after s.unicode_lower a.limiter w.client_ip email (w.clock 0)).0;
  }

  abbrev pub Entitled : App → Text → Text → App × Response → Type 0
  Entitled a email password after =
      (user : User) × (((get_user_by_email (w.db 0) a.tables email ≡ ok user)
          × (s.check_password_hash password user.password_hash ≡ true)
          × (after.0.tables ≡ a.tables))
        ⊎ ((admins a.tables ≡ 0)
            × (validate_password password true ≡ none)
            × ((hash : Text) × (s.hash_password password ≡ some hash)
                × (create_initial_admin (w.db 2) a.tables email hash ≡ (after.0.tables, ok tt))
                × (get_user_by_email (w.db 3) after.0.tables email ≡ ok user))))
      × Granted a user after.1

  authenticate_200 :
      (a : App) (email password : Text)
      → (authenticate s w a email password).1.status ≡ 200
      → Entitled a email password (authenticate s w a email password)
  unfolding authenticate
  authenticate_200 a email password h = by_result (get_user_by_email (w.db 0) a.tables email) refl
    where
      by_result :
          (m : Result User)
          → get_user_by_email (w.db 0) a.tables email ≡ m
          → Entitled a email password (authenticate s w a email password)
      by_result (ok user) e =
          let (right, kept, body) = known_200 a email password user (rw (e, authenticate) at h) in
          (user, inl (e, right, rw (e, authenticate) kept), rw (e, authenticate) body)
      by_result (err x) e =
          let (none_yet, strong, (hash, hashed, (user, made, read, body))) =
            unknown_200 a email password (rw (e, authenticate) at h) in
          (
            user,
            inr (
              none_yet,
              strong,
              (hash, hashed, rw (e, authenticate) made, rw (e, authenticate) read),
            ),
            rw (e, authenticate) body,
          )

  pub checked_200 :
      (a : App) (email password : Text)
      → (checked_login s w a email password).1.status ≡ 200
      → ((retry_after s.unicode_lower a.limiter w.client_ip email (w.clock 0)).1 ≡ 0)
        × Entitled a email password (checked_login s w a email password)
  unfolding checked_login
  checked_200 a email password h =
      elim (Bool-cases
        (ltb 0 (retry_after s.unicode_lower a.limiter w.client_ip email (w.clock 0)).1)) [
          | inl blocked_now ↦ absurd (unfold limited in omega (arith, rw blocked_now at h))
          | inr free ↦ (
            ground arith,
            rw free (authenticate_200 (Passed a email) email password (rw free at h)),
          )
        ]
