-- ===== src/Server/Login/Laws.antt =====
-- backend/internal/server/auth_handlers.go: who gets a session, and what a login changes.
use Prim.Native.String.{String}
use wol_secure_light_switch.Prelude.{
  ◌≡◌, ◌⊎◌, refl, true, false, none, some, arith, Text, Option-cases, inl, inr,
}
use wol_secure_light_switch.Limiter.{retry_after}
use wol_secure_light_switch.Store.{User, ok, get_user_by_email, create_initial_admin, admins}
use wol_secure_light_switch.Server.{
  Services, World, App, Email, valid, invalid, validate_email, validate_password,
}
use wol_secure_light_switch.Server.Login.{LoginRequest, handle_login}
use wol_secure_light_switch.Server.Login.Grants.{Granted, checked_200}

module _ (s : Services) (w : World) where
  -- The tables that a login may leave: those before, or those with the first administrator.
  pub record IsSession (a : App) (request : LoginRequest) (after : App) (user : User) : Type 0 where
    pub email : Text
    pub good_email : validate_email s request.email ≡ valid email
    pub not_blocked : (retry_after s.unicode_lower a.limiter w.client_ip email (w.clock 0)).1 ≡ 0
    pub entitled :
        ((get_user_by_email (w.db 0) a.tables email ≡ ok user)
          × (s.check_password_hash request.password user.password_hash ≡ true)
          × (after.tables ≡ a.tables))
        ⊎ ((admins a.tables ≡ 0)
            × (validate_password request.password true ≡ none)
            × ((hash : Text) × (s.hash_password request.password ≡ some hash)
                × (create_initial_admin (w.db 2) a.tables email hash ≡ (after.tables, ok tt))
                × (get_user_by_email (w.db 3) after.tables email ≡ ok user)))

  -- If a login is answered 200, its address is valid and not blocked; the answer shows a stored
  -- user of that address whose hash matches the password, with the tables left alone, or, if there
  -- was no administrator and the password has the length that a new one needs, the administrator
  -- that this request created; and it sets a token that was made from that user.
  pub handle_login-IsSession :
      (a : App) (request : LoginRequest)
      → (handle_login s w a (some request)).1.status ≡ 200
      → (user : User) × IsSession a request (handle_login s w a (some request)).0 user
        × Granted s w a user (handle_login s w a (some request)).1
  handle_login-IsSession a request h = by_email (validate_email s request.email) refl
    where
      Wanted : Type 0
      Wanted =
          (user : User) × IsSession a request (handle_login s w a (some request)).0 user
          × Granted s w a user (handle_login s w a (some request)).1

      by_password :
          (email : Text)
          → validate_email s request.email ≡ valid email
          → ((validate_password request.password false ≡ none)
              ⊎ ((e : String) × (validate_password request.password false ≡ some e)))
          → Wanted
      by_password email good (inr (e, bad)) =
          absurd (unfold handle_login in omega (arith, rw (good, bad, handle_login) at h))
      by_password email good (inl fine) =
          let (free, (user, entitled, body)) =
            checked_200 s w a email request.password
              (unfold handle_login in rw (good, fine, handle_login) at h) in
          (
            user,
            record {
              email = email;
              good_email = good;
              not_blocked = free;
              entitled = unfold handle_login in rw (good, fine, handle_login) entitled;
            },
            unfold handle_login in rw (good, fine, handle_login) body,
          )

      by_email : (m : Email) → validate_email s request.email ≡ m → Wanted
      by_email (invalid e) bad =
          absurd (unfold handle_login in omega (arith, rw (bad, handle_login) at h))
      by_email (valid email) good =
          by_password email good (Option-cases (validate_password request.password false))
