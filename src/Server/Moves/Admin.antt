-- ===== src/Server/Moves/Admin.antt =====
-- backend/internal/server/admin_handlers.go: the handlers change the application by moves.
use wol_secure_light_switch.Prelude.{
  ℕ, ◌≡◌, refl, true, Option, none, some, arith, List, [], ◌∷◌, Text, Option-cases, inl, inr,
}
use wol_secure_light_switch.Prelude.Int.{atoi, to_uint}
use wol_secure_light_switch.Store.{Tables, Result, ok, err, record_not_found, last_administrator}
use wol_secure_light_switch.Store.Keys
use wol_secure_light_switch.Store.Keys.{call}
use wol_secure_light_switch.Server.{
  Services, World, App, Response, Email, valid, invalid, validate_email, validate_password,
  configured_device_ids,
}
use wol_secure_light_switch.Server.Admin.{
  CreateUserRequest, UpdateUserRequest, handle_get_users, check_devices, create_checked,
  handle_create_user, positive_id, new_hash, update_checked, weak_password, listed, unless_refused,
  update_bound, handle_update_user, deletion_response, handle_delete_user,
}
use wol_secure_light_switch.Server.Moves.{
  Moves, Moves-eq, here, Moves-trans, stored_move, loaded_move,
}

module _ (s : Services) (w : World) where
  pub handle_get_users-Moves : (a : App) → Moves s w a (handle_get_users s w a).0
  unfolding handle_get_users
  handle_get_users-Moves a = Moves-eq s w (ground arith) here

  check_devices-Moves : (a : App) (ids : List Text) → Moves s w a (check_devices s w a ids).0
  unfolding check_devices configured_device_ids
  check_devices-Moves a [] = here
  check_devices-Moves a (id ∷ ids) = Moves-eq s w (ground arith) (loaded_move s w a)

  unless_refused-Moves :
      (a : App) (x : App × Option Response) (k : App → App × Response)
      → Moves s w a x.0
      → ((b : App) → Moves s w b (k b).0)
      → Moves s w a (unless_refused s w x k).0
  unless_refused-Moves a (b, none) k m n = Moves-trans s w m (n b)
  unless_refused-Moves a (b, some r) k m n = m

  create_checked-Moves :
      (a : App) (email : Text) (request : CreateUserRequest)
      → Moves s w a (create_checked s w a email request).0
  unfolding create_checked
  create_checked-Moves a email request = elim (Option-cases (s.hash_password request.password)) [
    | inl unhashed ↦ Moves-eq s w (rw (unhashed, create_checked) refl) here
    | inr (hash, hashed) ↦
        Moves-eq s w (rw (hashed, create_checked) (unfold call in ground arith))
          (stored_move s w a 0 (Keys.create email hash request.is_admin request.devices))
  ]

  pub handle_create_user-Moves :
      (a : App) (request : Option CreateUserRequest)
      → Moves s w a (handle_create_user s w a request).0
  unfolding handle_create_user
  handle_create_user-Moves a none = here
  handle_create_user-Moves a (some request) = by_email (validate_email s request.email) refl
    where
      by_email :
          (m : Email)
          → validate_email s request.email ≡ m
          → Moves s w a (handle_create_user s w a (some request)).0
      by_email (invalid x) e = Moves-eq s w (rw (e, handle_create_user) refl) here
      by_email (valid email) e = elim (Option-cases (validate_password request.password true)) [
        | inr (x, bad) ↦ Moves-eq s w (rw (e, bad, handle_create_user) refl) here
        | inl fine ↦ Moves-eq s w (rw (e, fine, handle_create_user) refl) (
            unless_refused-Moves a (check_devices s w a request.devices)
              (λ a'. create_checked s w a' email request) (check_devices-Moves a request.devices)
              (λ b. create_checked-Moves b email request))
      ]

  update_checked-Moves :
      (a : App) (id : ℕ) (request : UpdateUserRequest)
      → Moves s w a (update_checked s w a id request).0
  unfolding update_checked
  update_checked-Moves a id request = elim (Option-cases (new_hash s w request.password)) [
    | inl unhashed ↦ Moves-eq s w (rw (unhashed, update_checked) refl) here
    | inr (hash, hashed) ↦
        Moves-eq s w (rw (hashed, update_checked) (unfold call in ground arith))
          (stored_move s w a 0 (Keys.update id hash request.is_admin request.devices))
  ]

  update_bound-Moves :
      (a : App) (id : ℕ) (request : Option UpdateUserRequest)
      → Moves s w a (update_bound s w a id request).0
  unfolding update_bound
  update_bound-Moves a id none = here
  update_bound-Moves a id (some request) =
      elim (Option-cases (weak_password s w request.password)) [
        | inr (x, weak) ↦ Moves-eq s w (rw (weak, update_bound) refl) here
        | inl strong ↦ Moves-eq s w (rw (strong, update_bound) refl) (
            unless_refused-Moves a (check_devices s w a (listed s w request.devices))
              (λ a'. update_checked s w a' id request)
              (check_devices-Moves a (listed s w request.devices))
              (λ b. update_checked-Moves b id request))
      ]

  pub handle_update_user-Moves :
      (a : App) (id : Text) (request : Option UpdateUserRequest)
      → Moves s w a (handle_update_user s w a id request).0
  unfolding handle_update_user
  handle_update_user-Moves a id request = elim (Option-cases (positive_id s w (atoi id))) [
    | inl bad ↦ Moves-eq s w (rw (bad, handle_update_user) refl) here
    | inr (n, good) ↦
        Moves-eq s w (rw (good, handle_update_user) refl) (update_bound-Moves a n request)
  ]

  deletion_response-tables :
      (a : App) (r : Tables × Result (Unit {0}))
      → (deletion_response s w a r).0 ≡ record a { tables = r.0 }
  unfolding deletion_response
  deletion_response-tables a (t, ok _) = refl
  deletion_response-tables a (t, err record_not_found) = refl
  deletion_response-tables a (t, err last_administrator) = refl
  deletion_response-tables a (t, err _) = refl

  pub handle_delete_user-Moves : (a : App) (id : Text) → Moves s w a (handle_delete_user s w a id).0
  unfolding handle_delete_user call
  handle_delete_user-Moves a id = elim (Option-cases (atoi id)) [
    | inl bad ↦ Moves-eq s w (rw (bad, handle_delete_user) refl) here
    | inr (n, good) ↦
        Moves-eq s w (rw (good, handle_delete_user) (deletion_response-tables a _))
          (stored_move s w a 0 (Keys.delete (to_uint n)))
  ]
