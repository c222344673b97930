-- ===== src/Server/Admin.antt =====
-- backend/internal/server/admin_handlers.go: the administration of users. `none` for a request is a
-- body that `ShouldBindJSON` refuses.
pub mod Configured
pub mod Creation
pub mod Changes
use Prim.Native.String.{String}
use wol_secure_light_switch.Prelude.{
  ℕ, Bool, true, ◌||◌, Option, none, some, List, [], ◌∷◌, Text, ◌==◌, if◌then◌else◌,
}
use wol_secure_light_switch.Prelude.Int.{ℤ, pos, negsuc, atoi, to_uint}
use wol_secure_light_switch.Store.{
  UserRow, User, Tables, Result, ok, err, record_not_found, last_administrator, create_user,
  update_user, delete_user,
}
use wol_secure_light_switch.Store.Rows.{devices_of}
use wol_secure_light_switch.Server.{
  Services, World, App, failure, message, user_list, Response, respond, valid, invalid,
  validate_email, validate_password, configured_device_ids, validate_device_ids,
}

pub record CreateUserRequest : Type 0 where
  pub email : Text
  pub password : Text
  pub is_admin : Bool
  pub devices : List Text

pub record UpdateUserRequest : Type 0 where
  pub password : Option Text
  pub is_admin : Option Bool
  pub devices : Option (List Text)

-- `Preload("Devices").Find(&users)`
unfoldable pub with_devices : Tables → List UserRow → List User
with_devices t [] = []
with_devices t (u ∷ us) =
    record { row = u; devices = devices_of u.id t.user_devices } ∷ with_devices t us

module _ (s : Services) (w : World) where
  unfoldable pub handle_get_users : App → App × Response
  unfolding with_devices
  handle_get_users a =
      if (w.db 0).fails 0 || (w.db 0).fails 1
      then (a, respond 500 (failure "Failed to fetch users"))
      else (a, respond 200 (user_list (with_devices a.tables a.tables.users)))

  -- The check of a list of devices against the configuration: the response that refuses it, or none.
  unfoldable pub check_devices : App → List Text → App × Option Response
  check_devices a [] = (a, none)
  check_devices a (id ∷ ids) =
      let (a', configured) = configured_device_ids s w a in
      elim configured [
        | none ↦ (a', some (respond 500 (failure "Failed to load configured devices")))
        | some configured ↦ elim (validate_device_ids (id ∷ ids) configured) [
          | some e ↦ (a', some (respond 400 (failure e)))
          | none ↦ (a', none)
        ]
      ]

  -- The answer to what the store returned.
  abbrev pub stored : App → Tables × Result (Unit {0}) → Response → String → App × Response
  stored a (tables, ok _) done failed = (record a { tables = tables }, done)
  stored a (tables, err _) done failed =
      (record a { tables = tables }, respond 500 (failure failed))

  unfoldable pub create_checked : App → Text → CreateUserRequest → App × Response
  create_checked a email request = elim (s.hash_password request.password) [
    | none ↦ (a, respond 500 (failure "Failed to hash password"))
    | some hash ↦
        stored a (create_user (w.db 0) a.tables email hash request.is_admin request.devices)
          (respond 201 (message "User created successfully")) "Failed to create user"
  ]

  abbrev pub unless_refused : App × Option Response → (App → App × Response) → App × Response
  unless_refused (a, none) k = k a
  unless_refused (a, some r) k = (a, r)

  unfoldable pub handle_create_user : App → Option CreateUserRequest → App × Response
  unfolding create_checked check_devices
  handle_create_user a none = (a, respond 400 (failure "bad request"))
  handle_create_user a (some request) = elim (validate_email s request.email) [
    | invalid e ↦ (a, respond 400 (failure e))
    | valid email ↦ elim (validate_password request.password true) [
      | some e ↦ (a, respond 400 (failure e))
      | none ↦
          unless_refused (check_devices a request.devices) (λ a'. create_checked a' email request)
    ]
  ]

  -- `err != nil || userID <= 0`
  abbrev pub positive_id : Option ℤ → Option ℕ
  positive_id none = none
  positive_id (some (pos n)) = if n == 0 then none else some n
  positive_id (some (negsuc n)) = none

  -- The new hash, if a password is given: the outer `none` is a failure to hash.
  abbrev pub new_hash : Option Text → Option (Option Text)
  new_hash none = some none
  new_hash (some password) = elim (s.hash_password password) [
    | none ↦ none
    | some hash ↦ some (some hash)
  ]

  unfoldable pub update_checked : App → ℕ → UpdateUserRequest → App × Response
  update_checked a id request = elim (new_hash request.password) [
    | none ↦ (a, respond 500 (failure "Failed to hash password"))
    | some hash ↦
        stored a (update_user (w.db 0) a.tables id hash request.is_admin request.devices)
          (respond 200 (message "User updated successfully")) "Failed to update user"
  ]

  abbrev pub weak_password : Option Text → Option String
  weak_password none = none
  weak_password (some password) = validate_password password true

  abbrev pub listed : Option (List Text) → List Text
  listed none = []
  listed (some ids) = ids

  unfoldable pub update_bound : App → ℕ → Option UpdateUserRequest → App × Response
  unfolding update_checked check_devices
  update_bound a id none = (a, respond 400 (failure "bad request"))
  update_bound a id (some request) = elim (weak_password request.password) [
    | some e ↦ (a, respond 400 (failure e))
    | none ↦
        unless_refused (check_devices a (listed request.devices))
          (λ a'. update_checked a' id request)
  ]

  unfoldable pub handle_update_user : App → Text → Option UpdateUserRequest → App × Response
  unfolding update_bound
  handle_update_user a id request = elim (positive_id (atoi id)) [
    | none ↦ (a, respond 400 (failure "Invalid user ID"))
    | some n ↦ update_bound a n request
  ]

  unfoldable pub deletion_response : App → Tables × Result (Unit {0}) → App × Response
  deletion_response a (tables, ok _) =
      (record a { tables = tables }, respond 200 (message "User deleted successfully"))
  deletion_response a (tables, err record_not_found) =
      (record a { tables = tables }, respond 404 (failure "User not found"))
  deletion_response a (tables, err last_administrator) =
      (record a { tables = tables }, respond 400 (failure "Cannot delete the last administrator"))
  deletion_response a (tables, err _) =
      (record a { tables = tables }, respond 500 (failure "Failed to delete user"))

  unfoldable pub handle_delete_user : App → Text → App × Response
  unfolding deletion_response
  handle_delete_user a id = elim (atoi id) [
    | none ↦ (a, respond 400 (failure "Invalid user ID"))
    | some n ↦ deletion_response a (delete_user (w.db 0) a.tables (to_uint n))
  ]
