-- ===== src/Server/Admin/Changes.antt =====
-- backend/internal/server/admin_handlers.go: an administration that is refused changes no table.
use Prim.Native.String.{String}
use wol_secure_light_switch.Prelude.{
  ℕ, ◌≤◌, ◌≡◌, refl, inl, inr, Bool, true, Option, none, some, arith, List, Text, Option-cases, ap,
  ◌∙◌,
}
use wol_secure_light_switch.Prelude.Int.{atoi, to_uint}
use wol_secure_light_switch.Store.{
  Tables, StoreError, Result, ok, err, record_not_found, last_administrator, initial_admin_exists,
  token_no_longer_valid, database,
}
use wol_secure_light_switch.Store.Keys.{update_user-outcome}
use wol_secure_light_switch.Server.{
  Services, World, App, Response, Email, valid, invalid, validate_email, validate_password,
}
use wol_secure_light_switch.Server.Admin.{
  CreateUserRequest, UpdateUserRequest, check_devices, create_checked, unless_refused,
  handle_create_user, stored, positive_id, new_hash, update_checked, weak_password, listed,
  update_bound, handle_update_user, deletion_response, handle_delete_user, handle_get_users,
}
use wol_secure_light_switch.Server.Admin.Configured.{
  check_devices-IsConfigured, check_devices_refusal,
}
use wol_secure_light_switch.Store
use wol_secure_light_switch.Server.Login.{handle_login_metrics}
use wol_secure_light_switch.Server.Router.{
  AdminCall, get_users, create_user, update_user, delete_user, login_metrics, serve_admin,
}

module _ (s : Services) (w : World) where
  -- An error leaves the tables.
  abbrev pub Keeps : App → App × Response → Type 0
  Keeps a o = 400 ≤ o.1.status → o.0.tables ≡ a.tables

  stored-Keeps :
      (a : App) (r : Tables × Result (Unit {0})) (done : Response) (failed : String)
      → done.status ≤ 299
      → ((x : StoreError) → r.1 ≡ err x → r.0 ≡ a.tables)
      → Keeps a (stored s w a r done failed)
  stored-Keeps a (t, ok _) done failed fine kept h = absurd (omega (arith, fine, h))
  stored-Keeps a (t, err x) done failed fine kept h = kept x refl

  create_user-kept :
      (a : App) (email hash : Text) (b : Bool) (ids : List Text) (x : StoreError)
      → (Store.create_user (w.db 0) a.tables email hash b ids).1 ≡ err x
      → (Store.create_user (w.db 0) a.tables email hash b ids).0 ≡ a.tables
  unfolding Store.create_user
  create_user-kept a email hash b ids x h = ground (arith, h)

  create_checked-Keeps :
      (a : App) (email : Text) (request : CreateUserRequest)
      → Keeps a (create_checked s w a email request)
  unfolding create_checked
  create_checked-Keeps a email request = elim (Option-cases (s.hash_password request.password)) [
    | inl unhashed ↦ rw (unhashed, create_checked) (λ h. refl)
    | inr (hash, hashed) ↦
        rw (hashed, create_checked)
          (stored-Keeps a
            (Store.create_user (w.db 0) a.tables email hash request.is_admin request.devices) _ _
            (omega arith) (create_user-kept a email hash request.is_admin request.devices))
  ]

  update_user-kept :
      (a : App) (id : ℕ) (hash : Option Text) (b : Option Bool) (ids : Option (List Text))
      (x : StoreError)
      → (Store.update_user (w.db 0) a.tables id hash b ids).1 ≡ err x
      → (Store.update_user (w.db 0) a.tables id hash b ids).0 ≡ a.tables
  update_user-kept a id hash b ids x h =
      elim (update_user-outcome (w.db 0) a.tables id hash b ids) [
        | inl (kept, _) ↦ kept
        | inr (done, ran, _, _) ↦ absurd (cc (h, ran))
      ]

  update_checked-Keeps :
      (a : App) (id : ℕ) (request : UpdateUserRequest) → Keeps a (update_checked s w a id request)
  unfolding update_checked
  update_checked-Keeps a id request = elim (Option-cases (new_hash s w request.password)) [
    | inl unhashed ↦ rw (unhashed, update_checked) (λ h. refl)
    | inr (hash, hashed) ↦
        rw (hashed, update_checked)
          (stored-Keeps a
            (Store.update_user (w.db 0) a.tables id hash request.is_admin request.devices) _ _
            (omega arith) (update_user-kept a id hash request.is_admin request.devices))
  ]

  -- Behind the check of a list of devices.
  unless_refused-Keeps :
      (a : App) (ids : List Text) (k : App → App × Response)
      → ((b : App) → Keeps b (k b))
      → Keeps a (unless_refused s w (check_devices s w a ids) k)
  unless_refused-Keeps a ids k keeps = by_check (check_devices s w a ids) refl
    where
      by_check :
          (c : App × Option Response)
          → check_devices s w a ids ≡ c
          → Keeps a (unless_refused s w c k)
      by_check (b, some r) e h =
          let (_, kept) = check_devices_refusal s w a ids {b = b} {r = r} e in kept
      by_check (b, none) e h =
          let (_, _, kept) =
            check_devices-IsConfigured s w a ids (ap (λ (c : App × Option Response). c.1) e) in
          keeps b h ∙ rw e at kept

  handle_create_user-Keeps :
      (a : App) (request : Option CreateUserRequest) → Keeps a (handle_create_user s w a request)
  unfolding handle_create_user
  handle_create_user-Keeps a none = λ h. refl
  handle_create_user-Keeps a (some request) = by_email (validate_email s request.email) refl
    where
      by_email :
          (m : Email)
          → validate_email s request.email ≡ m
          → Keeps a (handle_create_user s w a (some request))
      by_email (invalid x) e = rw (e, handle_create_user) (λ h. refl)
      by_email (valid email) e = elim (Option-cases (validate_password request.password true)) [
        | inr (x, bad) ↦ rw (e, bad, handle_create_user) (λ h. refl)
        | inl fine ↦
            rw (e, fine, handle_create_user)
              (unless_refused-Keeps a request.devices (λ b. create_checked s w b email request)
                (λ b. create_checked-Keeps b email request))
      ]

  update_bound-Keeps :
      (a : App) (id : ℕ) (request : Option UpdateUserRequest)
      → Keeps a (update_bound s w a id request)
  unfolding update_bound
  update_bound-Keeps a id none = λ h. refl
  update_bound-Keeps a id (some request) =
      elim (Option-cases (weak_password s w request.password)) [
        | inr (x, weak) ↦ rw (weak, update_bound) (λ h. refl)
        | inl strong ↦
            rw (strong, update_bound)
              (unless_refused-Keeps a (listed s w request.devices)
                (λ b. update_checked s w b id request) (λ b. update_checked-Keeps b id request))
      ]

  handle_update_user-Keeps :
      (a : App) (id : Text) (request : Option UpdateUserRequest)
      → Keeps a (handle_update_user s w a id request)
  unfolding handle_update_user
  handle_update_user-Keeps a id request = elim (Option-cases (positive_id s w (atoi id))) [
    | inl bad ↦ rw (bad, handle_update_user) (λ h. refl)
    | inr (n, good) ↦ rw (good, handle_update_user) (update_bound-Keeps a n request)
  ]

  deletion_response-Keeps :
      (a : App) (r : Tables × Result (Unit {0}))
      → ((x : StoreError) → r.1 ≡ err x → r.0 ≡ a.tables)
      → Keeps a (deletion_response s w a r)
  unfolding deletion_response
  deletion_response-Keeps a (t, ok _) kept h = absurd (omega (arith, h))
  deletion_response-Keeps a (t, err record_not_found) kept h = kept record_not_found refl
  deletion_response-Keeps a (t, err last_administrator) kept h = kept last_administrator refl
  deletion_response-Keeps a (t, err initial_admin_exists) kept h = kept initial_admin_exists refl
  deletion_response-Keeps a (t, err token_no_longer_valid) kept h = kept token_no_longer_valid refl
  deletion_response-Keeps a (t, err database) kept h = kept database refl

  delete_user-kept :
      (a : App) (id : ℕ) (x : StoreError)
      → (Store.delete_user (w.db 0) a.tables id).1 ≡ err x
      → (Store.delete_user (w.db 0) a.tables id).0 ≡ a.tables
  unfolding Store.delete_user
  delete_user-kept a id x h = ground (arith, h)

  handle_delete_user-Keeps : (a : App) (id : Text) → Keeps a (handle_delete_user s w a id)
  unfolding handle_delete_user
  handle_delete_user-Keeps a id = elim (Option-cases (atoi id)) [
    | inl bad ↦ rw (bad, handle_delete_user) (λ h. refl)
    | inr (n, good) ↦
        rw (good, handle_delete_user)
          (deletion_response-Keeps a (Store.delete_user (w.db 0) a.tables (to_uint n))
            (delete_user-kept a (to_uint n)))
  ]

  -- An admin request that is answered by an error changes no table.
  pub serve_admin_refused :
      (a : App) (call : AdminCall)
      → 400 ≤ (serve_admin s w a call).1.status
      → (serve_admin s w a call).0.tables ≡ a.tables
  unfolding serve_admin handle_get_users handle_login_metrics
  serve_admin_refused a get_users h = ground arith
  serve_admin_refused a (create_user request) h = handle_create_user-Keeps a request h
  serve_admin_refused a (update_user id request) h = handle_update_user-Keeps a id request h
  serve_admin_refused a (delete_user id) h = handle_delete_user-Keeps a id h
  serve_admin_refused a login_metrics h = refl
