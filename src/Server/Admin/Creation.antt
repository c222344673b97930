-- ===== src/Server/Admin/Creation.antt =====
-- backend/internal/server/admin_handlers.go: what has been checked of a user that is created.
use wol_secure_light_switch.Prelude.{
  ◌≡◌, refl, inl, inr, true, Option, none, some, arith, Text, All, Option-cases, ◌∙◌, sym, ap,
  subst,
}
use wol_secure_light_switch.Store.{Tables, Result, ok, err, IsKeyed, create_user}
use wol_secure_light_switch.Store.Keys.{IsUnique, create, call}
use wol_secure_light_switch.Store.Directory.{Success, Step, view}
use wol_secure_light_switch.Store.Directory.Refinement.{call-Step}
use wol_secure_light_switch.Proxies.Canonical.{AllDifferent}
use wol_secure_light_switch.Server.{
  Services, World, App, Response, Email, valid, invalid, validate_email, validate_password,
}
use wol_secure_light_switch.Server.Admin.{
  CreateUserRequest, check_devices, create_checked, handle_create_user,
}
use wol_secure_light_switch.Server.Admin.Configured.{
  IsConfigured, check_devices-IsConfigured, check_devices_refusal,
}

module _ (s : Services) (w : World) (a : App) where
  create_checked-Success :
      (b : App) (email : Text) (request : CreateUserRequest)
      → IsKeyed (w.db 0)
      → IsUnique b.tables
      → (create_checked s w b email request).1.status ≡ 201
      → (hash : Text) × (s.hash_password request.password ≡ some hash)
        × Success
            (view b.tables)
            (view (create_checked s w b email request).0.tables)
            (create email hash request.is_admin request.devices)
  unfolding create_checked
  create_checked-Success b email request k v h =
      elim (Option-cases (s.hash_password request.password)) [
        | inl unhashed ↦ absurd (omega (arith, rw (unhashed, create_checked) at h))
        | inr (hash, hashed) ↦
            by_result hash hashed
              (create_user (w.db 0) b.tables email hash request.is_admin request.devices) refl
              (unfold call in
                call-Step (w.db 0) b.tables k v
                  (create email hash request.is_admin request.devices))
      ]
    where
      by_result :
          (hash : Text)
          → s.hash_password request.password ≡ some hash
          → (r : Tables × Result (Unit {0}))
          → create_user (w.db 0) b.tables email hash request.is_admin request.devices ≡ r
          → Step
              (w.db 0)
              (view b.tables)
              (create email hash request.is_admin request.devices)
              (create_user (w.db 0) b.tables email hash request.is_admin request.devices).1
              (view (create_user (w.db 0) b.tables email hash request.is_admin request.devices).0)
          → (hash : Text) × (s.hash_password request.password ≡ some hash)
            × Success
                (view b.tables)
                (view (create_checked s w b email request).0.tables)
                (create email hash request.is_admin request.devices)
      by_result hash hashed (t, err x) e step =
          absurd (omega (arith, rw (hashed, e, create_checked) at h))
      by_result hash hashed (t, ok _) e step =
          (hash, hashed, rw (hashed, e, create_checked) (rw e at step))

  -- What a creation that succeeded has checked and done.
  pub record IsCreated (request : CreateUserRequest) (after : App) : Type 0 where
    pub email : Text
    pub hash : Text
    pub good_email : validate_email s request.email ≡ valid email
    pub strong_password : validate_password request.password true ≡ none
    pub hashed : s.hash_password request.password ≡ some hash
    pub configured : All (IsConfigured s w a) request.devices
    pub different : AllDifferent request.devices
    pub created :
        Success
          (view a.tables)
          (view after.tables)
          (create email hash request.is_admin request.devices)

  -- In tables whose keys are unique, and with ids that are not in use: if a creation is answered
  -- 201, the email is valid, the password has the length that a new one needs, each device is
  -- well-formed and configured, none is repeated, the password was hashed, and the directory of
  -- users has gained the user of the request under a new id and a free email, and is otherwise as
  -- before.
  pub handle_create_user-IsCreated :
      (request : CreateUserRequest)
      → IsKeyed (w.db 0)
      → IsUnique a.tables
      → (handle_create_user s w a (some request)).1.status ≡ 201
      → IsCreated request (handle_create_user s w a (some request)).0
  unfolding handle_create_user
  handle_create_user-IsCreated request k v h = by_email (validate_email s request.email) refl
    where
      Wanted : Type 0
      Wanted = IsCreated request (handle_create_user s w a (some request)).0

      After : Text → Text → App × Response → Type 0
      After email hash o =
          Success (view a.tables) (view o.0.tables)
            (create email hash request.is_admin request.devices)

      by_devices :
          (email : Text)
          → validate_email s request.email ≡ valid email
          → validate_password request.password true ≡ none
          → (c : App × Option Response) → check_devices s w a request.devices ≡ c
          → Wanted
      by_devices email good strong (b, some r) e =
          let status : r.status ≡ 201 = rw (good, strong, e, handle_create_user) at h in
          let (at_least, _) = check_devices_refusal s w a request.devices {b = b} {r = r} e in
          absurd (omega (arith, status, at_least))
      by_devices email good strong (b, none) e =
          let (configured, different, kept) =
            check_devices-IsConfigured s w a request.devices
              (ap (λ (c : App × Option Response). c.1) e) in
          let same_tables : b.tables ≡ a.tables = rw e at kept in
          let ran : handle_create_user s w a (some request) ≡ create_checked s w b email request =
            rw (good, strong, e, handle_create_user) refl in
          let (hash, hashed, success) =
            create_checked-Success b email request k (rw same_tables v)
              (ap (λ (o : App × Response). o.1.status) (sym ran) ∙ h) in
          record {
            email = email;
            hash = hash;
            good_email = good;
            strong_password = strong;
            hashed = hashed;
            configured = configured;
            different = different;
            created = subst (After email hash) (sym ran) (
                subst
                  (λ (t : Tables).
                    Success (view t) (view (create_checked s w b email request).0.tables)
                      (create email hash request.is_admin request.devices))
                  same_tables success);
          }

      by_email : (m : Email) → validate_email s request.email ≡ m → Wanted
      by_email (invalid x) bad = absurd (omega (arith, rw (bad, handle_create_user) at h))
      by_email (valid email) good = elim (Option-cases (validate_password request.password true)) [
        | inr (x, weak) ↦ absurd (omega (arith, rw (good, weak, handle_create_user) at h))
        | inl strong ↦ by_devices email good strong (check_devices s w a request.devices) refl
      ]
