-- ===== src/Store/Devices.antt =====
-- backend/internal/store/users.go: the device assignments that a creation and an update leave.
use wol_secure_light_switch.Prelude.{
  ℕ, ◌≡◌, refl, ◌≢◌, sym, ◌∙◌, ap, Bool, Option, none, some, arith, List, [], ◌∷◌, ◌++◌, Text, map,
}
use mathlib.Core.List.{append-nil, append_assoc, map-append}
use wol_secure_light_switch.Store.{
  DeviceRow, Tables, ok, Engine, insert_devices, replace_devices, update_user, create_user,
}
use wol_secure_light_switch.Store.Rows.{devices_of, drop_devices, delete_rows}

-- The ids of the devices that a user is assigned.
abbrev pub assigned : ℕ → List DeviceRow → List Text
assigned id ds = map (λ d. d.device_id) (devices_of id ds)

devices_of-append :
    (q : ℕ) (xs ys : List DeviceRow) → devices_of q (xs ++ ys) ≡ devices_of q xs ++ devices_of q ys
unfolding devices_of
devices_of-append q [] ys = refl
devices_of-append q (d ∷ ds) ys = ground (arith, devices_of-append q ds ys)

devices_of-drop_self : (id : ℕ) (ds : List DeviceRow) → devices_of id (drop_devices id ds) ≡ []
unfolding devices_of drop_devices delete_rows
devices_of-drop_self id [] = refl
devices_of-drop_self id (d ∷ ds) = ground (arith, devices_of-drop_self id ds)

pub devices_of-drop_ne :
    (id q : ℕ) (ds : List DeviceRow) → q ≢ id → devices_of q (drop_devices id ds) ≡ devices_of q ds
unfolding devices_of drop_devices delete_rows
devices_of-drop_ne id q [] ne = refl
devices_of-drop_ne id q (d ∷ ds) ne = ground (arith, devices_of-drop_ne id q ds)

-- The devices that an update asks for.
abbrev pub wanted : ℕ → Tables → Option (List Text) → List Text
wanted id t none = assigned id t.user_devices
wanted id t (some ids) = ids

module _ (e : Engine) (id : ℕ) where
  assigned-insert :
      (ids : List Text) (ds : List DeviceRow)
      → assigned id (insert_devices e id ids ds) ≡ assigned id ds ++ ids
  unfolding insert_devices
  assigned-insert [] ds = sym (append-nil _)
  assigned-insert (x ∷ ids) ds =
      assigned-insert ids _
      ∙ ap (λ l. l ++ ids) (one_more)
      ∙ append_assoc (assigned id ds) (x ∷ []) ids
    where
      row : DeviceRow
      row = record { id = e.new_device_id ds; user_id = id; device_id = x }

      one_more : assigned id (ds ++ row ∷ []) ≡ assigned id ds ++ x ∷ []
      one_more =
          unfold devices_of in rw (devices_of-append id ds (row ∷ []), map-append) (ground arith)

  insert_devices-others :
      (q : ℕ) (ids : List Text) (ds : List DeviceRow)
      → q ≢ id
      → devices_of q (insert_devices e id ids ds) ≡ devices_of q ds
  unfolding insert_devices
  insert_devices-others q [] ds ne = refl
  insert_devices-others q (x ∷ ids) ds ne =
      insert_devices-others q ids _ ne
      ∙ devices_of-append q ds (row ∷ [])
      ∙ unfold devices_of in ground (arith, append-nil (devices_of q ds))
    where
      row : DeviceRow
      row = record { id = e.new_device_id ds; user_id = id; device_id = x }

  module _ (t : Tables) (hash : Option Text) (b : Option Bool) where
    -- A successful update that names devices leaves the user exactly those, in their order; one
    -- that names none leaves the user's assignments; those of other users stay in both cases.
    pub update_user-devices :
        (ids : Option (List Text))
        → (update_user e t id hash b ids).1 ≡ ok tt
        → (assigned id (update_user e t id hash b ids).0.user_devices ≡ wanted id t ids)
          × ((q : ℕ)
              → q ≢ id
              → devices_of q (update_user e t id hash b ids).0.user_devices
                ≡ devices_of q t.user_devices)
    unfolding update_user replace_devices
    update_user-devices none h = (ground arith, λ q ne. ground arith)
    update_user-devices (some ids) h =
        let kept = drop_devices id t.user_devices in
        (
          ground (arith, assigned-insert ids kept, devices_of-drop_self id t.user_devices),
          λ q ne. ground (
            arith,
            insert_devices-others q ids kept ne,
            devices_of-drop_ne id q t.user_devices ne,
          ),
        )

  -- A successful creation, under an id that no assignment names yet, assigns the new user exactly
  -- the devices given, in their order, and leaves the assignments of others.
  pub create_user-devices :
      (t : Tables) (email hash : Text) (b : Bool) (ids : List Text)
      → id ≡ e.new_user_id t.users
      → devices_of id t.user_devices ≡ []
      → (create_user e t email hash b ids).1 ≡ ok tt
      → (assigned id (create_user e t email hash b ids).0.user_devices ≡ ids)
        × ((q : ℕ)
            → q ≢ id
            → devices_of q (create_user e t email hash b ids).0.user_devices
              ≡ devices_of q t.user_devices)
  unfolding create_user
  create_user-devices t email hash b ids same_id none_left h = (
    ground (arith, assigned-insert ids t.user_devices),
    λ q ne. ground (arith, insert_devices-others q ids t.user_devices ne),
  )
