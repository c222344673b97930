-- ===== src/Server/Devices/Access.antt =====
-- backend/internal/server/device_handlers.go: on which devices a user acts, and which are listed.
use wol_secure_light_switch.Prelude.{
  ◌≡◌, refl, ◌⊎◌, true, false, none, some, arith, List, [], ◌∷◌, Text, same, eq_of_same, Bool-cases,
  inl, inr, ap,
}
use mathlib.Core.List.{Memᴰ}
use wol_secure_light_switch.Store.{DeviceRow, User, Tables, Result, ok, err, get_user_by_id, Engine}
use wol_secure_light_switch.Auth.{Context}
use wol_secure_light_switch.Config.{Host}
use wol_secure_light_switch.Loader.{Loaded, load_hosts}
use wol_secure_light_switch.Server.{Services, World, App, find_host, search, host_with_id}
use wol_secure_light_switch.Server.Devices.{
  Actions, woke, shut_down, has_device, user_has, is_authorized_for_device, authorized_target,
  target, handle_wol, handle_shutdown,
}

-- The right to act on a device: the administrator's, or an assignment in the tables as they are.
abbrev pub MayUse : Engine → Tables → Context → Text → Type 0
MayUse e t c id =
    (c.is_admin ≡ true)
    ⊎ ((user : User) × (get_user_by_id e t c.user_id ≡ ok user)
        × ((d : DeviceRow) × Memᴰ d user.devices × (d.device_id ≡ id)))

has_device-mem :
    (id : Text) (ds : List DeviceRow)
    → has_device id ds ≡ true
    → (d : DeviceRow) × Memᴰ d ds × (d.device_id ≡ id)
unfolding has_device
has_device-mem id [] h = absurd (ground arith)
has_device-mem id (d ∷ ds) h = elim (Bool-cases (same d.device_id id)) [
  | inl here ↦ (d, Memᴰ.head refl, eq_of_same d.device_id id here)
  | inr later ↦
      let (found, listed, same_id) = has_device-mem id ds (ground arith) in
      (found, Memᴰ.tail listed, same_id)
]

authorized-MayUse :
    (e : Engine) (t : Tables) (c : Context) (id : Text)
    → is_authorized_for_device e t c.user_id id c.is_admin ≡ true
    → MayUse e t c id
unfolding is_authorized_for_device
authorized-MayUse e t c id h = by_role (Bool-cases c.is_admin)
  where
    by_user :
        (m : Result User)
        → get_user_by_id e t c.user_id ≡ m
        → user_has id m ≡ true
        → MayUse e t c id
    by_user (err x) read found = absurd (ground arith)
    by_user (ok user) read found = inr (user, read, has_device-mem id user.devices found)

    by_role : ((c.is_admin ≡ true) ⊎ (c.is_admin ≡ false)) → MayUse e t c id
    by_role (inl admin) = inl admin
    by_role (inr user) = by_user (get_user_by_id e t c.user_id) refl (ground arith)

host_with_id-found :
    (id : Text) (hosts : List Host) {host : Host}
    → host_with_id id hosts ≡ some host
    → Memᴰ host hosts × (host.id ≡ id)
unfolding host_with_id
host_with_id-found id [] h = absurd (ground arith)
host_with_id-found id (first ∷ hosts) {host} h = elim (Bool-cases (same first.id id)) [
  | inl here ↦
      let first_found : some first ≡ some host = ground arith in
      (
        Memᴰ.head (ground (arith, first_found)),
        ground (arith, first_found, eq_of_same first.id id here),
      )
  | inr later ↦
      let (listed, same_id) = host_with_id-found id hosts {host = host} (ground arith) in
      (Memᴰ.tail listed, same_id)
]

module _ (s : Services) (w : World) (a : App) (c : Context) (id : Text) where
  -- The device of an action: configured under the id of the path, and within the user's rights.
  pub record IsPermitted (host : Host) : Type 0 where
    pub may_use : MayUse (w.db 0) a.tables c id
    pub same_id : host.id ≡ id
    pub configured :
        (hosts : List Host) × ((load_hosts s.formats w.files a.loader).1.0 ≡ some hosts)
        × Memᴰ host hosts

  search-configured :
      (loaded : Loaded) {host : Host}
      → (load_hosts s.formats w.files a.loader).1 ≡ loaded
      → search id loaded ≡ some host
      → ((hosts : List Host) × ((load_hosts s.formats w.files a.loader).1.0 ≡ some hosts)
          × Memᴰ host hosts)
        × (host.id ≡ id)
  search-configured (none, e) read h = absurd (ground arith)
  search-configured (some hosts, e) {host} read h =
      let (listed, same_id) = host_with_id-found id hosts {host = host} h in
      ((hosts, ap (λ (l : Loaded). l.0) read, listed), same_id)

  authorized_target-IsPermitted :
      {host : Host} → (authorized_target s w a c id).1 ≡ target host → IsPermitted host
  authorized_target-IsPermitted {host} h =
      let allowed : is_authorized_for_device (w.db 0) a.tables c.user_id id c.is_admin ≡ true =
        unfold authorized_target in ground arith in
      let found : search id (load_hosts s.formats w.files a.loader).1 ≡ some host =
        unfold authorized_target find_host in ground (arith, allowed) in
      let (configured, same_id) =
        search-configured (load_hosts s.formats w.files a.loader).1 {host = host} refl found in
      record {
        may_use = authorized-MayUse (w.db 0) a.tables c id allowed;
        same_id = same_id;
        configured = configured;
      }

  -- If the handler wakes a host, the host is configured under the id of the request, and the user
  -- is an administrator or has the device assigned in the tables as they are at the request.
  pub handle_wol-IsPermitted :
      (x : Actions) {host : Host} → (handle_wol s w x a c id).2 ≡ woke host → IsPermitted host
  handle_wol-IsPermitted x {host} h =
      authorized_target-IsPermitted {host = host} (unfold handle_wol in ground arith)

  -- If the handler shuts a host down, the host is configured under the id of the request, and the
  -- user is an administrator or has the device assigned in the tables as they are at the request.
  pub handle_shutdown-IsPermitted :
      (x : Actions) {host : Host}
      → (handle_shutdown s w x a c id).2 ≡ shut_down host
      → IsPermitted host
  handle_shutdown-IsPermitted x {host} h =
      authorized_target-IsPermitted {host = host} (unfold handle_shutdown in ground arith)
