-- ===== src/Server/Devices/Listing.antt =====
-- backend/internal/server/device_handlers.go: the hosts that a user sees are those on which the
-- same user may act.
use wol_secure_light_switch.Prelude.{
  ℕ, suc, ◌≡◌, refl, Bool, false, ◌&&◌, ◌||◌, none, some, arith, List, [], ◌∷◌, Text, same, map,
  ◌==◌, Bool-cases, Option-cases, inl, inr, ap, if◌then◌else◌, ◌∙◌,
}
use wol_secure_light_switch.Prelude.Map.{Map}
use wol_secure_light_switch.Store.{DeviceRow, Tables, Engine, get_user_by_id, has_id}
use wol_secure_light_switch.Store.Rows.{devices_of, find_row-holds}
use wol_secure_light_switch.Store.Users.{user_at}
use wol_secure_light_switch.Auth.{Context}
use wol_secure_light_switch.Config.{Host, is_given}
use wol_secure_light_switch.Loader.{Loaded, load_hosts}
use wol_secure_light_switch.Monitor.{HostState}
use wol_secure_light_switch.Server.{Services, World, App, respond, host_list}
use wol_secure_light_switch.Server.Devices.{
  has_device, is_authorized_for_device, with_state, authorized_hosts, handle_get_hosts,
}

-- Some row of `user_devices` assigns the device to the user.
unfoldable pub is_assigned : ℕ → Text → List DeviceRow → Bool
is_assigned user_id id [] = false
is_assigned user_id id (d ∷ ds) =
    (d.user_id == user_id && same d.device_id id) || is_assigned user_id id ds

-- The right to a device, read off the tables.
abbrev pub may_see : Tables → Context → Host → Bool
may_see t c host =
    c.is_admin || (is_given (user_at t c.user_id) && is_assigned c.user_id host.id t.user_devices)

unfoldable pub visible : Tables → Context → List Host → List Host
visible t c [] = []
visible t c (host ∷ hosts) =
    let rest = visible t c hosts in if may_see t c host then host ∷ rest else rest

has_device-is_assigned :
    (user_id : ℕ) (id : Text) (ds : List DeviceRow)
    → has_device id (devices_of user_id ds) ≡ is_assigned user_id id ds
unfolding has_device devices_of is_assigned
has_device-is_assigned user_id id [] = refl
has_device-is_assigned user_id id (d ∷ ds) = ground (arith, has_device-is_assigned user_id id ds)

is_authorized-may_see :
    (e : Engine) (t : Tables) (c : Context) (host : Host)
    → ((n : ℕ) → e.fails n ≡ false)
    → is_authorized_for_device e t c.user_id host.id c.is_admin ≡ may_see t c host
unfolding is_authorized_for_device get_user_by_id
is_authorized-may_see e t c host fine = elim (Bool-cases c.is_admin) [
  | inl admin ↦ rw admin refl
  | inr plain ↦ elim (Option-cases (user_at t c.user_id)) [
    | inl missing ↦ rw (plain, fine 0, missing) refl
    | inr (u, found) ↦
        let (holds, _) = find_row-holds (has_id c.user_id) t.users {u = u} found in
        let same_id : u.id ≡ c.user_id = ground (arith, holds) in
        rw (plain, fine 0, found, fine 1)
          (has_device-is_assigned u.id host.id t.user_devices
            ∙ ap (λ q. is_assigned q host.id t.user_devices) same_id)
  ]
]

module _ (s : Services) (w : World) (status : Map HostState) where
  authorized_hosts-visible :
      (t : Tables) (c : Context) (n : ℕ) (hosts : List Host)
      → ((k m : ℕ) → (w.db k).fails m ≡ false)
      → authorized_hosts s w status t c n hosts ≡ map (with_state status) (visible t c hosts)
  unfolding authorized_hosts visible
  authorized_hosts-visible t c n [] fine = refl
  authorized_hosts-visible t c n (host ∷ hosts) fine =
      let rest = authorized_hosts-visible t c (suc n) hosts fine in
      let here = is_authorized-may_see (w.db n) t c host (fine n) in
      elim (Bool-cases (may_see t c host)) [
        | inl seen ↦ rw (here, seen, rest) refl
        | inr hidden ↦ rw (here, hidden) rest
      ]

  -- When no statement reports an error and the configuration is read: the list of hosts is
  -- answered with exactly those configured hosts, in their order and with their states, for which
  -- the user is an administrator, or is stored and has a row that assigns the device.
  pub handle_get_hosts-visible :
      (a : App) (c : Context) (hosts : List Host)
      → ((k m : ℕ) → (w.db k).fails m ≡ false)
      → (load_hosts s.formats w.files a.loader).1.0 ≡ some hosts
      → (handle_get_hosts s w status a c).1
        ≡ respond 200 (host_list (map (with_state status) (visible a.tables c hosts)))
  unfolding handle_get_hosts
  handle_get_hosts-visible a c hosts fine found =
      by_loaded (load_hosts s.formats w.files a.loader).1 refl
    where
      by_loaded :
          (m : Loaded)
          → (load_hosts s.formats w.files a.loader).1 ≡ m
          → (handle_get_hosts s w status a c).1
            ≡ respond 200 (host_list (map (with_state status) (visible a.tables c hosts)))
      by_loaded (none, e) h = absurd (cc (found, h))
      by_loaded (some l, e) h =
          let same_list : l ≡ hosts = cc (found, ap (λ (m : Loaded). m.0) h) in
          rw (h, same_list, authorized_hosts-visible a.tables c 0 hosts fine) refl
