-- ===== src/Server/Devices.antt =====
-- backend/internal/server/device_handlers.go: the hosts that a user sees, and the two actions on a
-- device. `Wake` and `Shutdown` of the application are `Actions`; what a handler has them do is an
-- `Effect`.
pub mod Access
pub mod Listing
use Prim.Native.String.{String}
use wol_secure_light_switch.Prelude.{
  ℕ, suc, ◌≡◌, Bool, true, false, not, ◌&&◌, ◌||◌, Option, none, some, List, [], ◌∷◌, Text, codes,
  same, ◌==◌, if◌then◌else◌,
}
use wol_secure_light_switch.Prelude.Map.{Map}
use wol_secure_light_switch.Store.{DeviceRow, User, Tables, Result, ok, err, get_user_by_id, Engine}
use wol_secure_light_switch.Auth.{Context}
use wol_secure_light_switch.Config.{Host}
use wol_secure_light_switch.Loader.{Loaded, load_hosts}
use wol_secure_light_switch.Monitor.{HostState, state}
use wol_secure_light_switch.Server.{
  Services, World, App, Body, failure, acted, host_list, Response, respond, find_host,
}

-- Whether the action on a host reports an error.
pub record Actions : Type 0 where
  pub wake_fails : Host → Bool
  pub shutdown_fails : Host → Bool

-- What was attempted, whether or not it then failed.
pub data Effect : Type 0 where
  nothing : Effect
  woke : Host → Effect
  shut_down : Host → Effect

-- `dev.DeviceID == deviceID` for one of the user's devices
unfoldable pub has_device : Text → List DeviceRow → Bool
has_device id [] = false
has_device id (d ∷ ds) = same d.device_id id || has_device id ds

abbrev pub user_has : Text → Result User → Bool
user_has id (err x) = false
user_has id (ok user) = has_device id user.devices

unfoldable pub is_authorized_for_device : Engine → Tables → ℕ → Text → Bool → Bool
is_authorized_for_device e t user_id device_id is_admin =
    if is_admin then true else user_has device_id (get_user_by_id e t user_id)

-- `hosts[i]` with the monitor's state.
unfoldable pub with_state : Map HostState → Host → Host
with_state status host =
    let st = state status host.id in
    record host {
      online = st.online;
      last_pinged = if same st.last_pinged [] then codes "N/A" else st.last_pinged;
    }

-- The device named by the path, or the response that refuses it.
pub data Target : Type 0 where
  target : Host → Target
  refusal : Response → Target

abbrev pub as_target : App × Option Host → App × Target
as_target (a, none) = (a, refusal (respond 404 (failure "Device not found")))
as_target (a, some host) = (a, target host)

abbrev pub wol_on : Actions → App × Target → App × Response × Effect
wol_on x (a, refusal r) = (a, r, nothing)
wol_on x (a, target host) =
    if x.wake_fails host
    then (a, respond 500 (failure "Unable to send Wake-on-LAN packet"), woke host)
    else (a, respond 200 (acted "Magic Packet sent successfully to " host.name), woke host)

abbrev pub shutdown_on : Actions → App × Target → App × Response × Effect
shutdown_on x (a, refusal r) = (a, r, nothing)
shutdown_on x (a, target host) =
    if x.shutdown_fails host
    then (a, respond 500 (failure "Unable to shut down device"), shut_down host)
    else (a, respond 200 (acted "Shutdown command received from " host.name), shut_down host)

module _ (s : Services) (w : World) where
  -- The loop over the hosts; the n-th host's authorization meets the engine `db n`.
  unfoldable pub authorized_hosts : Map HostState → Tables → Context → ℕ → List Host → List Host
  authorized_hosts status t c n [] = []
  authorized_hosts status t c n (host ∷ hosts) =
      let rest = authorized_hosts status t c (suc n) hosts in
      if is_authorized_for_device (w.db n) t c.user_id host.id c.is_admin
      then with_state status host ∷ rest
      else rest

  abbrev pub hosts_response : Map HostState → App → Context → Loaded → Response
  hosts_response status a c (none, e) = respond 500 (failure "Error loading hosts")
  hosts_response status a c (some found, e) =
      respond 200 (host_list (authorized_hosts status a.tables c 0 found))

  unfoldable pub handle_get_hosts : Map HostState → App → Context → App × Response
  unfolding authorized_hosts with_state
  handle_get_hosts status a c =
      let (loader, loaded) = load_hosts s.formats w.files a.loader in
      (record a { loader = loader }, hosts_response status a c loaded)

  unfoldable pub authorized_target : App → Context → Text → App × Target
  authorized_target a c id =
      if not (is_authorized_for_device (w.db 0) a.tables c.user_id id c.is_admin)
      then (a, refusal (respond 403 (failure "Not authorized to access this device")))
      else as_target (find_host s w a id)

  unfoldable pub handle_wol : Actions → App → Context → Text → App × Response × Effect
  handle_wol x a c id = wol_on x (authorized_target a c id)

  unfoldable pub handle_shutdown : Actions → App → Context → Text → App × Response × Effect
  handle_shutdown x a c id = shutdown_on x (authorized_target a c id)
