-- ===== src/Server/Moves/Routes.antt =====
-- backend/internal/server: device_handlers.go, and each request behind router.go, change the
-- application by moves.
use wol_secure_light_switch.Prelude.{
  ◌≡◌, refl, some, arith, Text, Bool-cases, Option-cases, inl, inr,
}
use wol_secure_light_switch.Prelude.Map.{Map}
use wol_secure_light_switch.Store.Keys.{call}
use wol_secure_light_switch.Auth.{
  Request, Context, Verdict, abort, next, auth_middleware, admin_middleware,
}
use wol_secure_light_switch.Loader.{load_hosts}
use wol_secure_light_switch.Monitor.{HostState}
use wol_secure_light_switch.Server.{Services, World, App, find_host, search}
use wol_secure_light_switch.Server.Login.{handle_login_metrics, handle_current_user}
use wol_secure_light_switch.Server.Devices.{
  Actions, is_authorized_for_device, authorized_target, Target, target, refusal, wol_on,
  shutdown_on, handle_get_hosts, handle_wol, handle_shutdown,
}
use wol_secure_light_switch.Server.Router
use wol_secure_light_switch.Server.Router.{
  AdminCall, ProtectedCall, Call, chain, handle_healthz, serve_admin, serve_protected, serve,
}
use wol_secure_light_switch.Server.Moves.{Moves, Moves-eq, here, loaded_move}
use wol_secure_light_switch.Server.Moves.Logins.{
  handle_login-Moves, handle_logout-Moves, handle_check_setup-Moves,
}
use wol_secure_light_switch.Server.Moves.Admin.{
  handle_get_users-Moves, handle_create_user-Moves, handle_update_user-Moves,
  handle_delete_user-Moves,
}

module _ (s : Services) (w : World) where
  handle_get_hosts-Moves :
      (status : Map HostState) (a : App) (c : Context)
      → Moves s w a (handle_get_hosts s w status a c).0
  unfolding handle_get_hosts
  handle_get_hosts-Moves status a c = loaded_move s w a

  authorized_target-Moves :
      (a : App) (c : Context) (id : Text) → Moves s w a (authorized_target s w a c id).0
  unfolding authorized_target find_host
  authorized_target-Moves a c id =
      elim (Bool-cases (is_authorized_for_device (w.db 0) a.tables c.user_id id c.is_admin)) [
        | inr denied ↦ Moves-eq s w (rw (denied, authorized_target) refl) here
        | inl allowed ↦ elim (Option-cases (search id (load_hosts s.formats w.files a.loader).1)) [
          | inl missing ↦
              Moves-eq s w (rw (allowed, missing, authorized_target, find_host) refl)
                (loaded_move s w a)
          | inr (host, found) ↦
              Moves-eq s w (rw (allowed, found, authorized_target, find_host) refl)
                (loaded_move s w a)
        ]
      ]

  module _ (x : Actions) (a : App) (c : Context) (id : Text) where
    wol_on-App : (t : App × Target) → (wol_on x t).0 ≡ t.0
    wol_on-App (b, refusal r) = refl
    wol_on-App (b, target host) = ground arith

    shutdown_on-App : (t : App × Target) → (shutdown_on x t).0 ≡ t.0
    shutdown_on-App (b, refusal r) = refl
    shutdown_on-App (b, target host) = ground arith

    handle_wol-Moves : Moves s w a (handle_wol s w x a c id).0
    unfolding handle_wol
    handle_wol-Moves =
        Moves-eq s w (wol_on-App (authorized_target s w a c id)) (authorized_target-Moves a c id)

    handle_shutdown-Moves : Moves s w a (handle_shutdown s w x a c id).0
    unfolding handle_shutdown
    handle_shutdown-Moves =
        Moves-eq s w (shutdown_on-App (authorized_target s w a c id))
          (authorized_target-Moves a c id)

  handle_healthz-Moves : (a : App) → Moves s w a (handle_healthz s w a).0
  unfolding handle_healthz
  handle_healthz-Moves a = Moves-eq s w healthz_loads (loaded_move s w a)
    where
      healthz_loads :
          (handle_healthz s w a).0 ≡ record a { loader = (load_hosts s.formats w.files a.loader).0 }
      healthz_loads = unfold load_hosts in ground arith

  serve_admin-Moves : (a : App) (call : AdminCall) → Moves s w a (serve_admin s w a call).0
  unfolding serve_admin handle_login_metrics
  serve_admin-Moves a Router.get_users = handle_get_users-Moves s w a
  serve_admin-Moves a (Router.create_user request) = handle_create_user-Moves s w a request
  serve_admin-Moves a (Router.update_user id request) = handle_update_user-Moves s w a id request
  serve_admin-Moves a (Router.delete_user id) = handle_delete_user-Moves s w a id
  serve_admin-Moves a Router.login_metrics = here

  module _ (x : Actions) (status : Map HostState) where
    chain-Moves :
        (a : App) (v : Verdict) (k : Context → Router.Outcome)
        → ((c : Context) → Moves s w a (k c).0)
        → Moves s w a (chain a v k).0
    chain-Moves a (abort code e) k m = here
    chain-Moves a (next c) k m = m c

    serve_protected-Moves :
        (a : App) (c : Context) (call : ProtectedCall)
        → Moves s w a (serve_protected s w x status a c call).0
    unfolding serve_protected handle_current_user
    serve_protected-Moves a c Router.logout = handle_logout-Moves s w a c
    serve_protected-Moves a c Router.session = here
    serve_protected-Moves a c Router.ping = here
    serve_protected-Moves a c Router.hosts = handle_get_hosts-Moves status a c
    serve_protected-Moves a c (Router.wol id) = handle_wol-Moves x a c id
    serve_protected-Moves a c (Router.shutdown id) = handle_shutdown-Moves x a c id
    serve_protected-Moves a c (Router.admin call) =
        chain-Moves a (admin_middleware (some c)) (λ _. serve_admin s w a call)
          (λ _. serve_admin-Moves a call)

    -- Each request is answered by moves.
    pub serve-Moves :
        (a : App) (r : Request) (call : Call) → Moves s w a (serve s w x status a r call).0
    unfolding serve
    serve-Moves a r (Router.login request) = handle_login-Moves s w a request
    serve-Moves a r Router.setup = handle_check_setup-Moves s w a
    serve-Moves a r Router.health = handle_healthz-Moves a
    serve-Moves a r (Router.protected call) =
        chain-Moves a (auth_middleware s.jwt a.secret w.auth_db a.tables r w.auth_clock)
          (λ c. serve_protected s w x status a c call) (λ c. serve_protected-Moves a c call)
