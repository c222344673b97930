-- ===== src/Server/Router.antt =====
-- backend/internal/server/router.go, and the health answer of http.go: the routes, each behind its
-- group's middlewares. A route's call carries what the handler reads from the path and the body.
-- Static files stand in Server/Setup.
pub mod Guards
use Prim.Native.String.{String}
use wol_secure_light_switch.Prelude.{
  ℕ, Bool, true, false, ◌||◌, Option, none, some, Text, if◌then◌else◌,
}
use wol_secure_light_switch.Prelude.Map.{Map}
use wol_secure_light_switch.Auth.{
  Request, Context, Verdict, abort, next, auth_middleware, admin_middleware,
}
use wol_secure_light_switch.Loader.{Loaded, load_hosts_with_status}
use wol_secure_light_switch.Monitor.{HostState}
use wol_secure_light_switch.Server.{
  Services, World, App, Body, empty, failure, message, Response, respond,
}
use wol_secure_light_switch.Server.Login.{
  LoginRequest, handle_login, handle_logout, handle_check_setup, handle_login_metrics,
  handle_current_user,
}
use wol_secure_light_switch.Server.Admin.{
  CreateUserRequest, UpdateUserRequest, handle_get_users, handle_create_user, handle_update_user,
  handle_delete_user,
}
use wol_secure_light_switch.Server.Devices.{
  Actions, Effect, nothing, handle_get_hosts, handle_wol, handle_shutdown,
}

pub data AdminCall : Type 0 where
  get_users : AdminCall
  create_user : Option CreateUserRequest → AdminCall
  update_user : Text → Option UpdateUserRequest → AdminCall
  delete_user : Text → AdminCall
  login_metrics : AdminCall

pub data ProtectedCall : Type 0 where
  logout session ping hosts : ProtectedCall
  wol shutdown : Text → ProtectedCall
  admin : AdminCall → ProtectedCall

pub data Call : Type 0 where
  login : Option LoginRequest → Call
  setup : Call
  health : Call
  protected : ProtectedCall → Call

abbrev pub Outcome : Type 0
Outcome = App × Response × Effect

abbrev pub quiet : App × Response → Outcome
quiet (a, r) = (a, r, nothing)

-- A middleware's verdict, then the rest of the chain.
abbrev pub chain : App → Verdict → (Context → Outcome) → Outcome
chain a (abort status error) k = (a, respond status (failure error), nothing)
chain a (next c) k = k c

abbrev is_error : Loaded → Bool
is_error (_, none) = false
is_error (_, some e) = true

module _ (s : Services) (w : World) where
  -- The state of the hosts file, then a handle to the database and a ping of it.
  unfoldable pub handle_healthz : App → App × Response
  handle_healthz a =
      let (loader, loaded) = load_hosts_with_status s.formats w.files a.loader in
      let a' = record a { loader = loader } in
      if is_error loaded
      then (a', respond 503 empty)
      else if (w.db 0).fails 0 || (w.db 0).fails 1
      then (a', respond 503 empty)
      else (a', respond 204 empty)

  unfoldable pub serve_admin : App → AdminCall → Outcome
  serve_admin a get_users = quiet (handle_get_users s w a)
  serve_admin a (create_user request) = quiet (handle_create_user s w a request)
  serve_admin a (update_user id request) = quiet (handle_update_user s w a id request)
  serve_admin a (delete_user id) = quiet (handle_delete_user s w a id)
  serve_admin a login_metrics = quiet (handle_login_metrics a)

  module _ (x : Actions) (status : Map HostState) where
    unfoldable pub serve_protected : App → Context → ProtectedCall → Outcome
    serve_protected a c logout = quiet (handle_logout s w a c)
    serve_protected a c session = quiet (handle_current_user a c)
    serve_protected a c ping = (a, respond 200 (message "pong"), nothing)
    serve_protected a c hosts = quiet (handle_get_hosts s w status a c)
    serve_protected a c (wol id) = handle_wol s w x a c id
    serve_protected a c (shutdown id) = handle_shutdown s w x a c id
    serve_protected a c (admin call) = chain a (admin_middleware (some c)) (λ _. serve_admin a call)

    unfoldable pub serve : App → Request → Call → Outcome
    unfolding serve_protected
    serve a r (login request) = quiet (handle_login s w a request)
    serve a r setup = quiet (handle_check_setup s w a)
    serve a r health = quiet (handle_healthz a)
    serve a r (protected call) =
        chain a (auth_middleware s.jwt a.secret w.auth_db a.tables r w.auth_clock)
          (λ c. serve_protected a c call)
