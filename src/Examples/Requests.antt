-- ===== src/Examples/Requests.antt =====
-- The handlers' theorems at a service with one administrator, one other user and one device.
use wol_secure_light_switch.Prelude.{
  ℕ, ◌+◌, ◌*◌, ◌≤◌, ◌<◌, ◌≡◌, refl, ◌⊎◌, inl, true, false, none, some, arith, [], ◌∷◌, codes,
  text_dec, same, trim_space, trim_left, trim_right,
}
use wol_secure_light_switch.Prelude.Map.{lookup, put, retain, Distinct}
use wol_secure_light_switch.Limiter.{
  new_limiter, second, retry_after, retry_loop, retry_key, attempt_expired, attempt_expires_at,
  cleanup_if_due, cleanup_expired, login_attempt_keys, record_rate_limited, ip_key,
}
use wol_secure_light_switch.Limiter.Entries.{live}
use wol_secure_light_switch.Limiter.Blocking.{blocked}
use wol_secure_light_switch.Store.{User, ok, get_user_by_email, get_user_by_id}
use wol_secure_light_switch.Store.Rows.{find_row, devices_of}
use wol_secure_light_switch.Auth.{Context, generate_jwt}
use wol_secure_light_switch.Config.{
  parse_hosts, check_document, check_hosts, check_host, validate_device_id, scan_device_id,
  bad_character, valid_host_address, valid_label, split_on, extend_first,
}
use wol_secure_light_switch.Loader.{
  new_loader, find_file, enter, reload, load_from, load_hosts, load_hosts_with_status,
}
use wol_secure_light_switch.Server.{
  Services, World, App, valid, validate_email, validate_password, find_host, host_with_id,
}
use wol_secure_light_switch.Server.Login.{
  LoginRequest, handle_login, checked_login, authenticate, known_user, accept,
}
use wol_secure_light_switch.Server.Login.Grants.{Granted}
use wol_secure_light_switch.Server.Login.Laws.{IsSession, handle_login-IsSession}
use wol_secure_light_switch.Server.Login.Refusals.{
  remaining, refusal, handle_login_blocked, handle_login_refused,
}
use wol_secure_light_switch.Server.Devices.{
  Actions, woke, shut_down, handle_wol, handle_shutdown, authorized_target,
  is_authorized_for_device, has_device,
}
use wol_secure_light_switch.Server.Devices.Access.{
  IsPermitted, handle_wol-IsPermitted, handle_shutdown-IsPermitted,
}
use wol_secure_light_switch.Server.Router.{
  delete_user, wol, protected, admin, serve, serve_admin, serve_protected,
}
use wol_secure_light_switch.Server.Router.Guards.{
  Authentic, Refused, serve_protected_guarded, serve_admin_guarded,
}
use wol_secure_light_switch.Examples.{owner, guest, tables, engine}
use wol_secure_light_switch.Examples.Tokens.{jwt, secret, request}
use wol_secure_light_switch.Examples.Limits.{limiter, limiter-IsValid, ip}
use wol_secure_light_switch.Examples.Documents.{nas, formats, files}

-- One password is right for every hash.
abbrev pub services : Services
services = record {
  parse_address = λ s. some s;
  hash_password = λ s. some (0 ∷ s);
  check_password_hash = λ password hash. same password (codes "correct horse");
  jwt = jwt;
  formats = formats;
  unicode_lower = λ u. u;
}

abbrev pub world : World
world = record {
  auth_db = engine;
  auth_clock = 6;
  db = λ _. engine;
  clock = λ n. n + 20;
  files = files;
  client_ip = ip;
}

abbrev pub app : App
app = record { tables = tables; limiter = limiter; loader = new_loader; secret = secret }

abbrev pub actions : Actions
actions = record { wake_fails = λ _. false; shutdown_fails = λ _. false }

serve_admin_guarded_example :
    Refused services world actions [] app request
      (serve services world actions [] app request (protected (admin (delete_user (codes "2")))))
    ⊎ ((c : Context) × (u : Authentic services world actions [] app request c) × (u.user.is_admin
          ≡ true)
        × (serve services world actions [] app request (protected (admin (delete_user (codes "2"))))
            ≡ serve_admin services world app (delete_user (codes "2"))))
serve_admin_guarded_example =
    serve_admin_guarded services world actions [] app request (delete_user (codes "2"))

serve_protected_guarded_example :
    Refused services world actions [] app request
      (serve services world actions [] app request (protected (wol (codes "nas"))))
    ⊎ ((c : Context) × Authentic services world actions [] app request c
        × (serve services world actions [] app request (protected (wol (codes "nas")))
            ≡ serve_protected services world actions [] app c (wol (codes "nas"))))
serve_protected_guarded_example =
    serve_protected_guarded services world actions [] app request (wol (codes "nas"))

abbrev pub good_login : LoginRequest
good_login = record { email = owner.email; password = codes "correct horse" }

abbrev wrong_login : LoginRequest
wrong_login = record { email = owner.email; password = codes "wrong horse" }

pub logged_in : (handle_login services world app (some good_login)).1.status ≡ 200
unfolding handle_login checked_login authenticate known_user accept validate_email validate_password
    trim_space trim_left trim_right text_dec retry_after retry_loop retry_key cleanup_if_due
    cleanup_expired login_attempt_keys new_limiter lookup get_user_by_email find_row generate_jwt
    retain
logged_in = refl

handle_login-IsSession_example :
    (user : User) × IsSession services world app good_login
      (handle_login services world app (some good_login)).0
      user
    × Granted services world app user (handle_login services world app (some good_login)).1
handle_login-IsSession_example = handle_login-IsSession services world app good_login logged_in

email_accepted : validate_email services owner.email ≡ valid owner.email
unfolding validate_email trim_space trim_left trim_right text_dec
email_accepted = refl

password_accepted : validate_password (codes "wrong horse") false ≡ none
unfolding validate_password text_dec
password_accepted = refl

unblocked :
    remaining services world app wrong_login owner.email email_accepted password_accepted ≡ 0
unfolding blocked live new_limiter lookup
unblocked = refl

owner_found :
    get_user_by_email engine tables owner.email
    ≡ ok (record { row = owner; devices = devices_of 1 tables.user_devices })
unfolding get_user_by_email find_row text_dec
owner_found = refl

wrong_password : services.check_password_hash (codes "wrong horse") owner.password_hash ≡ false
unfolding text_dec
wrong_password = refl

handle_login_refused_example :
    handle_login services world app (some wrong_login)
    ≡ refusal services world app wrong_login owner.email email_accepted password_accepted
handle_login_refused_example =
    handle_login_refused services world app wrong_login owner.email email_accepted password_accepted
      limiter-IsValid.distinct unblocked
      (inl (
        record { row = owner; devices = devices_of 1 tables.user_devices },
        owner_found,
        wrong_password,
      ))

-- A limiter that blocks the client's address.
abbrev blocking : App
blocking = record app {
  limiter = record limiter {
    attempts =
        (ip_key (λ u. u) ip, record { failures = 2; window_start = 15; blocked_until = 27 }) ∷ [];
  };
}

blocking-Distinct : Distinct blocking.limiter.attempts
unfolding lookup
blocking-Distinct = (refl, tt)

password_given : validate_password (codes "correct horse") false ≡ none
unfolding validate_password text_dec
password_given = refl

abbrev block_left : ℕ
block_left = remaining services world blocking good_login owner.email email_accepted password_given

block_left-pos : 0 < block_left
unfolding blocked live new_limiter lookup text_dec attempt_expired attempt_expires_at
block_left-pos = omega arith

handle_login_blocked_example :
    (n : ℕ) × (block_left ≤ n * second)
    × (n * second < block_left + second)
    × ((handle_login services world blocking (some good_login)).1.status ≡ 429)
    × ((handle_login services world blocking (some good_login)).1.retry_after ≡ some n)
    × ((handle_login services world blocking (some good_login)).0.tables ≡ tables)
    × ((handle_login services world blocking (some good_login)).0.limiter
        ≡ record_rate_limited (retry_after (λ u. u) blocking.limiter ip owner.email 20).0)
handle_login_blocked_example =
    handle_login_blocked services world blocking good_login owner.email email_accepted
      password_given blocking-Distinct block_left-pos

abbrev pub guest_context : Context
guest_context = record {
  user_id = 2;
  user_email = guest.email;
  is_admin = false;
  token_version = 0;
}

woken : (handle_wol services world actions app guest_context (codes "nas")).2 ≡ woke nas
unfolding handle_wol authorized_target is_authorized_for_device has_device get_user_by_id find_row
    devices_of find_host host_with_id new_loader load_hosts load_hosts_with_status load_from reload
    find_file enter parse_hosts check_document check_hosts check_host lookup put text_dec
    validate_device_id scan_device_id bad_character trim_space trim_left trim_right
    valid_host_address valid_label split_on extend_first
woken = refl

handle_wol-IsPermitted_example : IsPermitted services world app guest_context (codes "nas") nas
handle_wol-IsPermitted_example =
    handle_wol-IsPermitted services world app guest_context (codes "nas") actions {host = nas} woken

stopped : (handle_shutdown services world actions app guest_context (codes "nas")).2 ≡ shut_down nas
unfolding handle_shutdown authorized_target is_authorized_for_device has_device get_user_by_id
    find_row devices_of find_host host_with_id new_loader load_hosts load_hosts_with_status
    load_from reload find_file enter parse_hosts check_document check_hosts check_host lookup put
    text_dec validate_device_id scan_device_id bad_character trim_space trim_left trim_right
    valid_host_address valid_label split_on extend_first
stopped = refl

handle_shutdown-IsPermitted_example : IsPermitted services world app guest_context (codes "nas") nas
handle_shutdown-IsPermitted_example =
    handle_shutdown-IsPermitted services world app guest_context (codes "nas") actions {host = nas}
      stopped
