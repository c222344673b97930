-- ===== src/Server.antt =====
-- backend/internal/server/validation.go and the shared parts of the handlers: what a handler
-- reads, the state that it passes on, and the response that it writes. `net/mail` and `bcrypt`
-- are the record `Services`, beside the JWT library, the file formats and the case table. The
-- middleware's read of the user meets `auth_db`, a handler's n-th call of the store meets the
-- engine `db n`, and its n-th `time.Now()` is `clock n`. Log lines, request ids and headers other
-- than `Retry-After` and the cookie are left out.
pub mod Login
pub mod Admin
pub mod Devices
pub mod Router
pub mod Moves
pub mod Middleware
pub mod Setup
use Prim.Native.String.{String}
use wol_secure_light_switch.Prelude.{
  ℕ, ◌+◌, ◌*◌, ◌≡◌, Bool, true, false, not, ◌&&◌, ◌||◌, Option, none, some, List, [], ◌∷◌, Text,
  trim_space, byte_len, valid_string, same, ltb, length, if◌then◌else◌,
}
use wol_secure_light_switch.Prelude.Map.{Map, lookup, put}
use wol_secure_light_switch.Limiter.{Limiter, LoginMetrics}
use wol_secure_light_switch.Store.{User, Tables, Engine}
use wol_secure_light_switch.Auth.{Jwt}
use wol_secure_light_switch.Config.{Host, Formats, validate_device_id, is_given}
use wol_secure_light_switch.Loader.{FileSystem, Loader, Loaded, load_hosts}

pub record Services : Type 0 where
  -- `mail.ParseAddress`: the address of the parsed value
  pub parse_address : Text → Option Text
  -- `bcrypt.GenerateFromPassword` and `CompareHashAndPassword`
  pub hash_password : Text → Option Text
  pub check_password_hash : Text → Text → Bool
  pub jwt : Jwt
  pub formats : Formats
  pub unicode_lower : ℕ → ℕ

-- What one request meets outside of the program's own state.
pub record World : Type 0 where
  pub auth_db : Engine
  pub auth_clock : ℕ
  pub db : ℕ → Engine
  pub clock : ℕ → ℕ
  pub files : FileSystem
  pub client_ip : Text

pub record App : Type 0 where
  pub tables : Tables
  pub limiter : Limiter
  pub loader : Loader
  pub secret : Text

pub data Body : Type 0 where
  empty : Body
  failure : String → Body
  message : String → Body
  acted : String → Text → Body
  account : (id : ℕ) (email : Text) (is_admin : Bool) → Body
  needs_setup : Bool → Body
  login_metrics : LoginMetrics → Body
  user_list : List User → Body
  host_list : List Host → Body

pub data Cookie : Type 0 where
  unchanged : Cookie
  set_token : Text → Cookie
  cleared : Cookie

pub record Response : Type 0 where
  pub status : ℕ
  pub body : Body
  pub retry_after : Option ℕ
  pub cookie : Cookie

abbrev pub respond : ℕ → Body → Response
respond status body = record {
  status = status;
  body = body;
  retry_after = none;
  cookie = unchanged;
}

abbrev pub max_email_bytes : ℕ
max_email_bytes = 254

abbrev pub minimum_password_length : ℕ
minimum_password_length = 12

abbrev pub max_password_bytes : ℕ
max_password_bytes = 72

abbrev pub max_request_body_bytes : ℕ
max_request_body_bytes = 64 * 1024

pub data Email : Type 0 where
  valid : Text → Email
  invalid : String → Email

abbrev parsed_as : Option Text → Text → Bool
parsed_as none email = false
parsed_as (some address) email = same address email

unfoldable pub validate_email : Services → Text → Email
validate_email s raw =
    let email = trim_space raw in
    if same email []
    then invalid "email is required"
    else if ltb max_email_bytes (byte_len email)
    then invalid "email must be at most 254 bytes"
    else if parsed_as (s.parse_address email) email
    then valid email
    else invalid "email must be a valid address"

-- `none` is the nil error. The list has a unit for each rune that `RuneCountInString` counts.
unfoldable pub validate_password : Text → Bool → Option String
validate_password password require_minimum =
    if same password []
    then some "password is required"
    else if not (valid_string password)
    then some "password must be valid UTF-8"
    else if require_minimum && ltb (length password) minimum_password_length
    then some "password must be at least 12 characters"
    else if ltb max_password_bytes (byte_len password)
    then some "password must be at most 72 bytes"
    else none

-- The set of the configured ids, as a map.
unfoldable pub id_set : List Host → Map (Unit {0})
id_set [] = []
id_set (host ∷ hosts) = put host.id tt (id_set hosts)

abbrev pub ids_of : Loaded → Option (Map (Unit {0}))
ids_of (some hosts, e) = some (id_set hosts)
ids_of (none, e) = none

unfoldable pub configured_device_ids : Services → World → App → App × Option (Map (Unit {0}))
configured_device_ids s w a =
    let (loader, loaded) = load_hosts s.formats w.files a.loader in
    (record a { loader = loader }, ids_of loaded)

unfoldable pub check_device_ids : Map (Unit {0}) → Map (Unit {0}) → List Text → Option String
check_device_ids seen configured [] = none
check_device_ids seen configured (id ∷ ids) =
    let rest = check_device_ids (put id tt seen) configured ids in
    elim (validate_device_id id) [
      | some e ↦ some e
      | none ↦
          if is_given (lookup id seen)
          then some "device ID must not be repeated"
          else if not (is_given (lookup id configured))
          then some "device ID is not configured"
          else rest
    ]

unfoldable pub validate_device_ids : List Text → Map (Unit {0}) → Option String
unfolding check_device_ids
validate_device_ids ids configured = check_device_ids [] configured ids

unfoldable pub host_with_id : Text → List Host → Option Host
host_with_id id [] = none
host_with_id id (host ∷ hosts) = if same host.id id then some host else host_with_id id hosts

abbrev pub search : Text → Loaded → Option Host
search id (some hosts, e) = host_with_id id hosts
search id (none, e) = none

unfoldable pub find_host : Services → World → App → Text → App × Option Host
unfolding host_with_id
find_host s w a id =
    let (loader, loaded) = load_hosts s.formats w.files a.loader in
    (record a { loader = loader }, search id loaded)
