-- ===== src/Program.antt =====
-- backend/main.go: the start and the end of the process. What the start meets outside of the
-- program is the record `Machine`; its result is the files and the database that it leaves, and how
-- it goes on. A log line or an error's detail is left out.
pub mod Serving
pub mod Leaving
pub mod Ending
use Prim.Native.String.{String}
use wol_secure_light_switch.Prelude.{
  ℕ, Bool, true, false, not, ◌||◌, Option, none, some, List, [], ◌∷◌, ◌++◌, Text, codes, same, ◌==◌,
  if◌then◌else◌, trim_space,
}
use wol_secure_light_switch.Limiter.{default_limiter}
use wol_secure_light_switch.Store.{Tables, Engine, Result, ok, err, create_user}
use wol_secure_light_switch.Config.{split_on}
use wol_secure_light_switch.Loader.{new_loader}
use wol_secure_light_switch.Bootstrap.{
  Disk, Environment, Loaded, secret, refused, ensure_initial_hosts, load_jwt_secret,
}
use wol_secure_light_switch.Proxies.{NetIp, parse_trusted_proxies}
use wol_secure_light_switch.Server.{App}
use wol_secure_light_switch.Server.Setup.{Site, new_router, HttpServer, new_http_server}

-- The flags -adduser, -password, -admin and -devices.
pub record Flags : Type 0 where
  pub add_user : Text
  pub password : Text
  pub admin : Bool
  pub devices : Text

pub record Machine : Type 0 where
  pub environment : Environment
  pub trusted_proxies : Text
  pub port : Text
  pub bind_address : Text
  pub flags : Flags
  pub mkdir_fails : Bool
  pub hosts_disk : Disk
  pub secret_disk : Disk
  -- `gorm.Open` at a data source, and `AutoMigrate`
  pub open_database : Text → Option Tables
  pub auto_migrate : Tables → Option Tables
  pub db : Engine
  pub hash_password : Text → Option Text
  pub net_ip : NetIp
  pub accepts_proxies : List Text → Bool
  pub exists : Text → Bool

-- data/hosts.yaml and data/jwt_secret
pub record Files : Type 0 where
  pub hosts : Option Text
  pub jwt_secret : Option Text

pub record Running : Type 0 where
  pub app : App
  pub site : Site
  pub http_server : HttpServer

pub data Exit : Type 0 where
  fatal : String → Exit
  user_added : Exit
  serving : Running → Exit

pub record Start : Type 0 where
  pub files : Files
  pub database : Option Tables
  pub exit : Exit

abbrev stop : Files → String → Start
stop f e = record { files = f; database = none; exit = fatal e }

-- `store.SQLiteDSN`
abbrev pub sqlite_dsn : Text → Text
sqlite_dsn path = path ++ codes "?_pragma=busy_timeout%3d10000"

-- `net.JoinHostPort`
unfoldable pub has_colon : Text → Bool
has_colon [] = false
has_colon (c ∷ s) = c == b':' || has_colon s

unfoldable pub join_host_port : Text → Text → Text
unfolding has_colon
join_host_port host port =
    if has_colon host then b'[' ∷ host ++ b']' ∷ b':' ∷ port else host ++ b':' ∷ port

module _ (m : Machine) where
  unfoldable pub initialize_data : Files → Files × Option String
  initialize_data f =
      let (hosts, created) = ensure_initial_hosts m.hosts_disk f.hosts in
      if not (same m.environment.initialize_data (codes "true"))
      then (f, none)
      else if m.mkdir_fails
      then (f, some "Cannot create application data directory")
      else (
        record f { hosts = hosts },
        if created then none else some "Cannot initialize hosts configuration",
      )

  unfoldable pub open_store : Option Tables
  open_store = elim (m.open_database (sqlite_dsn (codes "data/secure-switch.db"))) [
    | some t ↦ some t
    | none ↦ m.open_database (sqlite_dsn (codes "../data/secure-switch.db"))
  ]

  abbrev pub device_list : List Text
  device_list = if same m.flags.devices [] then [] else split_on b',' m.flags.devices

  abbrev pub after_adding : Tables × Result (Unit {0}) → Tables × Exit
  after_adding (t, ok _) = (t, user_added)
  after_adding (t, err _) = (t, fatal "Error creating user")

  unfoldable pub add_user : Tables → Tables × Exit
  add_user t =
      if same m.flags.password []
      then (t, fatal "Password is required when adding a user")
      else (elim (m.hash_password m.flags.password) [
        | none ↦ (t, fatal "Error hashing password")
        | some hash ↦
            after_adding (create_user m.db t m.flags.add_user hash m.flags.admin device_list)
      ])

  abbrev pub listen_port : Text
  listen_port = if same m.port [] then codes "7500" else m.port

  abbrev pub listen_address : Text
  listen_address =
      if same (trim_space m.bind_address) [] then codes "127.0.0.1" else trim_space m.bind_address

  unfoldable pub set_up : Text → Tables → Exit
  set_up jwt_secret t = elim (parse_trusted_proxies m.net_ip m.trusted_proxies) [
    | none ↦ fatal "Invalid TRUSTED_PROXIES configuration"
    | some proxies ↦ elim (new_router m.accepts_proxies m.exists proxies) [
      | none ↦ fatal "Failed to configure HTTP router"
      | some site ↦ serving (record {
        app = record {
          tables = t;
          limiter = default_limiter;
          loader = new_loader;
          secret = jwt_secret;
        };
        site = site;
        http_server = new_http_server (join_host_port listen_address listen_port);
      })
    ]
  ]

  abbrev pub added : Files → Tables × Exit → Start
  added f (t, e) = record { files = f; database = some t; exit = e }

  unfoldable pub with_store : Files → Text → Tables → Start
  unfolding add_user set_up
  with_store f jwt_secret t =
      if not (same m.flags.add_user [])
      then added f (add_user t)
      else record { files = f; database = some t; exit = set_up jwt_secret t }

  unfoldable pub with_secret : Files → Loaded → Start
  unfolding with_store open_store
  with_secret f (refused e) = stop f "Invalid JWT configuration"
  with_secret f (secret s) = elim open_store [
    | none ↦ stop f "failed to connect database"
    | some t ↦ elim (m.auto_migrate t) [
      | none ↦ record { files = f; database = some t; exit = fatal "failed to migrate database" }
      | some migrated ↦ with_store f s migrated
    ]
  ]

  unfoldable pub with_data : Files × Option String → Start
  unfolding with_secret
  with_data (f, some e) = stop f e
  with_data (f, none) =
      let (file, loaded) = load_jwt_secret m.environment m.secret_disk f.jwt_secret in
      with_secret (record f { jwt_secret = file }) loaded

  unfoldable pub start : Files → Start
  unfolding initialize_data with_data
  start f = with_data (initialize_data f)
