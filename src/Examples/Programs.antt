-- ===== src/Examples/Programs.antt =====
-- The theorems on the program's start, at a machine whose database holds two users.
use wol_secure_light_switch.Prelude.{
  ◌≡◌, refl, true, false, none, some, [], ◌∷◌, Text, codes, text_dec, trim_space, trim_left,
  trim_right,
}
use wol_secure_light_switch.Bootstrap.{
  unquoted, check_secret, load_jwt_secret, ensure_initial_hosts,
}
use wol_secure_light_switch.Proxies.{parse_trusted_proxies}
use wol_secure_light_switch.Server.Setup.{new_router, frontend, frontend_path, new_http_server}
use wol_secure_light_switch.Program.{
  Flags, Machine, Files, Running, serving, start, with_data, with_secret, with_store,
  initialize_data, open_store, set_up, join_host_port,
}
use wol_secure_light_switch.Program.Serving.{new_app, IsServing, start-IsServing}
use wol_secure_light_switch.Program.Leaving.{start-keeps_files}
use wol_secure_light_switch.Examples.{tables, engine}
use wol_secure_light_switch.Examples.Starts.{disk, environment, long_secret}

abbrev no_flags : Flags
no_flags = record { add_user = []; password = []; admin = false; devices = [] }

abbrev machine : Machine
machine = record {
  environment = environment;
  trusted_proxies = [];
  port = [];
  bind_address = [];
  flags = no_flags;
  mkdir_fails = false;
  hosts_disk = disk;
  secret_disk = disk;
  open_database = λ path. some tables;
  auto_migrate = λ t. some t;
  db = engine;
  hash_password = λ s. some (0 ∷ s);
  net_ip = record { parse_prefix = λ s. none; parse_addr = λ s. none };
  accepts_proxies = λ l. true;
  exists = λ path. false;
}

abbrev files : Files
files = record { hosts = some (codes "[]"); jwt_secret = some (codes "kept") }

abbrev running : Running
running = record {
  app = new_app long_secret tables;
  site = record { trusted_proxies = []; pages = none };
  http_server = new_http_server (join_host_port (codes "127.0.0.1") (codes "7500"));
}

served : (start machine files).exit ≡ serving running
unfolding start initialize_data with_data with_secret with_store open_store set_up new_router
    frontend frontend_path parse_trusted_proxies load_jwt_secret check_secret unquoted trim_space
    trim_left trim_right text_dec ensure_initial_hosts
served = refl

start-IsServing_example : IsServing machine (start machine files).database running
start-IsServing_example = start-IsServing machine files {r = running} served

start-keeps_files_example :
    ((contents : Text)
      → files.hosts ≡ some contents
      → (start machine files).files.hosts ≡ some contents)
    × ((contents : Text)
        → files.jwt_secret ≡ some contents
        → (start machine files).files.jwt_secret ≡ some contents)
start-keeps_files_example = start-keeps_files machine files
