-- ===== src/Examples/Documents.antt =====
-- The theorems on hosts.yaml at a document of one host, and at a loader that reads it.
use wol_secure_light_switch.Prelude.{
  ◌≤◌, ◌≡◌, refl, ◌⊎◌, ◌↔◌, true, false, ◌||◌, none, some, List, [], ◌∷◌, Text, codes, text_dec,
  byte_len, trim_space, trim_left, trim_right, ◌==◌,
}
use wol_secure_light_switch.Prelude.Int.{pos}
use wol_secure_light_switch.Prelude.Map.{lookup, put}
use wol_secure_light_switch.Config.{
  Host, Formats, eof, parsed, validate_device_id, scan_device_id, bad_character, all_chars,
  first_is, is_digit, valid_host_address, valid_label, split_on, extend_first, parse_hosts,
  check_document, check_hosts, check_host,
}
use wol_secure_light_switch.Loader.{
  FileSystem, Loader, new_loader, find_file, enter, reload, load_from, load_hosts,
  load_hosts_with_status,
}
use wol_secure_light_switch.Config.DeviceId.{IsDeviceId, validate_device_id_iff}
use wol_secure_light_switch.Config.Hosts.{IsDocument, parse_hosts_iff}
use wol_secure_light_switch.Config.Address.{address_character, valid_host_address-safe}
use wol_secure_light_switch.Loader.Soundness.{run}
use wol_secure_light_switch.Loader.Keeping.{load_hosts-keeps}

abbrev pub nas : Host
nas = record {
  id = codes "nas";
  name = codes "Storage";
  mac = codes "00:00:5e:00:53:01";
  ip = codes "nas.lan";
  wol_interface = [];
  user = [];
  password_file = [];
  key_path = [];
  cmd = [];
  skip_interfaces = [];
  ping_interval = pos 0;
  online = false;
  last_pinged = [];
}

-- A decoder that knows one document, and no IP address.
abbrev pub formats : Formats
formats = record {
  parse_mac = λ s. some (0 ∷ 0 ∷ 94 ∷ 0 ∷ 83 ∷ 1 ∷ []);
  parse_ip = λ s. none;
  decode_hosts = λ s. some (some (nas ∷ []));
  decode_extra = λ s. eof;
}

abbrev document : Text
document = codes "- id: nas"

abbrev joined : List Text → Text
joined [] = []
joined (s ∷ parts) = s

abbrev pub files : FileSystem
files = record {
  getwd = some (codes "/app");
  join = joined;
  stat = λ path. some (record { is_regular = true; mod_time = 4; size = 9 });
  read_file = λ path. some document;
}

-- The same directory, with the file gone.
abbrev no_files : FileSystem
no_files = record files { stat = λ path. none }

validate_device_id_iff_example :
    (validate_device_id (codes "nas-1") ≡ none) ↔ IsDeviceId (codes "nas-1")
validate_device_id_iff_example = validate_device_id_iff (codes "nas-1")

no_ip : formats.parse_ip (codes "nas.lan") ≡ none
no_ip = refl

named : valid_host_address formats (codes "nas.lan") ≡ true
unfolding valid_host_address valid_label split_on extend_first
named = refl

valid_host_address-safe_example :
    (all_chars address_character (codes "nas.lan") ≡ true)
    × (first_is b'-' (codes "nas.lan") ≡ false)
    × (all_chars (λ c. is_digit c || c == b'.') (codes "nas.lan") ≡ false)
    × (byte_len (codes "nas.lan") ≤ 253)
valid_host_address-safe_example = valid_host_address-safe formats (codes "nas.lan") no_ip named

parse_hosts_iff_example :
    (parse_hosts formats document ≡ parsed (nas ∷ [])) ↔ IsDocument formats document (nas ∷ [])
parse_hosts_iff_example = parse_hosts_iff formats document (nas ∷ [])

pub loaded : (load_hosts formats files (run formats new_loader [])).1.0 ≡ some (nas ∷ [])
unfolding run new_loader load_hosts load_hosts_with_status load_from reload find_file enter
    parse_hosts check_document check_hosts check_host lookup put text_dec validate_device_id
    scan_device_id bad_character trim_space trim_left trim_right valid_host_address valid_label
    split_on extend_first
loaded = refl

abbrev loader : Loader
loader = record new_loader { working_dir = codes "/app"; hosts = nas ∷ []; loaded = true }

load_hosts-keeps_example :
    (hosts : List Host) × ((load_hosts formats no_files loader).1 ≡ (some hosts, none))
    × ((hosts ≡ loader.hosts)
        ⊎ ((contents : Text) × (no_files.read_file (find_file no_files loader.working_dir).0
              ≡ some contents)
            × (parse_hosts formats contents ≡ parsed hosts)))
load_hosts-keeps_example = load_hosts-keeps formats no_files loader refl refl
