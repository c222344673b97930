-- ===== src/Loader.antt =====
-- backend/internal/config/loader.go: the loader of hosts.yaml. The file system (`os`, `filepath`)
-- is the record `FileSystem`. An error is its message up to what it quotes.
pub mod Soundness
pub mod Keeping
pub mod Settling
use Prim.Native.String.{String}
use wol_secure_light_switch.Prelude.{
  ℕ, ◌≡◌, Bool, true, false, not, ◌&&◌, Option, none, some, List, [], ◌∷◌, Text, codes, ◌==◌,
  if◌then◌else◌, same,
}
use wol_secure_light_switch.Config.{Host, Formats, parsed, refused, parse_hosts}

-- Packages os and filepath, as they answer during one call of the loader.
pub record FileInfo : Type 0 where
  pub is_regular : Bool
  pub mod_time : ℕ
  pub size : ℕ

pub record FileSystem : Type 0 where
  pub getwd : Option Text
  pub join : List Text → Text
  pub stat : Text → Option FileInfo
  pub read_file : Text → Option Text

pub record Loader : Type 0 where
  pub working_dir : Text
  pub path : Text
  pub mod_time : ℕ
  pub size : ℕ
  pub checked : Bool
  pub hosts : List Host
  pub loaded : Bool
  pub reload_error : Option String

-- `&config.Loader{}`
unfoldable pub new_loader : Loader
new_loader = record {
  working_dir = [];
  path = [];
  mod_time = 0;
  size = 0;
  checked = false;
  hosts = [];
  loaded = false;
  reload_error = none;
}

-- `none` is the nil slice.
abbrev pub copy_hosts : List Host → Bool → Option (List Host)
copy_hosts hosts loaded = if loaded then some hosts else none

abbrev pub Loaded : Type 0
Loaded = Option (List Host) × Option String

abbrev answer : Loader → Loader × Loaded
answer l = (l, (copy_hosts l.hosts l.loaded, l.reload_error))

-- The first `Stat` that succeeds, with its path: the working directory's, or its parent's.
unfoldable pub find_file : FileSystem → Text → Text × Option FileInfo
find_file fs working_dir =
    let path = fs.join (working_dir ∷ codes "data" ∷ codes "hosts.yaml" ∷ []) in
    let parent = fs.join (working_dir ∷ codes ".." ∷ codes "data" ∷ codes "hosts.yaml" ∷ []) in
    elim (fs.stat path) [ some info ↦ (path, some info) | none ↦ (parent, fs.stat parent) ]

-- A change of the working directory forgets what was loaded.
unfoldable pub enter : Loader → Text → Loader
enter l working_dir = if same working_dir l.working_dir then l else record l {
  working_dir = working_dir;
  path = [];
  checked = false;
  hosts = [];
  loaded = false;
  reload_error = none;
}

module _ (f : Formats) where
  -- From `ReadFile` on.
  unfoldable pub reload : Loader → Option Text → Loader
  reload l none = record l { checked = false; reload_error = some "read hosts.yaml" }
  reload l (some contents) = elim (parse_hosts f contents) [
    | parsed hosts ↦ record l { hosts = hosts; loaded = true; reload_error = none }
    | refused e ↦ record l { reload_error = some e }
  ]

  unfoldable pub load_from : FileSystem → Loader → Text → Option FileInfo → Loader
  unfolding reload
  load_from fs l path none = record l { checked = false; reload_error = some "stat hosts.yaml" }
  load_from fs l path (some info) =
      let unchanged =
        l.checked && same l.path path && l.mod_time == info.mod_time && l.size == info.size in
      if not info.is_regular
      then record l { checked = false; reload_error = some "hosts.yaml is not a regular file" }
      else if unchanged
      then l
      else reload
          (record l { path = path; mod_time = info.mod_time; size = info.size; checked = true })
          (fs.read_file path)

  unfoldable pub load_hosts_with_status : FileSystem → Loader → Loader × Loaded
  load_hosts_with_status fs l = elim fs.getwd [
    | none ↦ (l, (none, some "getwd"))
    | some working_dir ↦
        let (path, info) = find_file fs working_dir in
        answer (load_from fs (enter l working_dir) path info)
  ]

  -- The hosts, with the error only where there are none.
  abbrev pub prefer_hosts : Loaded → Loaded
  prefer_hosts (some hosts, e) = (some hosts, none)
  prefer_hosts (none, e) = (none, e)

  unfoldable pub load_hosts : FileSystem → Loader → Loader × Loaded
  unfolding load_hosts_with_status
  load_hosts fs l = let (l', loaded) = load_hosts_with_status fs l in (l', prefer_hosts loaded)
