-- ===== src/Loader/Keeping.antt =====
-- backend/internal/config/loader.go: what the loader serves after a failure.
use wol_secure_light_switch.Prelude.{
  ◌≡◌, refl, ◌⊎◌, true, ◌&&◌, Option, none, some, List, Text, same, same_eq, ◌==◌, Bool-cases, inl,
  inr,
}
use wol_secure_light_switch.Config.{Host, Formats, parsed, parse_hosts}
use wol_secure_light_switch.Loader.{
  FileInfo, FileSystem, Loader, find_file, enter, reload, load_from, load_hosts_with_status,
  load_hosts,
}
use wol_secure_light_switch.Loader.Soundness.{Parsed-cases}

module _ (f : Formats) where
  -- The hosts before, or those of an accepted file.
  abbrev Kept : Loader → Option Text → List Host → Type 0
  Kept l read hosts =
      (hosts ≡ l.hosts)
      ⊎ ((contents : Text) × (read ≡ some contents) × (parse_hosts f contents ≡ parsed hosts))

  reload-Kept :
      (l : Loader) (read : Option Text)
      → l.loaded ≡ true
      → ((reload f l read).loaded ≡ true) × Kept l read (reload f l read).hosts
  unfolding reload
  reload-Kept l none h = (h, inl refl)
  reload-Kept l (some contents) h = elim (Parsed-cases f contents) [
    | inl (hosts, p) ↦ rw (p, reload) (refl, inr (contents, refl, p))
    | inr (e, p) ↦ rw (p, reload) (h, inl refl)
  ]

  load_from-Kept :
      (fs : FileSystem) (l : Loader) (path : Text) (info : Option FileInfo)
      → l.loaded ≡ true
      → ((load_from f fs l path info).loaded ≡ true)
        × Kept l (fs.read_file path) (load_from f fs l path info).hosts
  unfolding load_from
  load_from-Kept fs l path none h = (h, inl refl)
  load_from-Kept fs l path (some info) h =
      let m = record l {
        path = path;
        mod_time = info.mod_time;
        size = info.size;
        checked = true;
      } in
      let unchanged =
        l.checked && same l.path path && l.mod_time == info.mod_time && l.size == info.size in
      elim (Bool-cases info.is_regular) [
        | inr special ↦ rw special (h, inl refl)
        | inl regular ↦ elim (Bool-cases unchanged) [
          | inl cached ↦ rw (regular, cached) (h, inl refl)
          | inr changed ↦ rw (regular, changed) (reload-Kept m (fs.read_file path) h)
        ]
      ]

  -- Once hosts are loaded, a call in the same directory hands out hosts and no error, whatever the
  -- file system answers: those loaded before, or those of a file that was read and accepted.
  pub load_hosts-keeps :
      (fs : FileSystem) (l : Loader)
      → fs.getwd ≡ some l.working_dir
      → l.loaded ≡ true
      → (hosts : List Host) × ((load_hosts f fs l).1 ≡ (some hosts, none))
        × ((hosts ≡ l.hosts)
            ⊎ ((contents : Text) × (fs.read_file (find_file fs l.working_dir).0 ≡ some contents)
                × (parse_hosts f contents ≡ parsed hosts)))
  load_hosts-keeps fs l here loaded =
      let (path, info) = find_file fs l.working_dir in
      let (still, kept) = load_from-Kept fs l path info loaded in
      ((load_from f fs l path info).hosts, answered path info still refl refl, kept)
    where
      answered :
          (path : Text) (info : Option FileInfo)
          → (load_from f fs l path info).loaded ≡ true
          → (find_file fs l.working_dir).0 ≡ path
          → (find_file fs l.working_dir).1 ≡ info
          → (load_hosts f fs l).1 ≡ (some (load_from f fs l path info).hosts, none)
      answered path info still at_path at_info =
          unfold load_hosts load_hosts_with_status enter load_from in
          rw
            (
              here,
              load_hosts,
              load_hosts_with_status,
              same_eq l.working_dir l.working_dir refl,
              at_path,
              at_info,
              still,
            )
            refl
