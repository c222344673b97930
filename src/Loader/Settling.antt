-- ===== src/Loader/Settling.antt =====
-- backend/internal/config/loader.go: what the loader serves from its cache.
use wol_secure_light_switch.Prelude.{
  ◌≡◌, refl, ◌∙◌, Bool, true, ◌&&◌, Option, none, some, arith, Text, same, same_eq, ◌==◌,
  Bool-cases, Option-cases, inl, inr,
}
use wol_secure_light_switch.Config.{Formats}
use wol_secure_light_switch.Loader.{
  FileInfo, FileSystem, Loader, find_file, enter, reload, load_from, load_hosts_with_status,
}
use wol_secure_light_switch.Loader.Soundness.{Parsed-cases}

module _ (f : Formats) where
  load_from-directory :
      (fs : FileSystem) (l : Loader) (path : Text) (info : Option FileInfo)
      → (load_from f fs l path info).working_dir ≡ l.working_dir
  unfolding load_from
  load_from-directory fs l path none = refl
  load_from-directory fs l path (some info) = ground arith

  load_from_again :
      (fs : FileSystem) (l : Loader) (path : Text) (info : FileInfo)
      → info.is_regular ≡ true
      → l.checked ≡ true
      → l.path ≡ path
      → l.mod_time ≡ info.mod_time
      → l.size ≡ info.size
      → load_from f fs l path (some info) ≡ l
  unfolding load_from
  load_from_again fs l path info regular checked at_path at_time at_size = ground arith

  load_from_unread :
      (fs : FileSystem) (m : Loader) (path : Text) (info : FileInfo)
      → info.is_regular ≡ true
      → fs.read_file path ≡ none
      → m ≡ record m { path = path; mod_time = info.mod_time; size = info.size; checked = true }
      → load_from f fs (reload f m none) path (some info) ≡ reload f m none
  unfolding load_from reload
  load_from_unread fs m path info regular unread settled = ground arith

  -- What `ReadFile` and the parser give settles the loader for the next call.
  reload_settled :
      (fs : FileSystem) (m : Loader) (path : Text) (info : FileInfo)
      → info.is_regular ≡ true
      → m.checked ≡ true
      → m.path ≡ path
      → m.mod_time ≡ info.mod_time
      → m.size ≡ info.size
      → load_from f fs (reload f m (fs.read_file path)) path (some info)
        ≡ reload f m (fs.read_file path)
  reload_settled fs m path info regular checked at_path at_time at_size =
      elim (Option-cases (fs.read_file path)) [
        | inl unread ↦ simp unread (load_from_unread fs m path info regular unread (ground arith))
        | inr (contents, read) ↦ simp read (elim (Parsed-cases f contents) [
          | inl (hosts, p) ↦
              load_from_again fs (reload f m (some contents)) path info regular
                (unfold reload in ground arith) (unfold reload in ground arith)
                (unfold reload in ground arith) (unfold reload in ground arith)
          | inr (e, p) ↦
              load_from_again fs (reload f m (some contents)) path info regular
                (unfold reload in ground arith) (unfold reload in ground arith)
                (unfold reload in ground arith) (unfold reload in ground arith)
        ])
      ]

  load_from_twice :
      (fs : FileSystem) (l : Loader) (path : Text) (info : Option FileInfo)
      → load_from f fs (load_from f fs l path info) path info ≡ load_from f fs l path info
  load_from_twice fs l path none = unfold load_from in refl
  load_from_twice fs l path (some info) = elim (Bool-cases info.is_regular) [
    | inr special ↦ unfold load_from in ground arith
    | inl regular ↦ elim (Bool-cases unchanged) [
      | inl cached ↦
          let kept : load_from f fs l path (some info) ≡ l = unfold load_from in ground arith in
          simp kept
      | inr changed ↦
          let m = record l {
            path = path;
            mod_time = info.mod_time;
            size = info.size;
            checked = true;
          } in
          let read : load_from f fs l path (some info) ≡ reload f m (fs.read_file path) =
            unfold load_from in ground arith in
          simp read (reload_settled fs m path info regular refl refl refl refl)
    ]
  ]
    where
      unchanged : Bool
      unchanged =
          l.checked && same l.path path && l.mod_time == info.mod_time && l.size == info.size

  -- A second call while the file system answers the same gives the same answer and leaves the
  -- loader as it is.
  pub load_hosts_idempotent :
      (fs : FileSystem) (l : Loader)
      → load_hosts_with_status f fs (load_hosts_with_status f fs l).0
        ≡ load_hosts_with_status f fs l
  load_hosts_idempotent fs l = elim (Option-cases fs.getwd) [
    | inl lost ↦ unfold load_hosts_with_status in ground arith
    | inr (dir, at) ↦ settled dir at (find_file fs dir).0 (find_file fs dir).1 refl refl
  ]
    where
      at_home : (l : Loader) (dir : Text) → l.working_dir ≡ dir → enter l dir ≡ l
      at_home l dir e = unfold enter in ground (arith, same_eq dir l.working_dir)

      entered : (dir : Text) → (enter l dir).working_dir ≡ dir
      entered dir = unfold enter in ground arith

      settled :
          (dir : Text)
          → fs.getwd ≡ some dir
          → (path : Text) (info : Option FileInfo) → (find_file fs dir).0 ≡ path
          → (find_file fs dir).1 ≡ info
          → load_hosts_with_status f fs (load_hosts_with_status f fs l).0
            ≡ load_hosts_with_status f fs l
      settled dir at path info at_path at_info =
          let r = load_from f fs (enter l dir) path info in
          let home : enter r dir ≡ r =
            at_home r dir (load_from-directory fs (enter l dir) path info ∙ entered dir) in
          let twice = load_from_twice fs (enter l dir) path info in
          unfold load_hosts_with_status in ground (arith, home, twice)
