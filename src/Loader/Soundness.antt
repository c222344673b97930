-- ===== src/Loader/Soundness.antt =====
-- backend/internal/config/loader.go: what a loader hands out is well formed.
use Prim.Native.String.{String}
use wol_secure_light_switch.Prelude.{
  ◌≡◌, refl, ◌⊎◌, true, Option, none, some, arith, List, [], ◌∷◌, Text, same, Bool-cases,
  Option-cases, inl, inr, All,
}
use wol_secure_light_switch.Config.{Host, Formats, Parsed, parsed, refused, parse_hosts}
use wol_secure_light_switch.Loader.{
  FileInfo, FileSystem, Loader, new_loader, copy_hosts, find_file, enter, reload, load_from,
  load_hosts_with_status, load_hosts,
}
use wol_secure_light_switch.Config.Hosts.{IsHost, UniqueIds, parse_hosts_iff}

module _ (f : Formats) where
  -- What is served is well formed.
  abbrev pub IsSound : List Host → Type 0
  IsSound hosts = All (IsHost f) hosts × UniqueIds f hosts

  abbrev pub Serves : Loader → Type 0
  Serves l = l.loaded ≡ true → IsSound l.hosts

  pub Parsed-cases :
      (contents : Text)
      → ((hosts : List Host) × (parse_hosts f contents ≡ parsed hosts))
        ⊎ ((e : String) × (parse_hosts f contents ≡ refused e))
  Parsed-cases contents = by_result (parse_hosts f contents) refl
    where
      by_result :
          (p : Parsed)
          → parse_hosts f contents ≡ p
          → ((hosts : List Host) × (parse_hosts f contents ≡ parsed hosts))
            ⊎ ((e : String) × (parse_hosts f contents ≡ refused e))
      by_result (parsed hosts) h = inl (hosts, h)
      by_result (refused e) h = inr (e, h)

  IsSound-of_parsed :
      (contents : Text) (hosts : List Host) → parse_hosts f contents ≡ parsed hosts → IsSound hosts
  IsSound-of_parsed contents hosts h =
      let (_, _, _, all, unique) = (parse_hosts_iff f contents hosts).0 h in (all, unique)

  reload-Serves : (l : Loader) (contents : Option Text) → Serves l → Serves (reload f l contents)
  unfolding reload
  reload-Serves l none s = s
  reload-Serves l (some contents) s = elim (Parsed-cases contents) [
    | inl (hosts, h) ↦ rw (h, reload) (λ _. IsSound-of_parsed contents hosts h)
    | inr (e, h) ↦ rw (h, reload) s
  ]

  load_from-Serves :
      (fs : FileSystem) (l : Loader) (path : Text) (info : Option FileInfo)
      → Serves l
      → Serves (load_from f fs l path info)
  unfolding load_from
  load_from-Serves fs l path none s = s
  load_from-Serves fs l path (some info) s = ground (
    arith,
    s,
    reload-Serves
        (record l { path = path; mod_time = info.mod_time; size = info.size; checked = true })
        (fs.read_file path) s,
  )

  enter-Serves : (l : Loader) (working_dir : Text) → Serves l → Serves (enter l working_dir)
  unfolding enter
  enter-Serves l working_dir s = elim (Bool-cases (same working_dir l.working_dir)) [
    | inl here ↦ rw here s
    | inr moved ↦ rw moved (λ h. absurd (cc h))
  ]

  pub load-Serves : (fs : FileSystem) (l : Loader) → Serves l → Serves (load_hosts f fs l).0
  unfolding load_hosts load_hosts_with_status
  load-Serves fs l s = elim (Option-cases fs.getwd) [
    | inl lost ↦ rw (lost, load_hosts_with_status) s
    | inr (dir, at) ↦
        rw (at, load_hosts_with_status)
          (load_from-Serves fs (enter l dir) (find_file fs dir).0 (find_file fs dir).1
            (enter-Serves l dir s))
  ]

  -- The loader over time, each call with the file system as it answers then.
  unfoldable pub run : Loader → List FileSystem → Loader
  run l [] = l
  run l (fs ∷ rest) = run (load_hosts f fs l).0 rest

  run-Serves : (l : Loader) (history : List FileSystem) → Serves l → Serves (run l history)
  unfolding run
  run-Serves l [] s = s
  run-Serves l (fs ∷ rest) s = run-Serves (load_hosts f fs l).0 rest (load-Serves fs l s)

  served :
      (l : Loader) {hosts : List Host}
      → copy_hosts l.hosts l.loaded ≡ some hosts
      → (l.loaded ≡ true) × (l.hosts ≡ hosts)
  served l h = ground arith

  -- Whatever the file system answered in earlier calls and answers now, each host of a list that a
  -- loader hands out is well formed, and no id stands twice in it.
  pub load_hosts-IsSound :
      (history : List FileSystem) (fs : FileSystem) {hosts : List Host}
      → (load_hosts f fs (run new_loader history)).1.0 ≡ some hosts
      → IsSound hosts
  load_hosts-IsSound history fs {hosts} h =
      let l = run new_loader history in
      let s : Serves l = run-Serves new_loader history (unfold new_loader in λ e. absurd (cc e)) in
      let (loaded, same_hosts) = from_loader l h in rw (← same_hosts) (load-Serves fs l s loaded)
    where
      from_loader :
          (l : Loader)
          → (load_hosts f fs l).1.0 ≡ some hosts
          → ((load_hosts f fs l).0.loaded ≡ true) × ((load_hosts f fs l).0.hosts ≡ hosts)
      from_loader l h = unfold load_hosts load_hosts_with_status in ground arith
