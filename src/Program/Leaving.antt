-- ===== src/Program/Leaving.antt =====
-- backend/main.go: the files and the database that a start leaves.
use Prim.Native.String.{String}
use wol_secure_light_switch.Prelude.{
  ◌≡◌, refl, ◌≢◌, inl, inr, ap, trim_space, ◌∙◌, false, Option, none, some, arith, [], Text, codes,
  same, Bool-cases, Option-cases,
}
use wol_secure_light_switch.Store.{Tables, Result, ok, err, create_user}
use wol_secure_light_switch.Bootstrap.{
  Loaded, secret, refused, load_jwt_secret, load_or_create_jwt_secret,
}
use wol_secure_light_switch.Bootstrap.Secrets.{ensure_initial_hosts-effect}
use wol_secure_light_switch.Program.{
  Machine, Files, user_added, Start, initialize_data, open_store, add_user, set_up, with_store,
  with_secret, with_data, start, device_list,
}

module _ (m : Machine) where
  with_store-files : (f : Files) (s : Text) (t : Tables) → (with_store m f s t).files ≡ f
  unfolding with_store
  with_store-files f s t = ground arith

  with_secret-files : (f : Files) (loaded : Loaded) → (with_secret m f loaded).files ≡ f
  unfolding with_secret
  with_secret-files f (refused e) = refl
  with_secret-files f (secret s) = elim (Option-cases (open_store m)) [
    | inl closed ↦ rw (closed, with_secret) refl
    | inr (t, opened) ↦ elim (Option-cases (m.auto_migrate t)) [
      | inl broke ↦ rw (opened, broke, with_secret) refl
      | inr (migrated, done) ↦ rw (opened, done, with_secret) (with_store-files f s migrated)
    ]
  ]

  load_jwt_secret-keeps :
      (file : Option Text) {contents : Text}
      → file ≡ some contents
      → (load_jwt_secret m.environment m.secret_disk file).0 ≡ some contents
  unfolding load_jwt_secret
  load_jwt_secret-keeps file {contents} h =
      elim (Bool-cases (same (trim_space m.environment.jwt_secret_file) [])) [
        | inr file_given ↦ rw file_given h
        | inl no_file ↦ elim (Bool-cases (same (trim_space m.environment.jwt_secret) [])) [
          | inr given ↦ rw (no_file, given) h
          | inl not_given ↦ elim (Bool-cases (same m.environment.initialize_data (codes "true"))) [
            | inl generated ↦ rw (no_file, not_given, generated) (kept file h)
            | inr missing ↦ rw (no_file, not_given, missing) h
          ]
        ]
      ]
    where
      kept :
          (file : Option Text)
          → file ≡ some contents
          → (load_or_create_jwt_secret m.secret_disk file).0 ≡ some contents
      kept none h = absurd (cc h)
      kept (some c) h = unfold load_or_create_jwt_secret in ground (arith, h)

  initialize_data-files :
      (f : Files)
      → ((contents : Text)
          → f.hosts ≡ some contents
          → (initialize_data m f).0.hosts ≡ some contents)
        × ((initialize_data m f).0.jwt_secret ≡ f.jwt_secret)
  unfolding initialize_data
  initialize_data-files f =
      let (keeps, _) = ensure_initial_hosts-effect m.hosts_disk f.hosts in
      (λ contents h. ground (arith, keeps contents h, h), ground arith)

  with_data-files :
      (d : Files × Option String)
      → ((with_data m d).files.hosts ≡ d.0.hosts)
        × ((contents : Text)
            → d.0.jwt_secret ≡ some contents
            → (with_data m d).files.jwt_secret ≡ some contents)
  unfolding with_data
  with_data-files (f, some e) = (refl, λ contents h. h)
  with_data-files (f, none) =
      let g : Files = record f {
        jwt_secret = (load_jwt_secret m.environment m.secret_disk f.jwt_secret).0;
      } in
      let loaded = (load_jwt_secret m.environment m.secret_disk f.jwt_secret).1 in
      let kept = with_secret-files g loaded in
      (
        ap (λ (x : Files). x.hosts) kept,
        λ contents h.
            ap (λ (x : Files). x.jwt_secret) kept
            ∙ load_jwt_secret-keeps f.jwt_secret {contents = contents} h,
      )

  -- A start, however it goes on, leaves an existing file of hosts and an existing file of the JWT
  -- secret as they are.
  pub start-keeps_files :
      (f : Files)
      → ((contents : Text) → f.hosts ≡ some contents → (start m f).files.hosts ≡ some contents)
        × ((contents : Text)
            → f.jwt_secret ≡ some contents
            → (start m f).files.jwt_secret ≡ some contents)
  unfolding start
  start-keeps_files f =
      let (hosts, same_secret) = initialize_data-files f in
      let (same_hosts, keeps) = with_data-files (initialize_data m f) in
      (λ contents h. same_hosts ∙ hosts contents h, λ contents h. keeps contents (same_secret ∙ h))

  add_user-adds :
      (t : Tables)
      → (add_user m t).1 ≡ user_added
      → (hash : Text) × (m.hash_password m.flags.password ≡ some hash)
        × (m.flags.password ≢ [])
        × (create_user m.db t m.flags.add_user hash m.flags.admin (device_list m)
            ≡ ((add_user m t).0, ok tt))
  unfolding add_user
  add_user-adds t h = elim (Bool-cases (same m.flags.password [])) [
    | inl missing ↦ absurd (cc (rw (missing, add_user) at h))
    | inr given ↦ elim (Option-cases (m.hash_password m.flags.password)) [
      | inl unhashed ↦ absurd (cc (rw (given, unhashed, add_user) at h))
      | inr (hash, hashed) ↦
          by_result hash hashed given
            (create_user m.db t m.flags.add_user hash m.flags.admin (device_list m)) refl
    ]
  ]
    where
      by_result :
          (hash : Text)
          → m.hash_password m.flags.password ≡ some hash
          → same m.flags.password [] ≡ false
          → (r : Tables × Result (Unit {0}))
          → create_user m.db t m.flags.add_user hash m.flags.admin (device_list m) ≡ r
          → (hash : Text) × (m.hash_password m.flags.password ≡ some hash)
            × (m.flags.password ≢ [])
            × (create_user m.db t m.flags.add_user hash m.flags.admin (device_list m)
                ≡ ((add_user m t).0, ok tt))
      by_result hash hashed given (t', err x) e = absurd (cc (rw (given, hashed, e, add_user) at h))
      by_result hash hashed given (t', ok _) e = (
        hash,
        hashed,
        λ empty. ground (arith, given, empty),
        rw (given, hashed, e, add_user) refl,
      )

  with_store-adds :
      (f : Files) (s : Text) (t : Tables)
      → (with_store m f s t).exit ≡ user_added
      → ((add_user m t).1 ≡ user_added) × ((with_store m f s t).database ≡ some (add_user m t).0)
  unfolding with_store
  with_store-adds f s t h = elim (Bool-cases (same m.flags.add_user [])) [
    | inl not_asked ↦ absurd (set_up-adds_none s t (rw (not_asked, with_store) at h))
    | inr asked ↦ (rw (asked, with_store) at h, rw (asked, with_store) refl)
  ]
    where
      set_up-adds_none : (s : Text) (t : Tables) → set_up m s t ≢ user_added
      set_up-adds_none s t e = unfold set_up in ground (arith, e)

  -- The start added the user of the flags to the migrated tables.
  abbrev pub Added : Start → Type 0
  Added r =
      (migrated : Tables) × (t : Tables) × (hash : Text) × (r.database ≡ some t)
      × (m.hash_password m.flags.password ≡ some hash)
      × (m.flags.password ≢ [])
      × (create_user m.db migrated m.flags.add_user hash m.flags.admin (device_list m) ≡ (t, ok tt))

  with_secret-adds :
      (f : Files) (loaded : Loaded)
      → (with_secret m f loaded).exit ≡ user_added
      → Added (with_secret m f loaded)
  unfolding with_secret
  with_secret-adds f (refused e) h = absurd (cc h)
  with_secret-adds f (secret s) h = elim (Option-cases (open_store m)) [
    | inl closed ↦ absurd (cc (rw (closed, with_secret) at h))
    | inr (t, opened) ↦ elim (Option-cases (m.auto_migrate t)) [
      | inl broke ↦ absurd (cc (rw (opened, broke, with_secret) at h))
      | inr (migrated, done) ↦
          let (adds, left) = with_store-adds f s migrated (rw (opened, done, with_secret) at h) in
          let (hash, hashed, given, made) = add_user-adds migrated adds in
          (
            migrated,
            (add_user m migrated).0,
            hash,
            rw (opened, done, with_secret) left,
            hashed,
            given,
            made,
          )
    ]
  ]

  with_data-adds :
      (d : Files × Option String) → (with_data m d).exit ≡ user_added → Added (with_data m d)
  unfolding with_data
  with_data-adds (f, some e) h = absurd (cc h)
  with_data-adds (f, none) h =
      with_secret-adds
        (record f { jwt_secret = (load_jwt_secret m.environment m.secret_disk f.jwt_secret).0 })
        (load_jwt_secret m.environment m.secret_disk f.jwt_secret).1 h

  -- If a start ends by adding a user, a password was given and hashed, and the database holds what
  -- the store's creation of the user of the flags made of the migrated tables.
  pub start-adds : (f : Files) → (start m f).exit ≡ user_added → Added (start m f)
  unfolding start
  start-adds f h = with_data-adds (initialize_data m f) h
