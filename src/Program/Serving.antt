-- ===== src/Program/Serving.antt =====
-- backend/main.go: what holds once the process serves, and what a start leaves.
use Prim.Native.String.{String}
use wol_secure_light_switch.Prelude.{
  ℕ, ◌≡◌, refl, ◌≢◌, inl, inr, sym, subst, Option, none, some, arith, List, [], Text, All, same,
  eq_of_same, Bool-cases, Option-cases,
}
use wol_secure_light_switch.Prelude.Map.{lookup}
use wol_secure_light_switch.Limiter.{default_limiter, new_limiter}
use wol_secure_light_switch.Store.{Tables, IsKeyed}
use wol_secure_light_switch.Store.Keys.{IsUnique}
use wol_secure_light_switch.Loader.{new_loader}
use wol_secure_light_switch.Bootstrap.{Loaded, secret, refused, load_jwt_secret}
use wol_secure_light_switch.Bootstrap.Secrets.{IsStrong, load_jwt_secret-IsStrong}
use wol_secure_light_switch.Proxies.{parse_trusted_proxies}
use wol_secure_light_switch.Proxies.Canonical.{
  AllDifferent, IsProxy, parse_trusted_proxies-AllDifferent,
}
use wol_secure_light_switch.Server.{Services, App}
use wol_secure_light_switch.Server.Setup.{new_router}
use wol_secure_light_switch.Server.Moves.Histories.{Exchange, serve_all, IsSane, serve_all-IsSane}
use wol_secure_light_switch.Program.{
  Machine, Files, Running, serving, initialize_data, open_store, add_user, set_up, with_store,
  with_secret, with_data, start,
}

abbrev pub new_app : Text → Tables → App
new_app jwt_secret t = record {
  tables = t;
  limiter = default_limiter;
  loader = new_loader;
  secret = jwt_secret;
}

module _ (m : Machine) where
  -- The process serves with a strong secret, behind different proxies, on the tables that the
  -- migration left, and was not asked to add a user.
  pub record IsServing (database : Option Tables) (r : Running) : Type 0 where
    pub jwt_secret : Text
    pub opened : Tables
    pub migrated : Tables
    pub strong : IsStrong jwt_secret
    pub no_user : m.flags.add_user ≡ []
    pub opening : open_store m ≡ some opened
    pub migration : m.auto_migrate opened ≡ some migrated
    pub kept : database ≡ some migrated
    pub app : r.app ≡ new_app jwt_secret migrated
    pub proxies : All (IsProxy m.net_ip) r.site.trusted_proxies
    pub different : AllDifferent r.site.trusted_proxies

  set_up-serving :
      (s : Text) (t : Tables) {r : Running}
      → set_up m s t ≡ serving r
      → (r.app ≡ new_app s t)
        × All (IsProxy m.net_ip) r.site.trusted_proxies
        × AllDifferent r.site.trusted_proxies
  unfolding set_up new_router
  set_up-serving s t {r} h =
      elim (Option-cases (parse_trusted_proxies m.net_ip m.trusted_proxies)) [
        | inl bad ↦ absurd (cc (rw (bad, set_up) at h))
        | inr (proxies, good) ↦ elim (Bool-cases (m.accepts_proxies proxies)) [
          | inr refused_list ↦ absurd (cc (rw (good, refused_list, set_up, new_router) at h))
          | inl accepted ↦
              let (are_proxies, different) =
                parse_trusted_proxies-AllDifferent m.net_ip m.trusted_proxies {proxies = proxies}
                  good in
              let h' = rw (good, accepted, set_up, new_router) at h in
              let same_list : proxies ≡ r.site.trusted_proxies = ground (arith, h') in
              (
                ground (arith, h'),
                subst (All (IsProxy m.net_ip)) same_list are_proxies,
                subst AllDifferent same_list different,
              )
        ]
      ]

  add_user-not_serving : (t : Tables) (r : Running) → (add_user m t).1 ≢ serving r
  unfolding add_user
  add_user-not_serving t r h = ground (arith, h)

  with_store-serving :
      (f : Files) (s : Text) (t : Tables) {r : Running}
      → (with_store m f s t).exit ≡ serving r
      → (m.flags.add_user ≡ [])
        × (set_up m s t ≡ serving r)
        × ((with_store m f s t).database ≡ some t)
  unfolding with_store
  with_store-serving f s t {r} h = elim (Bool-cases (same m.flags.add_user [])) [
    | inl not_asked ↦
        (eq_of_same m.flags.add_user [] not_asked, ground (arith, not_asked, h), rw not_asked refl)
    | inr asked ↦ absurd (add_user-not_serving t r (ground (arith, asked, h)))
  ]

  with_secret-serving :
      (f : Files) (loaded : Loaded) {r : Running}
      → ((s : Text) → loaded ≡ secret s → IsStrong s)
      → (with_secret m f loaded).exit ≡ serving r
      → IsServing (with_secret m f loaded).database r
  unfolding with_secret
  with_secret-serving f (refused e) strong h = absurd (cc h)
  with_secret-serving f (secret s) {r} strong h = elim (Option-cases (open_store m)) [
    | inl closed ↦ absurd (cc (rw (closed, with_secret) at h))
    | inr (t, opened) ↦ elim (Option-cases (m.auto_migrate t)) [
      | inl broke ↦ absurd (cc (rw (opened, broke, with_secret) at h))
      | inr (migrated, done) ↦
          let (no_user, ready, kept) =
            with_store-serving f s migrated {r = r} (rw (opened, done, with_secret) at h) in
          let (app, proxies, different) = set_up-serving s migrated {r = r} ready in
          record {
            jwt_secret = s;
            opened = t;
            migrated = migrated;
            strong = strong s refl;
            no_user = no_user;
            opening = opened;
            migration = done;
            kept = rw (opened, done, with_secret) kept;
            app = app;
            proxies = proxies;
            different = different;
          }
    ]
  ]

  with_data-serving :
      (d : Files × Option String) {r : Running}
      → (with_data m d).exit ≡ serving r
      → IsServing (with_data m d).database r
  unfolding with_data
  with_data-serving (f, some e) h = absurd (cc h)
  with_data-serving (f, none) {r} h =
      with_secret-serving
        (record f { jwt_secret = (load_jwt_secret m.environment m.secret_disk f.jwt_secret).0 })
        (load_jwt_secret m.environment m.secret_disk f.jwt_secret).1 {r = r}
        (λ s loaded.
          load_jwt_secret-IsStrong m.environment m.secret_disk f.jwt_secret {s = s} loaded)
        h

  -- If the process comes to serve, its secret is strong, it was not asked to add a user, its
  -- tables are those that the migration of the opened database left, untouched, its limiter and
  -- its loader are new, and its trusted proxies are canonical and all different.
  pub start-IsServing :
      (f : Files) {r : Running} → (start m f).exit ≡ serving r → IsServing (start m f).database r
  unfolding start
  start-IsServing f {r} h = with_data-serving (initialize_data m f) {r = r} h

  new_app-IsSane :
      (s : Services) (jwt_secret : Text) (t : Tables) → IsUnique t → IsSane s (new_app jwt_secret t)
  unfolding new_loader default_limiter new_limiter lookup
  new_app-IsSane s jwt_secret t v = record {
    tables = v;
    limiter = record { distinct = tt; named = refl; bounded = omega arith; positive = omega arith };
    loader = λ loaded. absurd (cc loaded);
  }

-- Once the process serves on tables whose keys are unique, every sequence of requests keeps the
-- state sane, if the database allocates ids not in use.
pub start-IsSane :
    (m : Machine) (f : Files) (r : Running) (s : Services) (xs : List Exchange)
    → (start m f).exit ≡ serving r
    → IsUnique r.app.tables
    → All (λ x. (n : ℕ) → IsKeyed (x.world.db n)) xs
    → IsSane s (serve_all s r.app xs)
start-IsSane m f r s xs h v k =
    let running = start-IsServing m f {r = r} h in
    serve_all-IsSane s r.app xs k (
      subst (IsSane s) (sym running.app) (
        new_app-IsSane m s running.jwt_secret running.migrated
          (subst (λ (a : App). IsUnique a.tables) running.app v)))
