-- ===== src/Server/Admin/Configured.antt =====
-- backend/internal/server/admin_handlers.go and validation.go: the lists of devices that are accepted.
use wol_secure_light_switch.Prelude.{
  ◌≤◌, ◌≡◌, refl, ◌≢◌, inl, inr, true, none, some, arith, List, [], ◌∷◌, Text, All, Option-cases,
  text_dec, ap,
}
use mathlib.Core.List.{Memᴰ}
use wol_secure_light_switch.Prelude.Map.{Map, lookup, put, lookup-put}
use wol_secure_light_switch.Config.{Host, validate_device_id, is_given}
use wol_secure_light_switch.Loader.{Loaded, load_hosts}
use wol_secure_light_switch.Proxies.Canonical.{AllDifferent}
use wol_secure_light_switch.Server.{
  Services, World, App, Response, id_set, configured_device_ids, check_device_ids,
  validate_device_ids,
}
use wol_secure_light_switch.Server.Admin.{check_devices}

id_set-host :
    (id : Text) (hosts : List Host)
    → is_given (lookup id (id_set hosts)) ≡ true
    → (host : Host) × Memᴰ host hosts × (host.id ≡ id)
unfolding id_set
id_set-host id [] h = absurd (unfold lookup in ground arith)
id_set-host id (host ∷ hosts) h = elim (text_dec host.id id) [
  | yes same_id ↦ (host, Memᴰ.head refl, same_id)
  | no other ↦
      let (found, listed, same_id) =
        id_set-host id hosts (ground (arith, lookup-put host.id id tt (id_set hosts))) in
      (found, Memᴰ.tail listed, same_id)
]

-- An accepted list has well-formed ids of configured devices, none of them twice.
check_device_ids_sound :
    (configured seen : Map (Unit {0})) (ids : List Text)
    → check_device_ids seen configured ids ≡ none
    → All (λ id. (validate_device_id id ≡ none) × (is_given (lookup id configured) ≡ true)) ids
      × AllDifferent ids
      × All (λ id. lookup id seen ≡ none) ids
unfolding check_device_ids
check_device_ids_sound configured seen [] h = (tt, tt, tt)
check_device_ids_sound configured seen (id ∷ ids) h = elim (Option-cases (validate_device_id id)) [
  | inr (e, bad) ↦ absurd (cc (rw (bad, check_device_ids) at h))
  | inl good ↦ elim (Option-cases (lookup id seen)) [
    | inr (_, twice) ↦ absurd (cc (rw (good, twice, check_device_ids) at h))
    | inl new ↦ elim (Option-cases (lookup id configured)) [
      | inl unknown ↦ absurd (cc (rw (good, new, unknown, check_device_ids) at h))
      | inr (u, known) ↦
          let (checked, different, fresh) =
            check_device_ids_sound configured (put id tt seen) ids
              (rw (good, new, known, check_device_ids) at h) in
          let (apart, unseen) = split id seen ids fresh in
          (((good, rw known refl), checked), (apart, different), (new, unseen))
    ]
  ]
]
  where
    split :
        (id : Text) (seen : Map (Unit {0})) (ids : List Text)
        → All (λ q. lookup q (put id tt seen) ≡ none) ids
        → All (λ q. q ≢ id) ids × All (λ q. lookup q seen ≡ none) ids
    split id seen [] h = (tt, tt)
    split id seen (q ∷ qs) (h, hs) =
        let (apart, unseen) = split id seen qs hs in
        (
          (λ e. ground (arith, e, h, lookup-put id q tt seen), apart),
          (ground (arith, h, lookup-put id q tt seen), unseen),
        )

module _ (s : Services) (w : World) (a : App) where
  -- The id of a device of the configuration as the request finds it.
  abbrev pub IsConfigured : Text → Type 0
  IsConfigured id =
      (validate_device_id id ≡ none)
      × (hosts : List Host) × ((load_hosts s.formats w.files a.loader).1.0 ≡ some hosts)
      × (host : Host) × Memᴰ host hosts
      × (host.id ≡ id)

  pub check_devices-IsConfigured :
      (ids : List Text)
      → (check_devices s w a ids).1 ≡ none
      → All IsConfigured ids × AllDifferent ids × ((check_devices s w a ids).0.tables ≡ a.tables)
  unfolding check_devices configured_device_ids validate_device_ids
  check_devices-IsConfigured [] h = (tt, tt, refl)
  check_devices-IsConfigured (id ∷ ids) h = by_hosts (load_hosts s.formats w.files a.loader).1 refl
    where
      configured :
          (hosts : List Host) (qs : List Text)
          → (load_hosts s.formats w.files a.loader).1.0 ≡ some hosts
          → All
              (λ q. (validate_device_id q ≡ none) × (is_given (lookup q (id_set hosts)) ≡ true))
              qs
          → All IsConfigured qs
      configured hosts [] found c = tt
      configured hosts (q ∷ qs) found ((good, known), c) =
          let (host, listed, same_id) = id_set-host q hosts known in
          ((good, hosts, found, host, listed, same_id), configured hosts qs found c)

      by_hosts :
          (m : Loaded)
          → (load_hosts s.formats w.files a.loader).1 ≡ m
          → All IsConfigured (id ∷ ids)
            × AllDifferent (id ∷ ids)
            × ((check_devices s w a (id ∷ ids)).0.tables ≡ a.tables)
      by_hosts (none, x) e = absurd (cc (rw (e, check_devices, configured_device_ids) at h))
      by_hosts (some hosts, x) e =
          elim (Option-cases (check_device_ids [] (id_set hosts) (id ∷ ids))) [
            | inr (y, bad) ↦
                absurd
                  (cc (rw (e, bad, check_devices, configured_device_ids, validate_device_ids) at h))
            | inl accepted ↦
                let (checked, different, _) =
                  check_device_ids_sound (id_set hosts) [] (id ∷ ids) accepted in
                (
                  configured hosts (id ∷ ids) (ap (λ (l : Loaded). l.0) e) checked,
                  different,
                  rw (e, accepted, check_devices, configured_device_ids, validate_device_ids) refl,
                )
          ]

  -- A list that is refused is answered by an error, and changes no table.
  pub check_devices_refusal :
      (ids : List Text) {b : App} {r : Response}
      → check_devices s w a ids ≡ (b, some r)
      → (400 ≤ r.status) × (b.tables ≡ a.tables)
  unfolding check_devices configured_device_ids validate_device_ids
  check_devices_refusal [] h = absurd (cc h)
  check_devices_refusal (id ∷ ids) {b} {r} h =
      by_hosts (load_hosts s.formats w.files a.loader).1 refl
    where
      by_hosts :
          (m : Loaded)
          → (load_hosts s.formats w.files a.loader).1 ≡ m
          → (400 ≤ r.status) × (b.tables ≡ a.tables)
      by_hosts (none, x) e =
          let h' = rw (e, check_devices, configured_device_ids) at h in
          (ground (arith, h'), ground (arith, h'))
      by_hosts (some hosts, x) e =
          elim (Option-cases (check_device_ids [] (id_set hosts) (id ∷ ids))) [
            | inr (y, bad) ↦
                let h' =
                  rw (e, bad, check_devices, configured_device_ids, validate_device_ids) at h in
                (ground (arith, h'), ground (arith, h'))
            | inl accepted ↦ absurd (
                cc (
                  rw (e, accepted, check_devices, configured_device_ids, validate_device_ids) at h))
          ]
