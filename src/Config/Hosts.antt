-- ===== src/Config/Hosts.antt =====
-- backend/internal/config/hosts.go: which documents `ParseHosts` accepts.
use wol_secure_light_switch.Prelude.{
  ℕ, ◌≡◌, refl, ◌≢◌, ◌⊎◌, ◌↔◌, true, false, Option, none, some, arith, List, [], ◌∷◌, Text,
  trim_space, length, All,
}
use wol_secure_light_switch.Prelude.Int.{ℤ, pos, negsuc}
use wol_secure_light_switch.Prelude.Map.{Map, lookup, put, lookup-put}
use wol_secure_light_switch.Config.{
  Host, Formats, Extra, eof, parsed, validate_device_id, six_bytes, is_negative, check_host,
  check_hosts, check_document, parse_hosts, valid_host_address,
}
use wol_secure_light_switch.Config.DeviceId.{IsDeviceId, validate_device_id_iff}

module _ (f : Formats) where
  -- What each host must meet by itself.
  pub record IsHost (host : Host) : Type 0 where
    pub id : IsDeviceId host.id
    pub name : trim_space host.name ≢ []
    pub mac : (mac : List ℕ) × (f.parse_mac host.mac ≡ some mac) × (length mac ≡ 6)
    pub address : (host.ip ≡ []) ⊎ (valid_host_address f host.ip ≡ true)
    pub interval : (n : ℕ) × (host.ping_interval ≡ pos n)
    pub one_credential : (host.key_path ≡ []) ⊎ (host.password_file ≡ [])

  six_bytes_iff :
      (o : Option (List ℕ))
      → six_bytes o ≡ true
      → (mac : List ℕ) × (o ≡ some mac) × (length mac ≡ 6)
  six_bytes_iff none h = cc
  six_bytes_iff (some mac) h = (mac, refl, ground arith)

  interval_iff : (i : ℤ) → is_negative i ≡ false → (n : ℕ) × (i ≡ pos n)
  interval_iff (pos n) h = (n, refl)
  interval_iff (negsuc n) h = cc

  check_host-IsHost :
      (seen : Map (Unit {0})) (host : Host)
      → check_host f seen host ≡ none
      → IsHost host × (lookup host.id seen ≡ none)
  check_host-IsHost seen host h =
      let valid : validate_device_id host.id ≡ none = unfold check_host in ground arith in
      (
        record {
          id = (validate_device_id_iff host.id).0 valid;
          name = unfold check_host in ground (arith, valid);
          mac = six_bytes_iff (f.parse_mac host.mac) (unfold check_host in ground (arith, valid));
          address = unfold check_host in ground (arith, valid);
          interval = interval_iff host.ping_interval (unfold check_host in ground (arith, valid));
          one_credential = unfold check_host in ground (arith, valid);
        },
        unfold check_host in ground (arith, valid),
      )

  check_host_of_IsHost :
      (seen : Map (Unit {0})) (host : Host)
      → IsHost host
      → lookup host.id seen ≡ none
      → check_host f seen host ≡ none
  check_host_of_IsHost seen host v fresh =
      let valid = (validate_device_id_iff host.id).1 v.id in
      let (n, at) = v.interval in
      let (mac, read, six) = v.mac in
      let name = v.name in
      let address = v.address in let one = v.one_credential in unfold check_host in ground arith

  -- No id stands twice.
  abbrev pub UniqueIds : List Host → Type 0
  UniqueIds [] = Unit
  UniqueIds (host ∷ hosts) = All (λ h. h.id ≢ host.id) hosts × UniqueIds hosts

  abbrev Fresh : Map (Unit {0}) → Host → Type 0
  Fresh seen host = IsHost host × (lookup host.id seen ≡ none)

  unsee :
      (seen : Map (Unit {0})) (id : Text) (hosts : List Host)
      → All (Fresh (put id tt seen)) hosts
      → All (Fresh seen) hosts × All (λ h. h.id ≢ id) hosts
  unsee seen id [] a = (tt, tt)
  unsee seen id (h ∷ hs) ((v, fresh), a) =
      let (b, c) = unsee seen id hs a in
      (
        ((v, ground (arith, lookup-put id h.id tt seen)), b),
        (λ e. ground (arith, lookup-put id h.id tt seen), c),
      )

  see :
      (seen : Map (Unit {0})) (id : Text) (hosts : List Host)
      → All (Fresh seen) hosts
      → All (λ h. h.id ≢ id) hosts
      → All (Fresh (put id tt seen)) hosts
  see seen id [] a b = tt
  see seen id (h ∷ hs) ((v, fresh), a) (ne, b) =
      ((v, ground (arith, lookup-put id h.id tt seen)), see seen id hs a b)

  check_hosts_to :
      (seen : Map (Unit {0})) (hosts : List Host)
      → check_hosts f seen hosts ≡ none
      → All (Fresh seen) hosts × UniqueIds hosts
  unfolding check_hosts
  check_hosts_to seen [] h = (tt, tt)
  check_hosts_to seen (host ∷ hosts) h =
      let here = check_host-IsHost seen host (ground arith) in
      let (rest, unique) = check_hosts_to (put host.id tt seen) hosts (ground arith) in
      let (fresh, differ) = unsee seen host.id hosts rest in ((here, fresh), (differ, unique))

  check_hosts_from :
      (seen : Map (Unit {0})) (hosts : List Host)
      → All (Fresh seen) hosts
      → UniqueIds hosts
      → check_hosts f seen hosts ≡ none
  unfolding check_hosts
  check_hosts_from seen [] a u = refl
  check_hosts_from seen (host ∷ hosts) (here, a) (differ, u) =
      rw (check_host_of_IsHost seen host here.0 here.1, check_hosts)
        (check_hosts_from (put host.id tt seen) hosts (see seen host.id hosts a differ) u)

  -- Not blank, one list with nothing behind it, each host well formed, and no id twice.
  abbrev pub IsDocument : Text → List Host → Type 0
  IsDocument contents hosts =
      (trim_space contents ≢ [])
      × (f.decode_hosts contents ≡ some (some hosts))
      × (f.decode_extra contents ≡ eof)
      × All IsHost hosts
      × UniqueIds hosts

  forget : (hosts : List Host) → All (Fresh []) hosts → All IsHost hosts
  forget [] a = tt
  forget (h ∷ hs) (here, a) = (here.0, forget hs a)

  recall : (hosts : List Host) → All IsHost hosts → All (Fresh []) hosts
  unfolding lookup
  recall [] a = tt
  recall (h ∷ hs) (here, a) = ((here, refl), recall hs a)

  check_document_to :
      (found hosts : List Host) (extra : Extra)
      → check_document f found extra ≡ parsed hosts
      → (found ≡ hosts) × (extra ≡ eof) × (check_hosts f [] found ≡ none)
  unfolding check_document
  check_document_to found hosts extra h = ground arith

  -- A text is accepted with a list of hosts exactly when it is not blank, decodes to that list
  -- with nothing behind it, each host is well formed, and no id stands twice.
  pub parse_hosts_iff :
      (contents : Text) (hosts : List Host)
      → (parse_hosts f contents ≡ parsed hosts) ↔ IsDocument contents hosts
  unfolding parse_hosts
  parse_hosts_iff contents hosts = (to (f.decode_hosts contents) refl, from)
    where
      to :
          (decoded : Option (Option (List Host)))
          → f.decode_hosts contents ≡ decoded
          → parse_hosts f contents ≡ parsed hosts
          → IsDocument contents hosts
      to none e h = absurd (ground arith)
      to (some none) e h = absurd (ground arith)
      to (some (some found)) e h =
          let checked : check_document f found (f.decode_extra contents) ≡ parsed hosts =
            ground arith in
          let (same_hosts, ended, fine) =
            check_document_to found hosts (f.decode_extra contents) checked in
          let (all, unique) = check_hosts_to [] found fine in
          (
            ground arith,
            rw (← same_hosts) e,
            ended,
            rw (← same_hosts) (forget found all),
            rw (← same_hosts) unique,
          )

      from : IsDocument contents hosts → parse_hosts f contents ≡ parsed hosts
      from (not_blank, decoded, ended, all, unique) =
          let fine = check_hosts_from [] hosts (recall hosts all) unique in
          unfold check_document in ground (arith, decoded, ended, fine)
