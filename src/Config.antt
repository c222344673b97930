-- ===== src/Config.antt =====
-- backend/internal/config: the hosts of hosts.yaml. `yaml.v3` (decoding), `net.ParseMAC` and
-- `net.ParseIP` are the record `Formats`. An error is its message up to what it quotes.
pub mod DeviceId
pub mod Hosts
pub mod Address
use Prim.Native.String.{String}
use mathlib.Core.List.{reverse}
use wol_secure_light_switch.Prelude.{
  ℕ, zero, suc, ◌+◌, ◌-◌, ◌≡◌, Bool, true, false, not, ◌&&◌, ◌||◌, Option, none, some, List, [],
  ◌∷◌, ◌++◌, Text, codes, trim_space, byte_len, text_dec, ltb, leb, ◌==◌, if◌then◌else◌, same,
  length,
}
use wol_secure_light_switch.Prelude.Int.{ℤ, pos, negsuc}
use wol_secure_light_switch.Prelude.Map.{Map, lookup, put}

pub record Host : Type 0 where
  pub id : Text
  pub name : Text
  pub mac : Text
  pub ip : Text
  pub wol_interface : Text
  pub user : Text
  pub password_file : Text
  pub key_path : Text
  pub cmd : Text
  pub skip_interfaces : List Text
  pub ping_interval : ℤ
  pub online : Bool
  pub last_pinged : Text

abbrev pub max_device_id_length : ℕ
max_device_id_length = 64

abbrev pub is_letter : ℕ → Bool
is_letter c = leb b'a' c && leb c b'z' || leb b'A' c && leb c b'Z'

abbrev pub is_digit : ℕ → Bool
is_digit c = leb b'0' c && leb c b'9'

-- The test of the loop in `ValidateDeviceID`, at an index. Only the bytes of ASCII characters pass
-- it, so the loop over bytes ends as a loop over characters does.
unfoldable pub bad_character : ℕ → ℕ → Bool
bad_character index c =
    let is_letter_or_digit = is_letter c || is_digit c in
    index == 0 && not is_letter_or_digit
    || ltb 0 index
      && not is_letter_or_digit
      && not (c == b'.')
      && not (c == b'_')
      && not (c == b'-')

unfoldable pub scan_device_id : ℕ → Text → Option String
scan_device_id index [] = none
scan_device_id index (c ∷ s) =
    let rest = scan_device_id (index + 1) s in
    if bad_character index c then some "device ID must start with a letter or number" else rest

-- `none` is the `nil` error.
unfoldable pub validate_device_id : Text → Option String
unfolding scan_device_id bad_character
validate_device_id id =
    if same id []
    then some "device ID is required"
    else if ltb max_device_id_length (byte_len id)
    then some "device ID must be at most 64 characters"
    else scan_device_id 0 id

-- Packages net and yaml.v3. `decode_hosts` is the first `Decode`, `none` for an error and `some none`
-- for a document that leaves the slice nil; `decode_extra` is the second, on what follows.
pub data Extra : Type 0 where
  eof another_document decode_error : Extra

pub data Parsed : Type 0 where
  parsed : List Host → Parsed
  refused : String → Parsed

pub record Formats : Type 0 where
  pub parse_mac : Text → Option (List ℕ)
  pub parse_ip : Text → Option (List ℕ)
  pub decode_hosts : Text → Option (Option (List Host))
  pub decode_extra : Text → Extra

-- `strings.Split(s, ".")`
unfoldable pub extend_first : ℕ → List Text → List Text
extend_first c [] = (c ∷ []) ∷ []
extend_first c (part ∷ parts) = (c ∷ part) ∷ parts

unfoldable pub split_on : ℕ → Text → List Text
unfolding extend_first
split_on sep [] = [] ∷ []
split_on sep (c ∷ s) =
    let parts = split_on sep s in if c == sep then [] ∷ parts else extend_first c parts

-- `for _, char := range s` with an early exit on a character that fails the test.
abbrev pub all_chars : (ℕ → Bool) → Text → Bool
all_chars p [] = true
all_chars p (c ∷ s) = p c && all_chars p s

abbrev pub first_is : ℕ → Text → Bool
first_is c [] = false
first_is c (d ∷ s) = d == c

abbrev pub last_is : ℕ → Text → Bool
last_is c [] = false
last_is c (d ∷ []) = d == c
last_is c (d ∷ e ∷ s) = last_is c (e ∷ s)

unfoldable pub valid_label : Text → Bool
valid_label label =
    not
      (byte_len label == 0 || ltb 63 (byte_len label) || first_is b'-' label || last_is b'-' label)
    && all_chars (λ c. is_letter c || is_digit c || c == b'-') label

abbrev pub all_labels : List Text → Bool
all_labels [] = true
all_labels (label ∷ labels) = valid_label label && all_labels labels

abbrev pub is_given {ℓ} : {A : Type ℓ} → Option A → Bool
is_given none = false
is_given (some a) = true

abbrev pub six_bytes : Option (List ℕ) → Bool
six_bytes none = false
six_bytes (some mac) = length mac == 6

abbrev pub is_negative : ℤ → Bool
is_negative (pos n) = false
is_negative (negsuc n) = true

module _ (f : Formats) where
  unfoldable pub valid_host_address : Text → Bool
  unfolding split_on valid_label
  valid_host_address address =
      is_given (f.parse_ip address)
      || (not (all_chars (λ c. is_digit c || c == b'.') address)
          && not (ltb 253 (byte_len address) || last_is b'.' address)
          && all_labels (split_on b'.' address))

  -- The checks on one host, the set of ids seen so far as a map.
  unfoldable pub check_host : Map (Unit {0}) → Host → Option String
  check_host seen_ids host = elim (validate_device_id host.id) [
    | some e ↦ some "invalid host ID"
    | none ↦
        if is_given (lookup host.id seen_ids)
        then some "duplicate host ID"
        else if same (trim_space host.name) []
        then some "name is required"
        else if not (six_bytes (f.parse_mac host.mac))
        then some "invalid six-byte MAC address"
        else if not (same host.ip []) && not (valid_host_address host.ip)
        then some "invalid IP or hostname"
        else if is_negative host.ping_interval
        then some "ping_interval must not be negative"
        else if not (same host.key_path []) && not (same host.password_file [])
        then some "configure only one SSH credential source"
        else none
  ]

  unfoldable pub check_hosts : Map (Unit {0}) → List Host → Option String
  check_hosts seen_ids [] = none
  check_hosts seen_ids (host ∷ hosts) =
      let rest = check_hosts (put host.id tt seen_ids) hosts in
      elim (check_host seen_ids host) [ some e ↦ some e | none ↦ rest ]

  -- The checks behind the decoding.
  unfoldable pub check_document : List Host → Extra → Parsed
  check_document hosts eof = elim (check_hosts [] hosts) [
    | none ↦ parsed hosts
    | some e ↦ refused e
  ]
  check_document hosts another_document = refused "hosts.yaml contains multiple YAML documents"
  check_document hosts decode_error = refused "decode error"

  unfoldable pub parse_hosts : Text → Parsed
  unfolding check_document
  parse_hosts contents =
      if same (trim_space contents) []
      then refused "hosts.yaml is empty"
      else (elim (f.decode_hosts contents) [
        | none ↦ refused "decode error"
        | some none ↦ refused "hosts.yaml must be a list of hosts"
        | some (some hosts) ↦ check_document hosts (f.decode_extra contents)
      ])
