-- ===== src/Proxies.antt =====
-- backend/internal/auth/proxies.go: the list of trusted proxies. Package netip is the record `NetIp`:
-- a prefix is its number of bits and the text of its masked form, an address its zone and its text.
-- An error is `none`.
pub mod Canonical
use wol_secure_light_switch.Prelude.{
  ℕ, ◌≡◌, Bool, true, false, ◌||◌, Option, none, some, List, [], ◌∷◌, Text, same, ◌==◌,
  if◌then◌else◌, trim_space,
}
use wol_secure_light_switch.Prelude.Map.{Map, lookup, put}
use wol_secure_light_switch.Config.{split_on, is_given}

pub record NetIp : Type 0 where
  pub parse_prefix : Text → Option (ℕ × Text)
  pub parse_addr : Text → Option (Text × Text)

-- `strings.Contains(part, "/")`
unfoldable pub has_slash : Text → Bool
has_slash [] = false
has_slash (c ∷ s) = c == b'/' || has_slash s

abbrev pub of_prefix : Option (ℕ × Text) → Option Text
of_prefix none = none
of_prefix (some (bits, masked)) = if bits == 0 then none else some masked

abbrev pub of_address : Option (Text × Text) → Option Text
of_address none = none
of_address (some (zone, text)) = if same zone [] then some text else none

abbrev pub prepend : Text → Option (List Text) → Option (List Text)
prepend proxy none = none
prepend proxy (some proxies) = some (proxy ∷ proxies)

module _ (n : NetIp) where
  -- The canonical form of one entry.
  unfoldable pub canonical : Text → Option Text
  unfolding has_slash
  canonical part =
      if same part []
      then none
      else if has_slash part
      then of_prefix (n.parse_prefix part)
      else of_address (n.parse_addr part)

  unfoldable pub parse_proxies : Map (Unit {0}) → List Text → Option (List Text)
  unfolding canonical
  parse_proxies seen [] = some []
  parse_proxies seen (part ∷ parts) = elim (canonical (trim_space part)) [
    | none ↦ none
    | some proxy ↦ elim (lookup proxy seen) [
      | some _ ↦ parse_proxies seen parts
      | none ↦ prepend proxy (parse_proxies (put proxy tt seen) parts)
    ]
  ]

  unfoldable pub parse_trusted_proxies : Text → Option (List Text)
  unfolding parse_proxies
  parse_trusted_proxies value =
      if same (trim_space value) []
      then some []
      else parse_proxies [] (split_on b',' (trim_space value))
