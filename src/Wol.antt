-- ===== src/Wol.antt =====
-- backend/internal/wol/wol.go: the network that a magic packet goes out on, and the packet. An
-- address is the list of its bytes; of package net the IPv4 half is written out, since only
-- addresses with a four-byte form get beyond `To4`. The interfaces, the resolver and the socket are
-- the record `Network`, as in the source.
pub mod Bits
pub mod Addresses
pub mod Packet
pub mod Candidates
pub mod Choice
pub mod Route
pub mod Broadcast
pub mod System
use wol_secure_light_switch.Prelude.{
  ℕ, zero, suc, ◌+◌, ◌*◌, ◌-◌, Bool, true, false, not, ◌&&◌, ◌||◌, Option, none, some, List, [],
  ◌∷◌, ◌++◌, Text, to_lower, same, ltb, leb, ◌==◌, length, if◌then◌else◌, text_dec,
}
use wol_secure_light_switch.Config.{Host, Formats}
use Bits.{bit_or, bit_not}
pub use Addresses.{Ip, IpNet}
unfoldable pub use Addresses.{
  to4, is_global_unicast, is_link_local_unicast, mask_ones, mask_size, same_network, contains,
  has_substring,
}
unfoldable pub use Packet.{set_at, copy_at, fill_header, fill_body, magic_packet}

-- `net.Addr`: an `*net.IPNet`, or another kind.
pub data Addr : Type 0 where
  ip_net : IpNet → Addr
  other_addr : Addr

pub record Interface : Type 0 where
  pub index : ℕ
  pub name : Text
  pub is_up : Bool
  pub is_loopback : Bool
  pub is_broadcast : Bool

-- `send` tells whether the packet went out.
pub record Network : Type 0 where
  pub interfaces : Option (List Interface)
  pub addrs : Interface → Option (List Addr)
  pub lookup : Text → Option (List Ip)
  pub send : Ip → Ip → List ℕ → Bool

pub record WolCandidate : Type 0 where
  pub iface : ℕ
  pub ip : Ip
  pub subnet : IpNet
  pub prefix : ℕ

pub data WolError : Type 0 where
  enumerate_interfaces enumerate_addresses no_eligible_network resolve_target no_match ambiguous
        parse_mac not_six_bytes send_packet :
      WolError

pub data Answer {ℓ} (A : Type ℓ) : Type ℓ where
  found : A → Answer A
  failed : WolError → Answer A

abbrev pub is_candidate : ℕ → Ip → ℕ → WolCandidate → Bool
is_candidate index ip prefix c = c.iface == index && same c.ip ip && c.prefix == prefix

unfoldable pub has_candidate : ℕ → Ip → ℕ → List WolCandidate → Bool
has_candidate index ip prefix [] = false
has_candidate index ip prefix (c ∷ cs) =
    is_candidate index ip prefix c || has_candidate index ip prefix cs

-- The address of a candidate: an IPv4 address that is global and not link-local.
abbrev pub usable : Option Ip → Option Ip
usable none = none
usable (some ip) = if not (is_global_unicast ip) || is_link_local_unicast ip then none else some ip

-- One address of an interface that is not skipped.
unfoldable pub add_address : Interface → List WolCandidate → Addr → List WolCandidate
unfolding to4 mask_size has_candidate is_global_unicast is_link_local_unicast
add_address iface cs other_addr = cs
add_address iface cs (ip_net subnet) = elim (usable (to4 subnet.ip)) [
  | none ↦ cs
  | some ip ↦
      let (prefix, bits) = mask_size subnet.mask in
      if not (bits == 32) || ltb 30 prefix || has_candidate iface.index ip prefix cs
      then cs
      else cs ++ record { iface = iface.index; ip = ip; subnet = subnet; prefix = prefix } ∷ []
]

unfoldable pub add_addresses : Interface → List WolCandidate → List Addr → List WolCandidate
add_addresses iface cs [] = cs
add_addresses iface cs (address ∷ addresses) =
    add_addresses iface (add_address iface cs address) addresses

module _ (unicode_lower : ℕ → ℕ) (h : Host) where
  -- `skipped`
  unfoldable pub is_skipped : Text → List Text → Bool
  is_skipped name [] = false
  is_skipped name (skip ∷ skips) =
      not (same skip [])
        && has_substring (to_lower unicode_lower name) (to_lower unicode_lower skip)
      || is_skipped name skips

  unfoldable pub is_eligible : Interface → Bool
  is_eligible iface =
      not (not (same h.wol_interface []) && not (same iface.name h.wol_interface))
      && not (
          is_skipped iface.name h.skip_interfaces
          || not iface.is_up
          || iface.is_loopback
          || not iface.is_broadcast)

  module _ (n : Network) where
    -- What one interface adds.
    unfoldable pub visit : List WolCandidate → Interface → Answer (List WolCandidate)
    visit cs iface = if not (is_eligible iface) then found cs else (elim (n.addrs iface) [
      | none ↦ failed enumerate_addresses
      | some addresses ↦ found (add_addresses iface cs addresses)
    ])

    -- The loop over the interfaces.
    unfoldable pub collect : List WolCandidate → List Interface → Answer (List WolCandidate)
    unfolding visit
    collect cs [] = found cs
    collect cs (iface ∷ rest) = elim (visit cs iface) [
      | failed e ↦ failed e
      | found cs' ↦ collect cs' rest
    ]

    unfoldable pub candidates_of : Answer (List WolCandidate)
    unfolding collect
    candidates_of = elim n.interfaces [
      | none ↦ failed enumerate_interfaces
      | some interfaces ↦ collect [] interfaces
    ]

-- Whether one of the target's addresses is in the candidate's subnet.
unfoldable pub matches : List Ip → WolCandidate → Bool
matches [] c = false
matches (ip ∷ ips) c = contains c.subnet ip || matches ips c

-- The loop that keeps the matches with the longest prefix. The number is one more than `best`.
unfoldable pub narrow_step : List Ip → WolCandidate → List WolCandidate → ℕ → List WolCandidate × ℕ
narrow_step ips c matching best =
    if not (matches ips c)
    then (matching, best)
    else if ltb best (c.prefix + 1)
    then (c ∷ [], c.prefix + 1)
    else if c.prefix + 1 == best
    then (matching ++ c ∷ [], best)
    else (matching, best)

unfoldable pub narrow : List Ip → List WolCandidate → List WolCandidate → ℕ → List WolCandidate × ℕ
narrow ips [] matching best = (matching, best)
narrow ips (c ∷ cs) matching best =
    let (matching', best') = narrow_step ips c matching best in narrow ips cs matching' best'

-- `selected.ip[i] | ^selected.subnet.Mask[i]`
unfoldable pub broadcast : Ip → List ℕ → Ip
broadcast (a ∷ ip) (m ∷ mask) = bit_or 8 a (bit_not 8 m) ∷ broadcast ip mask
broadcast _ _ = []

-- The addresses of the target: its IP, or what its name resolves to.
abbrev pub resolve : Formats → Network → Text → Option (List Ip)
resolve f n target = elim (f.parse_ip target) [ none ↦ n.lookup target | some ip ↦ some (ip ∷ []) ]

-- An explicit interface with one address needs no target.
abbrev pub needs_target : Host → List WolCandidate → Bool
needs_target h cs = not (same h.ip []) && not (not (same h.wol_interface []) && length cs == 1)

abbrev pub only : List WolCandidate → Answer (Ip × Ip)
only [] = failed no_match
only (c ∷ []) = found (c.ip, broadcast c.ip c.subnet.mask)
only (c ∷ d ∷ cs) = failed ambiguous

unfoldable pub select_among : Formats → Network → Host → List WolCandidate → Answer (Ip × Ip)
unfolding narrow broadcast
select_among f n h [] = failed no_eligible_network
select_among f n h (c ∷ cs) =
    if needs_target h (c ∷ cs)
    then (elim (resolve f n h.ip) [
      | none ↦ failed resolve_target
      | some ips ↦ only (narrow ips (c ∷ cs) [] 0).0
    ])
    else only (c ∷ cs)

-- The local address, and the broadcast address, whose port is 9.
unfoldable pub select_wol_network : Formats → (ℕ → ℕ) → Host → Network → Answer (Ip × Ip)
unfolding candidates_of select_among
select_wol_network f unicode_lower h n = elim (candidates_of unicode_lower h n) [
  | failed e ↦ failed e
  | found cs ↦ select_among f n h cs
]

-- What was handed to the socket: the local and the remote address, and the packet.
abbrev pub Sent : Type 0
Sent = Ip × Ip × List ℕ

abbrev pub outcome : Bool → Answer (Unit {0})
outcome sent = if sent then found tt else failed send_packet

abbrev pub transmit : Network → List ℕ → Answer (Ip × Ip) → Option Sent × Answer (Unit {0})
transmit n mac (failed e) = (none, failed e)
transmit n mac (found (local, remote)) =
    (some (local, remote, magic_packet mac), outcome (n.send local remote (magic_packet mac)))

unfoldable pub send_wol : Formats → (ℕ → ℕ) → Host → Network → Option Sent × Answer (Unit {0})
unfolding select_wol_network magic_packet
send_wol f unicode_lower h n = elim (f.parse_mac h.mac) [
  | none ↦ (none, failed parse_mac)
  | some mac ↦
      if not (length mac == 6)
      then (none, failed not_six_bytes)
      else transmit n mac (select_wol_network f unicode_lower h n)
]
