-- ===== src/Examples/Networks.antt =====
-- The theorems on Wake-on-LAN at one interface with one network.
use wol_secure_light_switch.Prelude.{
  ℕ, ◌≡◌, refl, true, false, some, List, [], ◌∷◌, codes, text_dec, to_lower,
}
use wol_secure_light_switch.Wol.{
  Ip, IpNet, ip_net, Network, same_network, broadcast, magic_packet, send_wol, outcome,
  select_wol_network, select_among, narrow, narrow_step, matches, contains, to4, mask_size,
  mask_ones, has_candidate, is_global_unicast, is_link_local_unicast, add_address, add_addresses,
  visit, collect, candidates_of, is_eligible, is_skipped,
}
use wol_secure_light_switch.Wol.Bits.{bit_and, bit_or, bit_not}
use wol_secure_light_switch.Wol.Route.{IsRoute, send_wol-IsRoute}
use wol_secure_light_switch.Examples.Documents.{nas, formats}

abbrev lan : IpNet
lan = record { ip = 192 ∷ 168 ∷ 1 ∷ 2 ∷ []; mask = 255 ∷ 255 ∷ 255 ∷ 0 ∷ [] }

abbrev network : Network
network = record {
  interfaces = some (
      record {
        index = 1;
        name = codes "lan";
        is_up = true;
        is_loopback = false;
        is_broadcast = true;
      }
      ∷ []);
  addrs = λ iface. some (ip_net lan ∷ []);
  lookup = λ name. some ((192 ∷ 168 ∷ 1 ∷ 100 ∷ []) ∷ []);
  send = λ local remote packet. true;
}

abbrev mac : List ℕ
mac = 0 ∷ 0 ∷ 94 ∷ 0 ∷ 83 ∷ 1 ∷ []

abbrev everyone : Ip
everyone = 192 ∷ 168 ∷ 1 ∷ 255 ∷ []

sent : (send_wol formats (λ u. u) nas network).0 ≡ some (lan.ip, everyone, magic_packet mac)
unfolding send_wol select_wol_network select_among narrow narrow_step matches contains to4 mask_size
    mask_ones has_candidate is_global_unicast is_link_local_unicast add_address add_addresses visit
    collect candidates_of is_eligible is_skipped same_network broadcast bit_and bit_or bit_not
    text_dec to_lower
sent = refl

send_wol-IsRoute_example :
    IsRoute formats (λ u. u) nas network lan.ip everyone (magic_packet mac)
    × ((send_wol formats (λ u. u) nas network).1
        ≡ outcome (network.send lan.ip everyone (magic_packet mac)))
send_wol-IsRoute_example =
    send_wol-IsRoute formats (λ u. u) nas network {local = lan.ip} {remote = everyone}
      {packet = magic_packet mac} sent
