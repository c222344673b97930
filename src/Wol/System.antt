-- ===== src/Wol/System.antt =====
-- backend/internal/wol/wol.go: `SendWol`, which gives `sendWol` the interfaces, the resolver and the
-- sockets of package net, the record `Net`. A write tells how many bytes went out.
use wol_secure_light_switch.Prelude.{
  ℕ, ◌≡◌, ◌↔◌, Bool, true, false, Option, none, some, List, Text, length, ◌==◌, arith,
  if◌then◌else◌,
}
use wol_secure_light_switch.Config.{Host, Formats}
use wol_secure_light_switch.Wol.{Addr, Ip, Interface, Network, Sent, Answer, send_wol}

pub record Net : Type 0 where
  pub interfaces : Option (List Interface)
  pub addrs : Interface → Option (List Addr)
  pub lookup_ip4 : Text → Option (List Ip)
  pub dial_udp : Ip → Ip → Bool
  pub write : Ip → Ip → List ℕ → Option ℕ

abbrev all_written : Option ℕ → List ℕ → Bool
all_written none packet = false
all_written (some n) packet = n == length packet

-- A short write is an error.
unfoldable pub send_packet : Net → Ip → Ip → List ℕ → Bool
send_packet n local remote packet =
    if n.dial_udp local remote then all_written (n.write local remote packet) packet else false

abbrev pub system_network : Net → Network
system_network n = record {
  interfaces = n.interfaces;
  addrs = n.addrs;
  lookup = n.lookup_ip4;
  send = send_packet n;
}

unfoldable pub send_wol_packet : Formats → (ℕ → ℕ) → Host → Net → Option Sent × Answer (Unit {0})
send_wol_packet f unicode_lower h n = send_wol f unicode_lower h (system_network n)

-- A packet went out exactly when the socket opened and took every byte.
pub send_packet_iff :
    (n : Net) (local remote : Ip) (packet : List ℕ)
    → (send_packet n local remote packet ≡ true)
      ↔ ((n.dial_udp local remote ≡ true) × (n.write local remote packet ≡ some (length packet)))
unfolding send_packet
send_packet_iff n local remote packet = (λ h. ground (arith, h), λ h. ground (arith, h))
