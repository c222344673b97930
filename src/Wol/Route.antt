-- ===== src/Wol/Route.antt =====
-- backend/internal/wol/wol.go: what `sendWol` hands to the socket.
use mathlib.Core.List.{Memᴰ}
use wol_secure_light_switch.Prelude.{
  ℕ, ◌+◌, ◌≡◌, refl, sym, subst, ◌∙◌, inl, inr, true, ◌&&◌, some, arith, List, [], ◌∷◌, ◌++◌, All,
  length, ◌==◌, Bool-cases, Option-cases,
}
use wol_secure_light_switch.Config.{Host, Formats}
use wol_secure_light_switch.Wol.{
  Ip, Network, Interface, WolCandidate, Answer, found, failed, to4, mask_ones, mask_size,
  needs_target, matches, same_network, broadcast, candidates_of, select_among, select_wol_network,
  magic_packet, Sent, outcome, transmit, send_wol,
}
use wol_secure_light_switch.Wol.Broadcast.{same_network-broadcast, repeat, magic_packet-repeat}
use wol_secure_light_switch.Wol.Candidates.{IsLocal, candidates_of-IsLocal}
use wol_secure_light_switch.Wol.Choice.{IsChoice, best_matches, select_among-IsChoice}

mem-best_matches :
    (ips : List Ip) (best : ℕ) (cs : List WolCandidate) (c : WolCandidate)
    → best_matches ips best cs ≡ c ∷ []
    → Memᴰ c cs
unfolding best_matches
mem-best_matches ips best [] c h = absurd (cc h)
mem-best_matches ips best (d ∷ cs) c h = elim (Bool-cases (matches ips d && d.prefix + 1 == best)) [
  | inl here ↦ Memᴰ.head (ground (arith, h))
  | inr other ↦ Memᴰ.tail (mem-best_matches ips best cs c (ground (arith, h)))
]

mem-IsChoice :
    (f : Formats) (n : Network) (h : Host) (cs : List WolCandidate) (c : WolCandidate)
    → IsChoice f n h cs c
    → Memᴰ c cs
mem-IsChoice f n h cs c v = elim (Bool-cases (needs_target h cs)) [
  | inr untargeted ↦
      subst (λ (l : List WolCandidate). Memᴰ c l) (sym (v.alone untargeted)) (Memᴰ.head refl)
  | inl targeted ↦
      let (ips, _, _, matching) = v.longest targeted in mem-best_matches ips _ cs c matching
]

All-mem {ℓ κ} : {A : Type ℓ} (P : A → Type κ) {a : A} (xs : List A) → All P xs → Memᴰ a xs → P a
All-mem P [] v m = elim m [ ]
All-mem P (b ∷ xs) v (Memᴰ.head e) = subst P (sym e) v.0
All-mem P (b ∷ xs) v (Memᴰ.tail m) = All-mem P xs v.1 m

-- A mask of 32 bits has four bytes, and so has an IPv4 address.
length_of_size : (mask : List ℕ) {prefix : ℕ} → mask_size mask ≡ (prefix, 32) → length mask ≡ 4
unfolding mask_size
length_of_size mask {prefix} e = elim (Option-cases (mask_ones mask)) [
  | inl no_mask ↦ absurd (ground (arith, e))
  | inr (ones, at) ↦ ground (arith, e)
]

length-to4 : (ip : Ip) {x : Ip} → to4 ip ≡ some x → length x ≡ 4
unfolding to4
length-to4 (a ∷ b ∷ c ∷ d ∷ []) {x} e = ground (arith, e)
length-to4 (p ∷ q ∷ r ∷ s ∷ t ∷ u ∷ v ∷ w ∷ y ∷ z ∷ g ∷ f ∷ a ∷ b ∷ c ∷ d ∷ []) {x} e =
    ground (arith, e)
length-to4 _ e = absurd (cc e)

module _ (f : Formats) (unicode_lower : ℕ → ℕ) (h : Host) (n : Network) where
  -- A packet that is right: the magic packet of the host's address, from the address of the one
  -- candidate that is the choice to the broadcast address of its network.
  pub record IsRoute (local remote : Ip) (packet : List ℕ) : Type 0 where
    pub mac : List ℕ
    pub parsed : f.parse_mac h.mac ≡ some mac
    pub six : length mac ≡ 6
    pub magic : packet ≡ repeat 6 (255 ∷ []) ++ repeat 16 mac
    pub candidates : List WolCandidate
    pub collected : candidates_of unicode_lower h n ≡ found candidates
    pub chosen : WolCandidate
    pub choice : IsChoice f n h candidates chosen
    pub local_interface :
        (interfaces : List Interface) × (n.interfaces ≡ some interfaces)
        × IsLocal unicode_lower h interfaces chosen
    pub from_local : chosen.ip ≡ local
    pub to_broadcast : broadcast chosen.ip chosen.subnet.mask ≡ remote
    pub same_subnet : same_network chosen.subnet.mask local remote ≡ true

  route :
      (mac : List ℕ) (local remote : Ip) (cs : List WolCandidate)
      → f.parse_mac h.mac ≡ some mac
      → length mac ≡ 6
      → candidates_of unicode_lower h n ≡ found cs
      → select_among f n h cs ≡ found (local, remote)
      → IsRoute local remote (magic_packet mac)
  route mac local remote cs parsed six collected selected =
      let (c, choice, at_ip, at_remote) =
        select_among-IsChoice f n h cs {local = local} {remote = remote} selected in
      let (interfaces, read, all_local) =
        candidates_of-IsLocal unicode_lower h n {cs = cs} collected in
      let v =
        All-mem (IsLocal unicode_lower h interfaces) cs all_local
          (mem-IsChoice f n h cs c choice) in
      let same_length : length c.ip ≡ length c.subnet.mask =
        length-to4 c.subnet.ip {x = c.ip} v.same_ip
        ∙ sym (length_of_size c.subnet.mask {prefix = c.prefix} v.same_prefix) in
      record {
        mac = mac;
        parsed = parsed;
        six = six;
        magic = magic_packet-repeat mac six;
        candidates = cs;
        collected = collected;
        chosen = c;
        choice = choice;
        local_interface = (interfaces, read, v);
        from_local = at_ip;
        to_broadcast = at_remote;
        same_subnet =
            rw (← at_ip, ← at_remote) (same_network-broadcast c.subnet.mask c.ip same_length);
      }

  -- If something is handed to the socket, it is the magic packet of the host's six-byte MAC
  -- address, from an address of an eligible local interface to the broadcast address of its
  -- network; the network is the only candidate, or, where the target's address decides, the only
  -- one with the longest prefix of those that contain it. The answer is then the socket's.
  pub send_wol-IsRoute :
      {local remote : Ip} {packet : List ℕ}
      → (send_wol f unicode_lower h n).0 ≡ some (local, remote, packet)
      → IsRoute local remote packet
        × ((send_wol f unicode_lower h n).1 ≡ outcome (n.send local remote packet))
  unfolding send_wol
  send_wol-IsRoute {local} {remote} {packet} e = elim (Option-cases (f.parse_mac h.mac)) [
    | inl no_mac ↦ absurd (cc (rw (no_mac, send_wol) at e))
    | inr (mac, parsed) ↦ elim (Bool-cases (length mac == 6)) [
      | inr other ↦ absurd (cc (rw (parsed, other, send_wol) at e))
      | inl six ↦
          rw (parsed, six, send_wol)
            (by_route mac parsed (ground arith) (select_wol_network f unicode_lower h n) refl
              (rw (parsed, six, send_wol) at e))
    ]
  ]
    where
      by_candidates :
          (l r : Ip) (mac : List ℕ)
          → f.parse_mac h.mac ≡ some mac
          → length mac ≡ 6
          → (cs : Answer (List WolCandidate)) → candidates_of unicode_lower h n ≡ cs
          → select_wol_network f unicode_lower h n ≡ found (l, r)
          → IsRoute l r (magic_packet mac)
      by_candidates l r mac parsed six (failed x) at_cs s =
          absurd (unfold select_wol_network in cc (rw (at_cs, select_wol_network) at s))
      by_candidates l r mac parsed six (found cs) at_cs s =
          route mac l r cs parsed six at_cs
            (unfold select_wol_network in rw (at_cs, select_wol_network) at s)

      by_route :
          (mac : List ℕ)
          → f.parse_mac h.mac ≡ some mac
          → length mac ≡ 6
          → (answer : Answer (Ip × Ip)) → select_wol_network f unicode_lower h n ≡ answer
          → (transmit n mac answer).0 ≡ some (local, remote, packet)
          → IsRoute local remote packet
            × ((transmit n mac answer).1 ≡ outcome (n.send local remote packet))
      by_route mac parsed six (failed x) selected s = absurd (cc s)
      by_route mac parsed six (found (l, r)) selected s =
          let sent : (l, r, magic_packet mac) ≡ (local, remote, packet) = cc s in
          subst
            (λ (p : Sent).
              IsRoute p.0 p.1 p.2
              × (outcome (n.send l r (magic_packet mac)) ≡ outcome (n.send p.0 p.1 p.2)))
            sent
            (by_candidates l r mac parsed six (candidates_of unicode_lower h n) refl selected, refl)
