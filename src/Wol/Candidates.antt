-- ===== src/Wol/Candidates.antt =====
-- backend/internal/wol/wol.go: where the candidates come from.
use mathlib.Core.List.{Memᴰ}
use wol_secure_light_switch.Prelude.{
  ℕ, ◌≤◌, ◌≡◌, refl, subst, inl, inr, true, false, not, ◌||◌, Option, none, some, arith, List, [],
  ◌∷◌, ◌++◌, All, ◌==◌, ltb, Bool-cases, Option-cases,
}
use wol_secure_light_switch.Config.{Host}
use wol_secure_light_switch.Wol.{
  Ip, Addr, ip_net, other_addr, Network, Interface, WolCandidate, found, to4, usable,
  is_global_unicast, is_link_local_unicast, mask_size, has_candidate, add_address, add_addresses,
  is_eligible, visit, collect, candidates_of,
}

module _ (unicode_lower : ℕ → ℕ) (h : Host) (interfaces : List Interface) where
  -- A candidate is a global IPv4 address, with a network of prefix 30 at most, of an interface that
  -- may be used.
  pub record IsLocal (c : WolCandidate) : Type 0 where
    pub interface : Interface
    pub listed : Memᴰ interface interfaces
    pub eligible : is_eligible unicode_lower h interface ≡ true
    pub same_index : c.iface ≡ interface.index
    pub same_ip : to4 c.subnet.ip ≡ some c.ip
    pub global : is_global_unicast c.ip ≡ true
    pub not_link_local : is_link_local_unicast c.ip ≡ false
    pub short : c.prefix ≤ 30
    pub same_prefix : mask_size c.subnet.mask ≡ (c.prefix, 32)

  All-snoc :
      (cs : List WolCandidate) (c : WolCandidate)
      → All IsLocal cs
      → IsLocal c
      → All IsLocal (cs ++ c ∷ [])
  All-snoc [] c a v = (v, tt)
  All-snoc (d ∷ cs) c (w, a) v = (w, All-snoc cs c a v)

  usable_ip :
      (o : Option Ip) {ip : Ip}
      → usable o ≡ some ip
      → (o ≡ some ip) × (is_global_unicast ip ≡ true) × (is_link_local_unicast ip ≡ false)
  usable_ip none h = absurd (cc h)
  usable_ip (some x) {ip} h =
      elim (Bool-cases (not (is_global_unicast x) || is_link_local_unicast x)) [
        | inl bad ↦ absurd (ground (arith, h))
        | inr good ↦ ground (arith, h)
      ]

  module _ (i : Interface) (listed : Memᴰ i interfaces)
      (fit : is_eligible unicode_lower h i ≡ true) where
    add_address-IsLocal :
        (cs : List WolCandidate) (a : Addr) → All IsLocal cs → All IsLocal (add_address i cs a)
    unfolding add_address
    add_address-IsLocal cs other_addr v = v
    add_address-IsLocal cs (ip_net subnet) v = elim (Option-cases (usable (to4 subnet.ip))) [
      | inl unusable ↦ rw (unusable, add_address) v
      | inr (ip, at) ↦
          let (same_ip, global, not_link_local) = usable_ip (to4 subnet.ip) {ip = ip} at in
          elim (Bool-cases (
            not ((mask_size subnet.mask).1 == 32)
            || ltb 30 (mask_size subnet.mask).0
            || has_candidate i.index ip (mask_size subnet.mask).0 cs)) [
              | inl skip ↦ rw (at, skip, add_address) v
              | inr add ↦
                  rw (at, add, add_address)
                    (All-snoc cs _ v (record {
                      interface = i;
                      listed = listed;
                      eligible = fit;
                      same_index = refl;
                      same_ip = same_ip;
                      global = global;
                      not_link_local = not_link_local;
                      short = ground arith;
                      same_prefix = ground arith;
                    }))
            ]
    ]

    add_addresses-IsLocal :
        (cs : List WolCandidate) (addresses : List Addr)
        → All IsLocal cs
        → All IsLocal (add_addresses i cs addresses)
    unfolding add_addresses
    add_addresses-IsLocal cs [] v = v
    add_addresses-IsLocal cs (a ∷ addresses) v =
        add_addresses-IsLocal (add_address i cs a) addresses (add_address-IsLocal cs a v)

  module _ (n : Network) where
    collect-IsLocal :
        (rest : List Interface) (cs : List WolCandidate) {result : List WolCandidate}
        → ((i : Interface) → Memᴰ i rest → Memᴰ i interfaces)
        → All IsLocal cs
        → collect unicode_lower h n cs rest ≡ found result
        → All IsLocal result
    unfolding collect visit
    collect-IsLocal [] cs {result} within v e =
        let same_list : cs ≡ result = ground (arith, e) in
        subst (λ (l : List WolCandidate). All IsLocal l) same_list v
    collect-IsLocal (i ∷ rest) cs {result} within v e =
        elim (Bool-cases (is_eligible unicode_lower h i)) [
          | inr skip ↦
              collect-IsLocal rest cs {result = result} (λ j m. within j (Memᴰ.tail m)) v
                (rw (skip, collect, visit) at e)
          | inl fit ↦ elim (Option-cases (n.addrs i)) [
            | inl lost ↦ absurd (cc (rw (fit, lost, collect, visit) at e))
            | inr (addresses, at_i) ↦
                collect-IsLocal rest (add_addresses i cs addresses) {result = result}
                  (λ j m. within j (Memᴰ.tail m))
                  (add_addresses-IsLocal i (within i (Memᴰ.head refl)) fit cs addresses v)
                  (rw (fit, at_i, collect, visit) at e)
          ]
        ]

pub candidates_of-IsLocal :
    (unicode_lower : ℕ → ℕ) (h : Host) (n : Network) {cs : List WolCandidate}
    → candidates_of unicode_lower h n ≡ found cs
    → (interfaces : List Interface) × (n.interfaces ≡ some interfaces)
      × All (IsLocal unicode_lower h interfaces) cs
unfolding candidates_of
candidates_of-IsLocal unicode_lower h n {cs} e = elim (Option-cases n.interfaces) [
  | inl lost ↦ absurd (cc (rw lost at e))
  | inr (interfaces, read) ↦ (
    interfaces,
    read,
    collect-IsLocal unicode_lower h interfaces n interfaces [] {result = cs} (λ i m. m) tt
        (rw read at e),
  )
]
