-- ===== src/Wol/Choice.antt =====
-- backend/internal/wol/wol.go: which network is chosen.
use wol_secure_light_switch.Prelude.{
  ℕ, ◌+◌, ◌≤◌, ◌≡◌, refl, inl, inr, sym, subst, true, false, ◌&&◌, some, arith, List, [], ◌∷◌, ◌++◌,
  All, ◌==◌, ltb, Bool-cases, Option-cases, if◌then◌else◌,
}
use mathlib.Core.List.{append-nil, append_assoc}
use wol_secure_light_switch.Config.{Host, Formats}
use wol_secure_light_switch.Wol.{
  Ip, Network, WolCandidate, found, matches, narrow_step, narrow, only, needs_target, resolve,
  broadcast, select_among,
}

-- The candidates whose subnet holds an address of the target and whose prefix has a length, in
-- order; the length is given plus one.
unfoldable pub best_matches : List Ip → ℕ → List WolCandidate → List WolCandidate
best_matches ips best [] = []
best_matches ips best (c ∷ cs) =
    let rest = best_matches ips best cs in
    if matches ips c && c.prefix + 1 == best then c ∷ rest else rest

-- No candidate that matches has a longer prefix.
abbrev pub NoLonger : List Ip → ℕ → List WolCandidate → Type 0
NoLonger ips best = All (λ c. matches ips c ≡ true → c.prefix + 1 ≤ best)

module _ (ips : List Ip) where
  abbrev kept : ℕ → ℕ → List WolCandidate → List WolCandidate
  kept start best m = if best == start then m else []

  abbrev Narrowed : List WolCandidate → List WolCandidate → ℕ → List WolCandidate × ℕ → Type 0
  Narrowed cs m b (matching, best) =
      (b ≤ best) × NoLonger ips best cs × (matching ≡ kept b best m ++ best_matches ips best cs)

  advance :
      (c : WolCandidate) (cs m m' : List WolCandidate) (b b' : ℕ)
      → narrow_step ips c m b ≡ (m', b')
      → Narrowed (c ∷ cs) m b (narrow ips cs m' b')
      → Narrowed (c ∷ cs) m b (narrow ips (c ∷ cs) m b)
  unfolding narrow
  advance c cs m m' b b' e h =
      subst (λ (s : List WolCandidate × ℕ). Narrowed (c ∷ cs) m b (narrow ips cs s.0 s.1)) (sym e) h

  -- The loop keeps exactly the matches with the longest prefix.
  narrow-best_matches : (cs m : List WolCandidate) (b : ℕ) → Narrowed cs m b (narrow ips cs m b)
  unfolding narrow best_matches
  narrow-best_matches [] m b = (omega arith, tt, ground (arith, append-nil m))
  narrow-best_matches (c ∷ cs) m b = elim (Bool-cases (matches ips c)) [
    | inr other ↦
        let (up, longest, list) = narrow-best_matches cs m b in
        advance c cs m m b b (unfold narrow_step in ground arith)
          (up, (λ e. absurd (cc (e, other)), longest), ground (arith, list))
    | inl here ↦ elim (Bool-cases (ltb b (c.prefix + 1))) [
      | inl longer ↦
          let (up, longest, list) = narrow-best_matches cs (c ∷ []) (c.prefix + 1) in
          advance c cs m (c ∷ []) b (c.prefix + 1) (unfold narrow_step in ground arith)
            (ground arith, (λ e. up, longest), ground (arith, list))
      | inr short ↦ elim (Bool-cases (c.prefix + 1 == b)) [
        | inl tie ↦
            let (up, longest, list) = narrow-best_matches cs (m ++ c ∷ []) b in
            advance c cs m (m ++ c ∷ []) b b (unfold narrow_step in ground arith) (
              up,
              (λ e. ground arith, longest),
              ground (
                arith,
                list,
                append_assoc m (c ∷ []) (best_matches ips (narrow ips cs (m ++ c ∷ []) b).1 cs),
              ),
            )
        | inr less ↦
            let (up, longest, list) = narrow-best_matches cs m b in
            advance c cs m m b b (unfold narrow_step in ground arith)
              (up, (λ e. ground arith, longest), ground (arith, list))
      ]
    ]
  ]

-- What makes a candidate the choice: it is the only one, or the only match with the longest prefix.
pub record IsChoice (f : Formats) (n : Network) (h : Host) (cs : List WolCandidate)
    (c : WolCandidate) : Type 0 where
  pub alone : needs_target h cs ≡ false → cs ≡ c ∷ []
  pub longest :
      needs_target h cs ≡ true
      → (ips : List Ip) × (resolve f n h.ip ≡ some ips)
        × NoLonger ips (c.prefix + 1) cs
        × (best_matches ips (c.prefix + 1) cs ≡ c ∷ [])

only_found :
    (cs : List WolCandidate) {local remote : Ip}
    → only cs ≡ found (local, remote)
    → (c : WolCandidate) × (cs ≡ c ∷ []) × (c.ip ≡ local) × (broadcast c.ip c.subnet.mask ≡ remote)
only_found [] h = absurd (cc h)
only_found (c ∷ []) h = (c, refl, ground arith, ground arith)
only_found (c ∷ d ∷ cs) h = absurd (cc h)

-- One list of matches: its length decides whether they match at all.
best_of_one :
    (ips : List Ip) (best : ℕ) (cs : List WolCandidate) (c : WolCandidate)
    → best_matches ips best cs ≡ c ∷ []
    → best ≡ c.prefix + 1
unfolding best_matches
best_of_one ips best [] c h = absurd (cc h)
best_of_one ips best (d ∷ cs) c h = elim (Bool-cases (matches ips d && d.prefix + 1 == best)) [
  | inl here ↦ ground (arith, h)
  | inr other ↦ best_of_one ips best cs c (ground (arith, h))
]

pub select_among-IsChoice :
    (f : Formats) (n : Network) (h : Host) (cs : List WolCandidate) {local remote : Ip}
    → select_among f n h cs ≡ found (local, remote)
    → (c : WolCandidate) × IsChoice f n h cs c
      × (c.ip ≡ local)
      × (broadcast c.ip c.subnet.mask ≡ remote)
unfolding select_among
select_among-IsChoice f n h [] e = absurd (cc e)
select_among-IsChoice f n h (d ∷ cs) {local} {remote} e =
    elim (Bool-cases (needs_target h (d ∷ cs))) [
      | inr untargeted ↦
          let (c, one, at_ip, at_remote) =
            only_found (d ∷ cs) {local = local} {remote = remote}
              (rw (untargeted, select_among) at e) in
          (
            c,
            record { alone = λ _. one; longest = λ t. absurd (cc (t, untargeted)) },
            at_ip,
            at_remote,
          )
      | inl targeted ↦ elim (Option-cases (resolve f n h.ip)) [
        | inl lost ↦ absurd (cc (rw (targeted, lost, select_among) at e))
        | inr (ips, resolved) ↦
            let (c, one, at_ip, at_remote) =
              only_found (narrow ips (d ∷ cs) [] 0).0 {local = local} {remote = remote}
                (rw (targeted, resolved, select_among) at e) in
            let (up, longest, list) = narrow-best_matches ips (d ∷ cs) [] 0 in
            let best = (narrow ips (d ∷ cs) [] 0).1 in
            let matching : best_matches ips best (d ∷ cs) ≡ c ∷ [] = ground (arith, list, one) in
            let at_best : best ≡ c.prefix + 1 = best_of_one ips best (d ∷ cs) c matching in
            (
              c,
              record {
                alone = λ t. absurd (cc (t, targeted));
                longest = λ _. (
                  ips,
                  resolved,
                  subst (λ (k : ℕ). NoLonger ips k (d ∷ cs)) at_best longest,
                  subst (λ (k : ℕ). best_matches ips k (d ∷ cs) ≡ c ∷ []) at_best matching,
                );
              },
              at_ip,
              at_remote,
            )
      ]
    ]
