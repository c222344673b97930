-- ===== src/Proxies/Canonical.antt =====
-- backend/internal/auth/proxies.go: what an accepted list of proxies holds.
use wol_secure_light_switch.Prelude.{
  ℕ, ◌≡◌, refl, ◌≢◌, ◌⊎◌, inl, inr, subst, sym, Option, none, some, arith, List, [], ◌∷◌, Text,
  same, All, ◌==◌, Bool-cases, Option-cases, trim_space,
}
use wol_secure_light_switch.Prelude.Map.{Map, lookup, put, lookup-put}
use wol_secure_light_switch.Config.{split_on}
use wol_secure_light_switch.Proxies.{
  NetIp, has_slash, of_prefix, of_address, prepend, canonical, parse_proxies, parse_trusted_proxies,
}

-- No text stands twice.
abbrev pub AllDifferent : List Text → Type 0
AllDifferent [] = Unit
AllDifferent (proxy ∷ proxies) = All (λ q. q ≢ proxy) proxies × AllDifferent proxies

module _ (n : NetIp) where
  -- The text of a network that is not the whole space, or of an address without a zone.
  abbrev pub IsProxy : Text → Type 0
  IsProxy proxy =
      (part : Text) × (((bits : ℕ) × (n.parse_prefix part ≡ some (bits, proxy)) × (bits ≢ 0))
        ⊎ (n.parse_addr part ≡ some ([], proxy)))

  of_prefix-some :
      (o : Option (ℕ × Text)) {proxy : Text}
      → of_prefix o ≡ some proxy
      → (bits : ℕ) × (o ≡ some (bits, proxy)) × (bits ≢ 0)
  of_prefix-some none e = absurd (cc e)
  of_prefix-some (some (bits, masked)) {proxy} e = elim (Bool-cases (bits == 0)) [
    | inl all ↦ absurd (cc (rw all at e))
    | inr part ↦
        let same_text : masked ≡ proxy = ground (arith, e) in
        (bits, rw same_text refl, λ z. ground (arith, z))
  ]

  of_address-some :
      (o : Option (Text × Text)) {proxy : Text} → of_address o ≡ some proxy → o ≡ some ([], proxy)
  of_address-some none e = absurd (cc e)
  of_address-some (some (zone, text)) {proxy} e = ground (arith, e)

  canonical-IsProxy : (part : Text) {proxy : Text} → canonical n part ≡ some proxy → IsProxy proxy
  unfolding canonical
  canonical-IsProxy part {proxy} e = elim (Bool-cases (same part [])) [
    | inl blank ↦ absurd (cc (rw (blank, canonical) at e))
    | inr given ↦ elim (Bool-cases (has_slash part)) [
      | inl slash ↦ (
        part,
        inl (
            of_prefix-some (n.parse_prefix part) {proxy = proxy}
              (rw (given, slash, canonical) at e)),
      )
      | inr plain ↦ (
        part,
        inr (
            of_address-some (n.parse_addr part) {proxy = proxy}
              (rw (given, plain, canonical) at e)),
      )
    ]
  ]

  abbrev Fresh : Map (Unit {0}) → Text → Type 0
  Fresh seen proxy = IsProxy proxy × (lookup proxy seen ≡ none)

  unsee :
      (seen : Map (Unit {0})) (proxy : Text) (proxies : List Text)
      → All (Fresh (put proxy tt seen)) proxies
      → All (Fresh seen) proxies × All (λ q. q ≢ proxy) proxies
  unsee seen proxy [] a = (tt, tt)
  unsee seen proxy (q ∷ qs) ((v, fresh), a) =
      let (b, c) = unsee seen proxy qs a in
      (
        ((v, ground (arith, lookup-put proxy q tt seen)), b),
        (λ e. ground (arith, lookup-put proxy q tt seen), c),
      )

  prepend-some :
      (proxy : Text) (o : Option (List Text)) {result : List Text}
      → prepend proxy o ≡ some result
      → (rest : List Text) × (o ≡ some rest) × (result ≡ proxy ∷ rest)
  prepend-some proxy none e = absurd (cc e)
  prepend-some proxy (some rest) {result} e = (rest, refl, ground (arith, e))

  parse_proxies-Fresh :
      (parts : List Text) (seen : Map (Unit {0})) {result : List Text}
      → parse_proxies n seen parts ≡ some result
      → All (Fresh seen) result × AllDifferent result
  unfolding parse_proxies
  parse_proxies-Fresh [] seen {result} e =
      let empty : [] ≡ result = ground (arith, e) in
      subst (λ (l : List Text). All (Fresh seen) l × AllDifferent l) empty (tt, tt)
  parse_proxies-Fresh (part ∷ parts) seen {result} e =
      elim (Option-cases (canonical n (trim_space part))) [
        | inl bad ↦ absurd (cc (rw (bad, parse_proxies) at e))
        | inr (proxy, good) ↦ elim (Option-cases (lookup proxy seen)) [
          | inr (_, known) ↦
              parse_proxies-Fresh parts seen {result = result}
                (rw (good, known, parse_proxies) at e)
          | inl new ↦
              let (rest, parsed, same_list) =
                prepend-some proxy (parse_proxies n (put proxy tt seen) parts) {result = result}
                  (rw (good, new, parse_proxies) at e) in
              let (fresh, different) =
                parse_proxies-Fresh parts (put proxy tt seen) {result = rest} parsed in
              let (unseen, others) = unsee seen proxy rest fresh in
              subst (λ (l : List Text). All (Fresh seen) l × AllDifferent l) (sym same_list)
                (
                  ((canonical-IsProxy (trim_space part) {proxy = proxy} good, new), unseen),
                  (others, different),
                )
        ]
      ]

  IsProxy-of_Fresh : (seen : Map (Unit {0})) (l : List Text) → All (Fresh seen) l → All IsProxy l
  IsProxy-of_Fresh seen [] a = tt
  IsProxy-of_Fresh seen (q ∷ qs) ((v, _), a) = (v, IsProxy-of_Fresh seen qs a)

  -- If a list of trusted proxies is accepted, each entry is the canonical text of a network with
  -- at least one prefix bit or of an address without a zone, and no entry stands twice.
  pub parse_trusted_proxies-AllDifferent :
      (value : Text) {proxies : List Text}
      → parse_trusted_proxies n value ≡ some proxies
      → All IsProxy proxies × AllDifferent proxies
  unfolding parse_trusted_proxies
  parse_trusted_proxies-AllDifferent value {proxies} e =
      elim (Bool-cases (same (trim_space value) [])) [
        | inl blank ↦
            let empty : [] ≡ proxies = ground (arith, rw (blank, parse_trusted_proxies) at e) in
            subst (λ (l : List Text). All IsProxy l × AllDifferent l) empty (tt, tt)
        | inr given ↦
            let (fresh, different) =
              parse_proxies-Fresh (split_on b',' (trim_space value)) [] {result = proxies}
                (rw (given, parse_trusted_proxies) at e) in
            (IsProxy-of_Fresh [] proxies fresh, different)
      ]
