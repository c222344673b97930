-- ===== src/Monitor/Progress.antt =====
-- backend/internal/device/monitor.go: that a check starts each probe that is due while it may.
use wol_secure_light_switch.Prelude.{
  ℕ, ◌≡◌, refl, sym, subst, ◌⊎◌, true, false, some, arith, List, [], ◌∷◌, All, text_dec, Bool-cases,
  Option-cases, ◌*◌, ◌-◌, ◌%◌, ◌^◌, ◌<◌, ◌≤◌, inl, inr, ◌∙◌, if_pos, if_neg, length, ap,
}
use wol_secure_light_switch.Prelude.Map.{lookup, lookup-put, retain}
use wol_secure_light_switch.Limiter.{second}
use wol_secure_light_switch.Config.{Host, is_given}
use wol_secure_light_switch.Monitor.Rounds.{skips, ended, passed, begun, round}
use wol_secure_light_switch.Monitor.{
  PingFlight, Manager, interval_seconds, shorter_than, start_probe, start_probes,
  max_concurrent_pings, configure, invalidate, check_hosts,
}

-- A host that needs no probe: one is in flight, or the last one started less than its interval ago.
abbrev pub IsServed : ℕ → Manager → Host → Type 0
IsServed now m host =
    (is_given (lookup host.id m.in_flight) ≡ true)
    ⊎ ((last : ℕ) × (lookup host.id m.last_ping_times ≡ some last)
        × (now - last < interval_seconds host.ping_interval * second))

-- No further probe may be started, or no host needs one.
abbrev pub IsSpent : ℕ → Manager → List Host → Type 0
IsSpent now m hosts = (length m.in_flight ≡ max_concurrent_pings) ⊎ All (IsServed now m) hosts

-- The product that wraps is no longer than the one that does not.
shorter_than-lt :
    (elapsed interval : ℕ) → shorter_than elapsed interval ≡ true → elapsed < interval * second
unfolding shorter_than
shorter_than-lt elapsed interval h =
    let wrapped : (interval * second) % 2 ^ 64 ≤ interval * second = ground arith in
    ground (arith, wrapped)

module _ (now : ℕ) where
  start_probe-IsServed :
      (m : Manager) (host other : Host)
      → (host.id ≡ other.id) ⊎ IsServed now m other
      → IsServed now (start_probe m now host) other
  unfolding start_probe
  start_probe-IsServed m host other h =
      let flight : PingFlight = record { ip = host.ip; cancelled = false; valid = true } in
      elim (text_dec host.id other.id) [
        | yes p ↦ inl (
            ap is_given (
              lookup-put host.id other.id flight m.in_flight
              ∙ if_pos (text_dec host.id other.id) p _ _))
        | no p ↦ elim h [
          | inl e ↦ absurd (p e)
          | inr (inl flying) ↦ inl (
              ap is_given (
                lookup-put host.id other.id flight m.in_flight
                ∙ if_neg (text_dec host.id other.id) p _ _)
              ∙ flying)
          | inr (inr (last, pinged, short)) ↦ inr (
            last,
            lookup-put host.id other.id now m.last_ping_times
                ∙ if_neg (text_dec host.id other.id) p _ _
                ∙ pinged,
            short,
          )
        ]
      ]

  skips-IsServed : (m : Manager) (host : Host) → skips now m host ≡ true → IsServed now m host
  skips-IsServed m host h = elim (Bool-cases (is_given (lookup host.id m.in_flight))) [
    | inl flying ↦ inl flying
    | inr idle ↦ elim (Option-cases (lookup host.id m.last_ping_times)) [
      | inl never ↦ absurd (ground arith)
      | inr (last, at) ↦ inr (last, at, shorter_than-lt _ _ (ground arith))
    ]
  ]

  start_probes-IsServed :
      (hosts : List Host) (m : Manager) (other : Host)
      → IsServed now m other
      → IsServed now (start_probes false now hosts m) other
  start_probes-IsServed [] m other h = unfold start_probes in h
  start_probes-IsServed (host ∷ hosts) m other h = elim (round false now host hosts m) [
    | ended full e ↦ rw e h
    | passed skip e ↦ rw e (start_probes-IsServed hosts m other h)
    | begun free due e ↦ rw e (
        start_probes-IsServed hosts (start_probe m now host) other
          (start_probe-IsServed m host other (inr h)))
  ]

  IsSpent-cons :
      (hosts : List Host) (m : Manager) (host : Host)
      → IsServed now m host
      → IsSpent now (start_probes false now hosts m) hosts
      → IsSpent now (start_probes false now hosts m) (host ∷ hosts)
  IsSpent-cons hosts m host h spent = elim spent [
    | inl full ↦ inl full
    | inr served ↦ inr (start_probes-IsServed hosts m host h, served)
  ]

  start_probes-IsSpent :
      (hosts : List Host) (m : Manager) → IsSpent now (start_probes false now hosts m) hosts
  start_probes-IsSpent [] m = inr tt
  start_probes-IsSpent (host ∷ hosts) m = elim (round false now host hosts m) [
    | ended full e ↦ rw e (inl (ground arith))
    | passed skip e ↦
        by_round e
          (IsSpent-cons hosts m host (skips-IsServed m host skip) (start_probes-IsSpent hosts m))
    | begun free due e ↦
        let m' = start_probe m now host in
        by_round e (
          IsSpent-cons hosts m' host (start_probe-IsServed m host host (inl refl))
            (start_probes-IsSpent hosts m'))
  ]
    where
      by_round :
          {a b : Manager} → a ≡ b → IsSpent now b (host ∷ hosts) → IsSpent now a (host ∷ hosts)
      by_round e h = subst (λ r. IsSpent now r (host ∷ hosts)) (sym e) h

  -- After a check that loaded hosts, with the manager not told to stop, four probes are in flight,
  -- or each configured host has a probe in flight or had its last one started less than its
  -- interval ago.
  pub check_hosts-IsSpent :
      (hosts : List Host) (m : Manager) → IsSpent now (check_hosts false now (some hosts) m) hosts
  unfolding check_hosts
  check_hosts-IsSpent hosts m =
      let configured = configure [] hosts in
      let (flights, times) =
        invalidate configured m.in_flight
          (retain (λ id _. is_given (lookup id configured)) m.last_ping_times) in
      start_probes-IsSpent hosts (record m {
        last_ping_times = times;
        in_flight = flights;
        status = retain (λ id _. is_given (lookup id configured)) m.status;
      })
