-- ===== src/Monitor/Spacing.antt =====
-- backend/internal/device/monitor.go: how far apart the probes of a host are, over time.
use wol_secure_light_switch.Prelude.{
  ℕ, ◌≡◌, refl, sym, ap, ◌∙◌, Bool, true, none, some, arith, List, [], ◌∷◌, Text, text_dec, All,
  same_eq,
}
use wol_secure_light_switch.Prelude.Map.{Map, lookup, put, erase, retain, lookup-erase_ne}
use wol_secure_light_switch.Config.{Host, is_given}
use wol_secure_light_switch.Monitor.Rounds.{ended, passed, begun, round}
use wol_secure_light_switch.Monitor.Pacing.{
  probes_of, IsNotDue, not_same, still_known, start_probes-paced,
}
use wol_secure_light_switch.Monitor.{
  PingFlight, PingResult, Manager, Event, tick, landed, configure, same_target, invalidate,
  start_probe, start_probes, check_hosts, on_result, step, run,
}

-- The table of hosts has the id at the address.
abbrev pub IsAt : Text → Text → List Host → Type 0
IsAt id ip hosts = (host : Host) × (lookup id (configure [] hosts) ≡ some host) × (host.ip ≡ ip)

module _ (id ip : Text) (last : ℕ) where
  abbrev pub IsAimed : Text × PingFlight → Type 0
  IsAimed (j, flight) = j ≡ id → flight.ip ≡ ip

  -- The last probe of the id started at `last`, and a flight of the id is one to the address.
  pub record IsPaced (m : Manager) : Type 0 where
    pub known : lookup id m.last_ping_times ≡ some last
    pub aimed : All IsAimed m.in_flight

  -- A check that comes early for the id, and finds it where it was.
  abbrev pub IsEarly : Event → Type 0
  IsEarly (tick stopping now none) = Unit
  IsEarly (tick stopping now (some hosts)) = IsAt id ip hosts × All (IsNotDue id last now) hosts
  IsEarly (landed result now) = Unit

  erase-IsAimed : (k : Text) (m : Map PingFlight) → All IsAimed m → All IsAimed (erase k m)
  unfolding erase
  erase-IsAimed k [] a = tt
  erase-IsAimed k ((j, flight) ∷ m) (a, rest) = ground (arith, a, erase-IsAimed k m rest)

  retain_known :
      {V : Type 0} (keeps : Text → Bool) (m : Map V)
      → keeps id ≡ true
      → lookup id (retain (λ k _. keeps k) m) ≡ lookup id m
  unfolding lookup retain
  retain_known keeps [] h = refl
  retain_known keeps ((j, v) ∷ m) h = ground (arith, h, retain_known keeps m)

  invalidate-IsAimed :
      (configured : Map Host) (m : Map PingFlight) (times : Map ℕ)
      → All IsAimed m
      → All IsAimed (invalidate configured m times).0
  unfolding invalidate
  invalidate-IsAimed configured [] times a = tt
  invalidate-IsAimed configured ((j, flight) ∷ m) times (a, rest) =
      ground (arith, a, invalidate-IsAimed configured m times rest)

  -- A flight to the address is not called off, so the time of the last probe stays.
  invalidate_known :
      (configured : Map Host) (host : Host) (m : Map PingFlight) (times : Map ℕ)
      → lookup id configured ≡ some host
      → host.ip ≡ ip
      → All IsAimed m
      → lookup id (invalidate configured m times).1 ≡ lookup id times
  unfolding invalidate
  invalidate_known configured host [] times at here a = refl
  invalidate_known configured host ((j, flight) ∷ m) times at here (a, rest) =
      let kept = invalidate_known configured host m times at here rest in
      elim (text_dec j id) [
        | yes p ↦
            let target : same_target (lookup j configured) flight ≡ true =
              rw (p, at) (same_eq host.ip flight.ip (here ∙ sym (a p))) in
            rw target kept
        | no p ↦
            ground
              (arith, kept, lookup-erase_ne j id (invalidate configured m times).1 (λ q. p (sym q)))
      ]

  start_probes-IsPaced :
      (stopping : Bool) (now : ℕ) (hosts : List Host) (m : Manager)
      → All (IsNotDue id last now) hosts
      → IsPaced m
      → IsPaced (start_probes stopping now hosts m)
  start_probes-IsPaced stopping now [] m early s = unfold start_probes in s
  start_probes-IsPaced stopping now (host ∷ hosts) m (early, rest) s =
      elim (round stopping now host hosts m) [
        | ended full e ↦ rw e s
        | passed skip e ↦ rw e (start_probes-IsPaced stopping now hosts m rest s)
        | begun free due e ↦
            let other = not_same stopping now id last host m s.known early due in
            rw e (
              start_probes-IsPaced stopping now hosts (start_probe m now host) rest (record {
                known = still_known stopping now id last host m other s.known;
                aimed =
                    unfold start_probe put in
                    (λ p. absurd (other p), erase-IsAimed host.id m.in_flight s.aimed);
              }))
      ]

  -- The manager of a check, before it starts probes.
  abbrev checked : List Host → Manager → Manager
  checked hosts m =
      let configured = configure [] hosts in
      let times = retain (λ k _. is_given (lookup k configured)) m.last_ping_times in
      let (flights, times') = invalidate configured m.in_flight times in
      record m {
        last_ping_times = times';
        in_flight = flights;
        status = retain (λ k _. is_given (lookup k configured)) m.status;
      }

  checked-IsPaced :
      (hosts : List Host) (m : Manager) → IsAt id ip hosts → IsPaced m → IsPaced (checked hosts m)
  checked-IsPaced hosts m (host, at, here) s =
      let configured = configure [] hosts in
      let times = retain (λ k _. is_given (lookup k configured)) m.last_ping_times in
      record {
        known =
            invalidate_known configured host m.in_flight times at here s.aimed
            ∙ retain_known (λ k. is_given (lookup k configured)) m.last_ping_times (rw at refl)
            ∙ s.known;
        aimed = invalidate-IsAimed configured m.in_flight times s.aimed;
      }

  module _ (format_time : ℕ → Text) where
    on_result-IsPaced :
        (result : PingResult) (now : ℕ) (m : Manager)
        → IsPaced m
        → IsPaced (on_result format_time result now m)
    on_result-IsPaced result now m s = record {
      known = unfold on_result in ground (arith, s.known);
      aimed =
          unfold on_result in ground (arith, s.aimed, erase-IsAimed result.id m.in_flight s.aimed);
    }

    on_result-probes :
        (result : PingResult) (now : ℕ) (m : Manager)
        → (on_result format_time result now m).started ≡ m.started
    on_result-probes result now m = unfold on_result in ground arith

    -- If the last probe of an id started at a time that the manager knows, and the flights of the
    -- id are to one address: no sequence of events starts another probe of the id, as long as each
    -- check that loads hosts finds the id configured at that address, and comes less than its
    -- interval after that time, for an interval of 9223372036 seconds at most.
    pub run-spaced :
        (m : Manager) (es : List Event)
        → IsPaced m
        → All IsEarly es
        → probes_of id (run format_time m es).started ≡ probes_of id m.started
    unfolding run step check_hosts
    run-spaced m [] s h = refl
    run-spaced m (tick stopping now none ∷ es) s (_, rest) = run-spaced m es s rest
    run-spaced m (tick stopping now (some hosts) ∷ es) s ((at, early), rest) =
        let c = checked-IsPaced hosts m at s in
        run-spaced (start_probes stopping now hosts (checked hosts m)) es
          (start_probes-IsPaced stopping now hosts (checked hosts m) early c) rest
        ∙ start_probes-paced stopping now id last hosts (checked hosts m) c.known early
    run-spaced m (landed result now ∷ es) s (_, rest) =
        run-spaced (on_result format_time result now m) es (on_result-IsPaced result now m s) rest
        ∙ ap (probes_of id) (on_result-probes result now m)
