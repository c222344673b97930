-- ===== src/Monitor/Flights.antt =====
-- backend/internal/device/monitor.go: the probes in flight.
use wol_secure_light_switch.Prelude.{
  ℕ, ◌≤◌, ◌<◌, ◌≡◌, refl, Bool, true, false, Option, none, some, arith, List, [], ◌∷◌, Text, length,
}
use wol_secure_light_switch.Prelude.Map.{
  Map, lookup, put, retain, Distinct, erase-Distinct, put-Distinct, retain-Distinct,
  length-erase-le,
}
use wol_secure_light_switch.Config.{Host, is_given}
use wol_secure_light_switch.Monitor.Rounds.{ended, passed, begun, round}
use wol_secure_light_switch.Monitor.{
  HostState, PingFlight, PingResult, Manager, Event, tick, landed, max_concurrent_pings, configure,
  invalidate, start_probe, start_probes, check_hosts, store_result, on_result, step, run,
}

-- The maps are maps, and no more probes are in flight than may be.
pub record IsValid (m : Manager) : Type 0 where
  pub bounded : length m.in_flight ≤ max_concurrent_pings
  pub flights : Distinct m.in_flight
  pub statuses : Distinct m.status

start_probe-IsValid :
    (m : Manager) (now : ℕ) (host : Host)
    → length m.in_flight < max_concurrent_pings
    → IsValid m
    → IsValid (start_probe m now host)
unfolding start_probe
start_probe-IsValid m now host room v = record {
  bounded = unfold put in omega (arith, length-erase-le host.id m.in_flight);
  flights =
      put-Distinct host.id (record { ip = host.ip; cancelled = false; valid = true }) m.in_flight
        v.flights;
  statuses = v.statuses;
}

start_probes-IsValid :
    (stopping : Bool) (now : ℕ) (hosts : List Host) (m : Manager)
    → IsValid m
    → IsValid (start_probes stopping now hosts m)
start_probes-IsValid stopping now [] m v = unfold start_probes in v
start_probes-IsValid stopping now (host ∷ hosts) m v = elim (round stopping now host hosts m) [
  | ended full e ↦ rw e v
  | passed skip e ↦ rw e (start_probes-IsValid stopping now hosts m v)
  | begun free due e ↦ rw e (
      start_probes-IsValid stopping now hosts (start_probe m now host)
        (start_probe-IsValid m now host (ground (arith, v.bounded)) v))
]

module _ (configured : Map Host) where
  -- Invalidation keeps the keys.
  invalidate-none :
      (q : Text) (m : Map PingFlight) (times : Map ℕ)
      → lookup q m ≡ none
      → lookup q (invalidate configured m times).0 ≡ none
  unfolding lookup invalidate
  invalidate-none q [] times h = refl
  invalidate-none q ((id, flight) ∷ m) times h = ground (arith, invalidate-none q m times)

  invalidate-Distinct :
      (m : Map PingFlight) (times : Map ℕ) → Distinct m → Distinct (invalidate configured m times).0
  unfolding invalidate
  invalidate-Distinct [] times d = tt
  invalidate-Distinct ((id, flight) ∷ m) times d =
      ground (arith, invalidate-Distinct m times d.1, invalidate-none id m times d.0)

  pub length-invalidate :
      (m : Map PingFlight) (times : Map ℕ) → length (invalidate configured m times).0 ≡ length m
  unfolding invalidate
  length-invalidate [] times = refl
  length-invalidate ((id, flight) ∷ m) times = ground (arith, length-invalidate m times)

pub check_hosts-IsValid :
    (stopping : Bool) (now : ℕ) (loaded : Option (List Host)) (m : Manager)
    → IsValid m
    → IsValid (check_hosts stopping now loaded m)
unfolding check_hosts
check_hosts-IsValid stopping now none m v = v
check_hosts-IsValid stopping now (some hosts) m v =
    let configured = configure [] hosts in
    let times = retain (λ id _. is_given (lookup id configured)) m.last_ping_times in
    start_probes-IsValid stopping now hosts _ (record {
      bounded = omega (arith, length-invalidate configured m.in_flight times, v.bounded);
      flights = invalidate-Distinct configured m.in_flight times v.flights;
      statuses = retain-Distinct (λ id _. is_given (lookup id configured)) m.status v.statuses;
    })

module _ (format_time : ℕ → Text) where
  store_result-Distinct :
      (status : Map HostState) (result : PingResult) (now : ℕ)
      → Distinct status
      → Distinct (store_result format_time status result now)
  unfolding store_result
  store_result-Distinct status result now d = put-Distinct result.id _ status d

  pub on_result-IsValid :
      (result : PingResult) (now : ℕ) (m : Manager)
      → IsValid m
      → IsValid (on_result format_time result now m)
  on_result-IsValid result now m v = record {
    bounded = unfold on_result in ground (arith, length-erase-le result.id m.in_flight, v.bounded);
    flights =
        unfold on_result in
        ground (arith, erase-Distinct result.id m.in_flight v.flights, v.flights);
    statuses =
        unfold on_result in
        ground (arith, v.statuses, store_result-Distinct m.status result now v.statuses);
  }

  -- After any sequence of events on a valid manager at most four probes are in flight, no host has
  -- two, and no host has two states.
  pub run-IsValid_flights :
      (m : Manager) (es : List Event) → IsValid m → IsValid (run format_time m es)
  unfolding run step
  run-IsValid_flights m [] v = v
  run-IsValid_flights m (tick stopping now loaded ∷ es) v =
      run-IsValid_flights (check_hosts stopping now loaded m) es
        (check_hosts-IsValid stopping now loaded m v)
  run-IsValid_flights m (landed result now ∷ es) v =
      run-IsValid_flights (on_result format_time result now m) es (on_result-IsValid result now m v)
