-- ===== src/Monitor/Staleness.antt =====
-- backend/internal/device/monitor.go: a result of an old address or of a removed host is not shown.
use wol_secure_light_switch.Prelude.{
  ℕ, ◌≡◌, refl, ◌≢◌, ◌∙◌, Bool, true, false, Option, some, arith, List, [], ◌∷◌, Text, text_dec,
  if◌then◌else◌,
}
use wol_secure_light_switch.Prelude.Map.{Map, lookup, retain, lookup-put, lookup-retain, keep}
use wol_secure_light_switch.Config.{Host, is_given}
use wol_secure_light_switch.Monitor.Rounds.{ended, passed, begun, round}
use wol_secure_light_switch.Monitor.{
  HostState, PingFlight, PingResult, Manager, configure, same_target, invalidate, start_probe,
  start_probes, check_hosts, store_result, on_result, state,
}
use wol_secure_light_switch.Monitor.Flights.{IsValid}

-- A flight after the check of its host.
abbrev pub settle : Option Host → PingFlight → PingFlight
settle o flight =
    if same_target o flight then flight else record flight { cancelled = true; valid = false }

lookup-invalidate :
    (configured : Map Host) (q : Text) (m : Map PingFlight) (times : Map ℕ) {flight : PingFlight}
    → lookup q m ≡ some flight
    → lookup q (invalidate configured m times).0 ≡ some (settle (lookup q configured) flight)
unfolding lookup invalidate
lookup-invalidate configured q [] times h = absurd (cc h)
lookup-invalidate configured q ((id, fl) ∷ m) times {flight} h = elim (text_dec id q) [
  | yes here ↦ ground (arith, h)
  | no there ↦ ground (arith, lookup-invalidate configured q m times {flight = flight}, h)
]

-- Starting probes leaves the flights that there are, and what is shown.
start_probes-kept :
    (stopping : Bool) (now : ℕ) (hosts : List Host) (m : Manager) (q : Text) {flight : PingFlight}
    → lookup q m.in_flight ≡ some flight
    → lookup q (start_probes stopping now hosts m).in_flight ≡ some flight
start_probes-kept stopping now [] m q h = unfold start_probes in h
start_probes-kept stopping now (host ∷ hosts) m q {flight} h =
    elim (round stopping now host hosts m) [
      | ended full e ↦ rw e h
      | passed skip e ↦ rw e (start_probes-kept stopping now hosts m q {flight = flight} h)
      | begun free due e ↦ rw e (
          start_probes-kept stopping now hosts (start_probe m now host) q {flight = flight} (
            unfold start_probe in
            ground (
              arith,
              lookup-put host.id q (record { ip = host.ip; cancelled = false; valid = true })
                  m.in_flight,
              h,
            )))
    ]

pub start_probes-status :
    (stopping : Bool) (now : ℕ) (hosts : List Host) (m : Manager)
    → (start_probes stopping now hosts m).status ≡ m.status
unfolding start_probes start_probe
start_probes-status stopping now [] m = refl
start_probes-status stopping now (host ∷ hosts) m = ground (
  arith,
  start_probes-status stopping now hosts m,
  start_probes-status stopping now hosts (start_probe m now host),
)

-- After a check that loaded hosts, on a valid manager, the state of a configured host is the one
-- from before, and no other host has one.
pub lookup-check_hosts :
    (stopping : Bool) (now : ℕ) (hosts : List Host) (m : Manager) (id : Text)
    → IsValid m
    → lookup id (check_hosts stopping now (some hosts) m).status
      ≡ keep (λ _. is_given (lookup id (configure [] hosts))) (lookup id m.status)
unfolding check_hosts
lookup-check_hosts stopping now hosts m id v =
    let configured = configure [] hosts in
    let times = retain (λ k _. is_given (lookup k configured)) m.last_ping_times in
    rw
      (start_probes-status stopping now hosts (record m {
        last_ping_times = (invalidate configured m.in_flight times).1;
        in_flight = (invalidate configured m.in_flight times).0;
        status = retain (λ k _. is_given (lookup k configured)) m.status;
      }))
      (lookup-retain (λ k _. is_given (lookup k configured)) id m.status v.statuses)

-- If a check of the hosts finds that a host in flight is gone or has another address, the result
-- of that flight, when it lands next, changes no state.
pub stale_result_ignored :
    (format_time : ℕ → Text) (stopping : Bool) (now later : ℕ) (hosts : List Host) (m : Manager)
    (result : PingResult) (flight : PingFlight)
    → lookup result.id m.in_flight ≡ some flight
    → same_target (lookup result.id (configure [] hosts)) flight ≡ false
    → (on_result format_time result later (check_hosts stopping now (some hosts) m)).status
      ≡ (check_hosts stopping now (some hosts) m).status
stale_result_ignored format_time stopping now later hosts m result flight h moved =
    dropped (check_hosts stopping now (some hosts) m) after
  where
    after :
        lookup result.id (check_hosts stopping now (some hosts) m).in_flight
        ≡ some (record flight { cancelled = true; valid = false })
    after =
        unfold check_hosts in
        start_probes-kept stopping now hosts _ result.id (
          lookup-invalidate (configure [] hosts) result.id m.in_flight _ {flight = flight} h
          ∙ rw moved refl)

    dropped :
        (n : Manager)
        → lookup result.id n.in_flight ≡ some (record flight { cancelled = true; valid = false })
        → (on_result format_time result later n).status ≡ n.status
    dropped n found = unfold on_result in ground (arith, found)

-- The result of a valid flight sets whether its host is online, sets the label of the last ping
-- only if it is, and leaves the states of other hosts.
pub state-on_result :
    (format_time : ℕ → Text) (now : ℕ) (m : Manager) (result : PingResult) (flight : PingFlight)
    → lookup result.id m.in_flight ≡ some flight
    → flight.valid ≡ true
    → ((state (on_result format_time result now m).status result.id).online ≡ result.online)
      × ((state (on_result format_time result now m).status result.id).last_pinged
          ≡ (if result.online then format_time now else (state m.status result.id).last_pinged))
      × ((q : Text)
          → q ≢ result.id
          → lookup q (on_result format_time result now m).status ≡ lookup q m.status)
unfolding on_result store_result state
state-on_result format_time now m result flight h good = (
  ground (arith, h, good, lookup-put result.id result.id (new_state) m.status),
  ground (arith, h, good, lookup-put result.id result.id (new_state) m.status),
  λ q ne. ground (arith, h, good, lookup-put result.id q (new_state) m.status),
)
  where
    new_state : HostState
    new_state = record {
      online = result.online;
      last_pinged =
          if result.online then format_time now else (state m.status result.id).last_pinged;
    }
