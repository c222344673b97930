-- ===== src/Examples/Pings.antt =====
-- The ping manager's theorems at a manager with one probe in flight.
use wol_secure_light_switch.Prelude.{
  ℕ, ◌≡◌, refl, true, false, some, none, arith, ◌≤◌, length, All, List, [], ◌∷◌, Text, codes,
  text_dec,
}
use wol_secure_light_switch.Prelude.Map.{lookup, put, erase, retain}
use wol_secure_light_switch.Config.{Host}
use wol_secure_light_switch.Monitor.{
  PingFlight, PingResult, Manager, configure, same_target, check_hosts, start_probes, on_result,
  tick, landed, run, new_manager, Event, start_probe, invalidate,
}
use wol_secure_light_switch.Monitor.Pacing.{probes_of, IsNotDue}
use wol_secure_light_switch.Monitor.Workers.{count, run-bounded}
use wol_secure_light_switch.Monitor.Spacing.{IsPaced, IsAt, run-spaced}
use wol_secure_light_switch.Monitor.Progress.{IsSpent, check_hosts-IsSpent}
use wol_secure_light_switch.Monitor.Staleness.{stale_result_ignored}
use wol_secure_light_switch.Examples.Documents.{nas}

abbrev flight : PingFlight
flight = record { ip = codes "nas.lan"; cancelled = false; valid = true }

abbrev manager : Manager
manager = record {
  status = (codes "nas", record { online = false; last_pinged = [] }) ∷ [];
  last_ping_times = [];
  in_flight = (codes "nas", flight) ∷ [];
  running = codes "nas" ∷ [];
  started = (codes "nas", codes "nas.lan") ∷ [];
}

abbrev result : PingResult
result = record { id = codes "nas"; online = true }

abbrev label : ℕ → Text
label now = codes "12:00"

in_flight : lookup result.id manager.in_flight ≡ some flight
unfolding lookup text_dec
in_flight = refl

run-bounded_example :
    (length (run label new_manager (tick false 4 (some (nas ∷ nas ∷ [])) ∷ [])).running ≤ 4)
    × ((id : Text)
        → count id (run label new_manager (tick false 4 (some (nas ∷ nas ∷ [])) ∷ [])).running ≤ 1)
run-bounded_example = run-bounded label (tick false 4 (some (nas ∷ nas ∷ [])) ∷ [])

abbrev moved_nas : Host
moved_nas = record nas { ip = codes "nas2.lan" }

moved : same_target (lookup result.id (configure [] (moved_nas ∷ []))) flight ≡ false
unfolding lookup configure put text_dec
moved = refl

stale_result_ignored_example :
    (on_result label result 10 (check_hosts false 9 (some (moved_nas ∷ [])) manager)).status
    ≡ (check_hosts false 9 (some (moved_nas ∷ [])) manager).status
stale_result_ignored_example =
    stale_result_ignored label false 9 10 (moved_nas ∷ []) manager result flight in_flight moved

-- The device was probed at the time 4, and its interval is 60 seconds.
abbrev paced : Manager
paced = record manager { last_ping_times = (codes "nas", 4) ∷ []; in_flight = []; running = [] }

-- A manager whose first check, at the time 4, has started the device's probe.
abbrev checked_once : Manager
checked_once = check_hosts false 4 (some (nas ∷ [])) new_manager

checked_once-IsPaced : IsPaced (codes "nas") (codes "nas.lan") 4 checked_once
unfolding lookup text_dec check_hosts start_probes start_probe configure put erase retain invalidate
    new_manager
checked_once-IsPaced = record { known = refl; aimed = (λ _. refl, tt) }

nas_configured : IsAt (codes "nas") (codes "nas.lan") (nas ∷ [])
unfolding lookup text_dec configure put erase
nas_configured = (nas, refl, refl)

abbrev quiet : List Event
quiet =
    tick false 9 (some (nas ∷ []))
    ∷ landed result 10
    ∷ tick false 14 none
    ∷ tick false 60000000003 (some (nas ∷ []))
    ∷ []

run-spaced_example :
    probes_of (codes "nas") (run label checked_once quiet).started
    ≡ probes_of (codes "nas") checked_once.started
run-spaced_example =
    let early : All (IsNotDue (codes "nas") 4 9) (nas ∷ []) =
      ((λ _. (omega arith, omega arith)), tt) in
    let last_moment : All (IsNotDue (codes "nas") 4 60000000003) (nas ∷ []) =
      ((λ _. (omega arith, omega arith)), tt) in
    run-spaced (codes "nas") (codes "nas.lan") 4 label checked_once quiet checked_once-IsPaced
      ((nas_configured, early), (tt, (tt, ((nas_configured, last_moment), tt))))

check_hosts-IsSpent_example :
    IsSpent 9 (check_hosts false 9 (some (nas ∷ moved_nas ∷ [])) paced) (nas ∷ moved_nas ∷ [])
check_hosts-IsSpent_example = check_hosts-IsSpent 9 (nas ∷ moved_nas ∷ []) paced
