-- ===== src/Monitor.antt =====
-- backend/internal/device/monitor.go: the ping manager's event loop, as the handling of one event
-- after another. A probe that was started answers by a result; the channel's order is the order of
-- the events. Times are nanoseconds, and the label of a successful ping is `format_time` of its
-- time. The maps' locks make each update one step.

pub mod Probe
pub mod Rounds
pub mod Pacing
pub mod Progress
pub mod Flights
pub mod Staleness
pub mod Workers
pub mod Spacing
use wol_secure_light_switch.Prelude.{
  ℕ, ◌+◌, ◌-◌, ◌*◌, ◌%◌, ◌^◌, ◌≡◌, Bool, true, false, not, ◌&&◌, ◌||◌, Option, none, some, List, [],
  ◌∷◌, Text, text_dec, ite, same, ltb, ◌==◌, length, if◌then◌else◌,
}
use wol_secure_light_switch.Prelude.Int.{ℤ, pos, negsuc}
use wol_secure_light_switch.Prelude.Map.{Map, lookup, put, erase, retain}
use wol_secure_light_switch.Limiter.{second}
use wol_secure_light_switch.Config.{Host, is_given}

pub record HostState : Type 0 where
  pub online : Bool
  pub last_pinged : Text

abbrev pub no_state : HostState
no_state = record { online = false; last_pinged = [] }

-- `m.status[id]`, the zero value if absent
unfoldable pub state : Map HostState → Text → HostState
state status id = elim (lookup id status) [ none ↦ no_state | some st ↦ st ]

abbrev pub max_concurrent_pings : ℕ
max_concurrent_pings = 4

pub record PingFlight : Type 0 where
  pub ip : Text
  pub cancelled : Bool
  pub valid : Bool

pub record PingResult : Type 0 where
  pub id : Text
  pub online : Bool

-- The variables of `runPingManager`; `running` are the goroutines, by the id of their host, whose
-- result was not received yet, and `started` is the history of the probes started, newest first.
pub record Manager : Type 0 where
  pub status : Map HostState
  pub last_ping_times : Map ℕ
  pub in_flight : Map PingFlight
  pub running : List Text
  pub started : List (Text × Text)

-- `configured[id]`: a later host of the same id would win, so the map is built in the list's order.
unfoldable pub configure : Map Host → List Host → Map Host
configure m [] = m
configure m (host ∷ hosts) = configure (put host.id host m) hosts

-- Whether the host that a flight was started for is still configured at its address.
abbrev pub same_target : Option Host → PingFlight → Bool
same_target none flight = false
same_target (some host) flight = same host.ip flight.ip

-- The loop over `inFlight`: a flight whose host is gone or has moved is invalidated, cancelled, and
-- its last ping forgotten.
unfoldable pub invalidate : Map Host → Map PingFlight → Map ℕ → Map PingFlight × Map ℕ
invalidate configured [] times = ([], times)
invalidate configured ((id, flight) ∷ m) times =
    let (rest, times') = invalidate configured m times in
    if same_target (lookup id configured) flight
    then ((id, flight) ∷ rest, times')
    else ((id, record flight { cancelled = true; valid = false }) ∷ rest, erase id times')

abbrev pub interval_seconds : ℤ → ℕ
interval_seconds (pos n) = if n == 0 then 60 else n
interval_seconds (negsuc n) = 60

-- `now.Sub(last) < time.Duration(interval)*time.Second`: the product wraps at 64 bits, and from
-- 2 ^ 63 on it is negative.
unfoldable pub shorter_than : ℕ → ℕ → Bool
shorter_than elapsed interval =
    let nanoseconds = (interval * second) % 2 ^ 64 in
    if ltb nanoseconds (2 ^ 63) then ltb elapsed nanoseconds else false

abbrev pub recent : Option ℕ → ℕ → ℕ → Bool
recent none now interval = false
recent (some last) now interval = shorter_than (now - last) interval

unfoldable pub start_probe : Manager → ℕ → Host → Manager
start_probe m now host = record m {
  last_ping_times = put host.id now m.last_ping_times;
  in_flight = put host.id (record { ip = host.ip; cancelled = false; valid = true }) m.in_flight;
  running = host.id ∷ m.running;
  started = (host.id, host.ip) ∷ m.started;
}

-- The loop over the hosts; `stopping` is `ctx.Err() != nil`.
unfoldable pub start_probes : Bool → ℕ → List Host → Manager → Manager
start_probes stopping now [] m = m
start_probes stopping now (host ∷ hosts) m =
    let skip =
      is_given (lookup host.id m.in_flight)
      || recent (lookup host.id m.last_ping_times) now (interval_seconds host.ping_interval) in
    let rest = start_probes stopping now hosts (if skip then m else start_probe m now host) in
    if stopping || length m.in_flight == max_concurrent_pings then m else rest

-- `checkHosts`; `none` is an error of `loadHosts`.
unfoldable pub check_hosts : Bool → ℕ → Option (List Host) → Manager → Manager
check_hosts stopping now none m = m
check_hosts stopping now (some hosts) m =
    let configured = configure [] hosts in
    let times = retain (λ id _. is_given (lookup id configured)) m.last_ping_times in
    let (flights, times') = invalidate configured m.in_flight times in
    start_probes stopping now hosts (record m {
      last_ping_times = times';
      in_flight = flights;
      status = retain (λ id _. is_given (lookup id configured)) m.status;
    })

-- `<-ctx.Done()`: every flight is cancelled, and the loop ends once the probes have.
unfoldable pub cancel_all : Map PingFlight → Map PingFlight
cancel_all [] = []
cancel_all ((id, flight) ∷ m) = (id, record flight { cancelled = true }) ∷ cancel_all m

unfoldable pub shut_down : Manager → Manager
unfolding cancel_all
shut_down m = record m { in_flight = cancel_all m.in_flight }

pub data Event : Type 0 where
  tick : (stopping : Bool) (now : ℕ) (loaded : Option (List Host)) → Event
  landed : (result : PingResult) (now : ℕ) → Event

unfoldable pub remove_first : Text → List Text → List Text
remove_first id [] = []
remove_first id (j ∷ ids) = ite (text_dec j id) ids (j ∷ remove_first id ids)

module _ (format_time : ℕ → Text) where
  unfoldable pub store_result : Map HostState → PingResult → ℕ → Map HostState
  store_result status result now =
      let st = state status result.id in
      put result.id
        (record {
          online = result.online;
          last_pinged = if result.online then format_time now else st.last_pinged;
        })
        status

  -- `result := <-results`: one goroutine of the result's id is over.
  unfoldable pub on_result : PingResult → ℕ → Manager → Manager
  unfolding remove_first
  on_result result now m =
      let received = record m { running = remove_first result.id m.running } in
      elim (lookup result.id m.in_flight) [
        | none ↦ received
        | some flight ↦
            let landed = record received { in_flight = erase result.id m.in_flight } in
            if not flight.valid
            then landed
            else record landed { status = store_result m.status result now }
      ]

  unfoldable pub step : Manager → Event → Manager
  unfolding on_result
  step m (tick stopping now loaded) = check_hosts stopping now loaded m
  step m (landed result now) = on_result result now m

  unfoldable pub run : Manager → List Event → Manager
  run m [] = m
  run m (e ∷ es) = run (step m e) es

unfoldable pub new_manager : Manager
new_manager = record {
  status = [];
  last_ping_times = [];
  in_flight = [];
  running = [];
  started = [];
}
