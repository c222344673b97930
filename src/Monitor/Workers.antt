-- ===== src/Monitor/Workers.antt =====
-- backend/internal/device/monitor.go: the goroutines that run the probes.
use wol_secure_light_switch.Prelude.{
  ℕ, ◌+◌, ◌-◌, ◌≤◌, ◌≡◌, refl, Bool, true, false, Option, none, some, arith, List, [], ◌∷◌, Text,
  text_dec, ite, length, Option-cases, inl, inr,
}
use wol_secure_light_switch.Prelude.Map.{
  Map, lookup, put, erase, retain, Distinct, lookup-put, lookup-erase, erase_absent,
}
use wol_secure_light_switch.Config.{Host, is_given}
use wol_secure_light_switch.Monitor.Rounds.{skips, ended, passed, begun, round}
use wol_secure_light_switch.Monitor.Flights.{
  IsValid, run-IsValid_flights, length-invalidate, check_hosts-IsValid, on_result-IsValid,
}
use wol_secure_light_switch.Monitor.{
  PingFlight, PingResult, Manager, Event, tick, landed, configure, invalidate, start_probe,
  start_probes, check_hosts, remove_first, on_result, step, run, new_manager,
}

-- How many probes of a host run.
unfoldable pub count : Text → List Text → ℕ
count id [] = 0
count id (j ∷ ids) = ite (text_dec j id) (count id ids + 1) (count id ids)

abbrev pub one_if {ℓ} : {A : Type ℓ} → Option A → ℕ
one_if none = 0
one_if (some a) = 1

-- `inFlight` says which probes run: those of its keys, one each.
pub record IsTracked (m : Manager) : Type 0 where
  pub tracked : (id : Text) → count id m.running ≡ one_if (lookup id m.in_flight)
  pub fewer : length m.running ≤ length m.in_flight

length-erase-ge :
    {V : Type 0} (k : Text) (m : Map V) → Distinct m → length m ≤ length (erase k m) + 1
unfolding erase
length-erase-ge k [] d = omega arith
length-erase-ge k ((j, v) ∷ m) d = ground (arith, length-erase-ge k m d.1, erase_absent k m)

count-remove_first :
    (id q : Text) (ids : List Text)
    → count q (remove_first id ids) ≡ ite (text_dec id q) (count q ids - 1) (count q ids)
unfolding count remove_first
count-remove_first id q [] = ground arith
count-remove_first id q (j ∷ ids) = ground (arith, count-remove_first id q ids)

length-remove_first-le : (id : Text) (ids : List Text) → length (remove_first id ids) ≤ length ids
unfolding remove_first
length-remove_first-le id [] = omega arith
length-remove_first-le id (j ∷ ids) = ground (arith, length-remove_first-le id ids)

length-remove_first :
    (id : Text) (ids : List Text) → 1 ≤ count id ids → length (remove_first id ids) + 1 ≤ length ids
unfolding count remove_first
length-remove_first id [] h = absurd (omega (arith, h))
length-remove_first id (j ∷ ids) h = ground (arith, h, length-remove_first id ids)

-- A host that the loop does not pass over has no probe in flight.
due_idle :
    (now : ℕ) (m : Manager) (host : Host)
    → skips now m host ≡ false
    → lookup host.id m.in_flight ≡ none
due_idle now m host due = elim (Option-cases (lookup host.id m.in_flight)) [
  | inl idle ↦ idle
  | inr (flight, flying) ↦ absurd (ground arith)
]

start_probe-IsTracked :
    (m : Manager) (now : ℕ) (host : Host)
    → lookup host.id m.in_flight ≡ none
    → IsTracked m
    → IsTracked (start_probe m now host)
unfolding start_probe count
start_probe-IsTracked m now host idle t =
    let flight : PingFlight = record { ip = host.ip; cancelled = false; valid = true } in
    record {
      tracked = λ id. elim (text_dec host.id id) [
        | yes p ↦ ground (arith, p, idle, t.tracked id, lookup-put host.id id flight m.in_flight)
        | no p ↦ ground (arith, p, t.tracked id, lookup-put host.id id flight m.in_flight)
      ];
      fewer = unfold put in ground (arith, t.fewer, erase_absent host.id m.in_flight idle);
    }

start_probes-IsTracked :
    (stopping : Bool) (now : ℕ) (hosts : List Host) (m : Manager)
    → IsTracked m
    → IsTracked (start_probes stopping now hosts m)
start_probes-IsTracked stopping now [] m t = unfold start_probes in t
start_probes-IsTracked stopping now (host ∷ hosts) m t = elim (round stopping now host hosts m) [
  | ended full e ↦ rw e t
  | passed skip e ↦ rw e (start_probes-IsTracked stopping now hosts m t)
  | begun free due e ↦ rw e (
      start_probes-IsTracked stopping now hosts (start_probe m now host)
        (start_probe-IsTracked m now host (due_idle now m host due) t))
]

one_if-invalidate :
    (configured : Map Host) (id : Text) (m : Map PingFlight) (times : Map ℕ)
    → one_if (lookup id (invalidate configured m times).0) ≡ one_if (lookup id m)
unfolding lookup invalidate
one_if-invalidate configured id [] times = refl
one_if-invalidate configured id ((j, flight) ∷ m) times =
    ground (arith, one_if-invalidate configured id m times)

check_hosts-IsTracked :
    (stopping : Bool) (now : ℕ) (loaded : Option (List Host)) (m : Manager)
    → IsTracked m
    → IsTracked (check_hosts stopping now loaded m)
unfolding check_hosts
check_hosts-IsTracked stopping now none m t = t
check_hosts-IsTracked stopping now (some hosts) m t =
    let configured = configure [] hosts in
    let times = retain (λ id _. is_given (lookup id configured)) m.last_ping_times in
    start_probes-IsTracked stopping now hosts _ (record {
      tracked = λ id. cc (t.tracked id, one_if-invalidate configured id m.in_flight times);
      fewer = omega (arith, t.fewer, length-invalidate configured m.in_flight times);
    })

module _ (format_time : ℕ → Text) where
  on_result-IsTracked :
      (result : PingResult) (now : ℕ) (m : Manager)
      → Distinct m.in_flight
      → IsTracked m
      → IsTracked (on_result format_time result now m)
  on_result-IsTracked result now m d t = record {
    tracked = λ id.
        unfold on_result in
        ground (
          arith,
          t.tracked id,
          t.tracked result.id,
          count-remove_first result.id id m.running,
          lookup-erase result.id id m.in_flight,
        );
    fewer =
        unfold on_result in
        ground (
          arith,
          t.fewer,
          t.tracked result.id,
          length-remove_first-le result.id m.running,
          length-remove_first result.id m.running,
          length-erase-ge result.id m.in_flight d,
        );
  }

  run-IsTracked :
      (m : Manager) (es : List Event) → IsValid m → IsTracked m → IsTracked (run format_time m es)
  unfolding run step
  run-IsTracked m [] v t = t
  run-IsTracked m (tick stopping now loaded ∷ es) v t =
      run-IsTracked (check_hosts stopping now loaded m) es
        (check_hosts-IsValid stopping now loaded m v)
        (check_hosts-IsTracked stopping now loaded m t)
  run-IsTracked m (landed result now ∷ es) v t =
      run-IsTracked (on_result format_time result now m) es
        (on_result-IsValid format_time result now m v)
        (on_result-IsTracked result now m v.flights t)

  -- After any sequence of events from the start, at most four probes run, and at most one of each
  -- host; a probe runs from its start until its result is received.
  pub run-bounded :
      (es : List Event)
      → (length (run format_time new_manager es).running ≤ 4)
        × ((id : Text) → count id (run format_time new_manager es).running ≤ 1)
  run-bounded es =
      let t = run-IsTracked new_manager es new_manager-IsValid new_manager-IsTracked in
      let v = run-IsValid_flights format_time new_manager es new_manager-IsValid in
      (
        omega (arith, t.fewer, v.bounded),
        λ id. at_most_one (lookup id (run format_time new_manager es).in_flight) (t.tracked id),
      )
    where
      new_manager-IsValid : IsValid new_manager
      new_manager-IsValid =
          unfold new_manager in record { bounded = omega arith; flights = tt; statuses = tt }

      new_manager-IsTracked : IsTracked new_manager
      new_manager-IsTracked =
          unfold new_manager count lookup in record { tracked = λ id. refl; fewer = omega arith }

      at_most_one : {A : Type 0} (o : Option A) {n : ℕ} → n ≡ one_if o → n ≤ 1
      at_most_one none e = omega (arith, e)
      at_most_one (some a) e = omega (arith, e)
