-- ===== src/Monitor/Pacing.antt =====
-- backend/internal/device/monitor.go: how often a host is probed.
use wol_secure_light_switch.Prelude.{
  ℕ, ◌-◌, ◌*◌, ◌≤◌, ◌<◌, ◌≡◌, refl, ◌≢◌, Bool, true, false, some, arith, List, [], ◌∷◌, Text, All,
  same, same_ne, text_dec, ◌∙◌, if_neg, if◌then◌else◌,
}
use wol_secure_light_switch.Prelude.Map.{lookup, lookup-put}
use wol_secure_light_switch.Limiter.{second}
use wol_secure_light_switch.Config.{Host}
use wol_secure_light_switch.Monitor.Rounds.{skips, ended, passed, begun, round}
use wol_secure_light_switch.Monitor.{
  Manager, interval_seconds, shorter_than, start_probe, start_probes,
}

-- The longest interval, in seconds, whose nanoseconds fit.
abbrev pub longest_interval : ℕ
longest_interval = 9223372036

-- The probes of a host, newest first: their addresses.
unfoldable pub probes_of : Text → List (Text × Text) → List Text
probes_of id [] = []
probes_of id ((j, ip) ∷ started) =
    let rest = probes_of id started in if same j id then ip ∷ rest else rest

shorter_than-true :
    (elapsed interval : ℕ)
    → interval ≤ longest_interval
    → elapsed < interval * second
    → shorter_than elapsed interval ≡ true
unfolding shorter_than
shorter_than-true elapsed interval fits short = ground (arith, fits, short)

-- One second more, and every elapsed time counts as too long.
pub shorter_than_overflow : (elapsed : ℕ) → shorter_than elapsed 9223372037 ≡ false
unfolding shorter_than
shorter_than_overflow elapsed = ground arith

-- A host that is not due: the last probe of its id started less than its interval ago.
abbrev pub IsNotDue : Text → ℕ → ℕ → Host → Type 0
IsNotDue id last now host =
    host.id ≡ id
    → (interval_seconds host.ping_interval ≤ longest_interval)
      × (now - last < interval_seconds host.ping_interval * second)

module _ (stopping : Bool) (now : ℕ) (id : Text) (last : ℕ) where
  pub not_same :
      (host : Host) (m : Manager)
      → lookup id m.last_ping_times ≡ some last
      → IsNotDue id last now host
      → skips now m host ≡ false
      → host.id ≢ id
  not_same host m known early due same_id =
      let (fits, short) = early same_id in
      let paced = shorter_than-true (now - last) (interval_seconds host.ping_interval) fits short in
      let known_here : lookup host.id m.last_ping_times ≡ some last = rw same_id known in
      ground (arith, due, known_here, paced)

  pub still_known :
      (host : Host) (m : Manager)
      → host.id ≢ id
      → lookup id m.last_ping_times ≡ some last
      → lookup id (start_probe m now host).last_ping_times ≡ some last
  unfolding start_probe
  still_known host m other known =
      lookup-put host.id id now m.last_ping_times ∙ if_neg (text_dec host.id id) other _ _ ∙ known

  pub not_its_own :
      (host : Host) (m : Manager)
      → host.id ≢ id
      → probes_of id (start_probe m now host).started ≡ probes_of id m.started
  unfolding start_probe probes_of
  not_its_own host m other = rw (same_ne host.id id other) refl

  -- The loop over the hosts starts no probe for an id whose last start is known and less than its
  -- interval ago, for an interval of 9223372036 seconds at most.
  pub start_probes-paced :
      (hosts : List Host) (m : Manager)
      → lookup id m.last_ping_times ≡ some last
      → All (IsNotDue id last now) hosts
      → probes_of id (start_probes stopping now hosts m).started ≡ probes_of id m.started
  start_probes-paced [] m known not_due = unfold start_probes in refl
  start_probes-paced (host ∷ hosts) m known (early, rest) = elim (round stopping now host hosts m) [
    | ended full e ↦ rw e refl
    | passed skip e ↦ rw e (start_probes-paced hosts m known rest)
    | begun free due e ↦
        let other = not_same host m known early due in
        rw e (
          start_probes-paced hosts (start_probe m now host) (still_known host m other known) rest
          ∙ not_its_own host m other)
  ]
