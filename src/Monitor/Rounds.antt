-- ===== src/Monitor/Rounds.antt =====
-- backend/internal/device/monitor.go: one round of the loop that starts the probes.
use wol_secure_light_switch.Prelude.{
  ℕ, ◌≡◌, Bool, true, false, ◌||◌, arith, List, ◌∷◌, ◌==◌, length, Bool-cases, inl, inr,
}
use wol_secure_light_switch.Prelude.Map.{lookup}
use wol_secure_light_switch.Config.{Host, is_given}
use wol_secure_light_switch.Monitor.{
  Manager, interval_seconds, recent, start_probe, start_probes, max_concurrent_pings,
}

-- A host that the loop passes over: a probe is in flight, or the last one is recent.
abbrev pub skips : ℕ → Manager → Host → Bool
skips now m host =
    is_given (lookup host.id m.in_flight)
    || recent (lookup host.id m.last_ping_times) now (interval_seconds host.ping_interval)

abbrev pub breaks : Bool → Manager → Bool
breaks stopping m = stopping || length m.in_flight == max_concurrent_pings

module _ (stopping : Bool) (now : ℕ) (host : Host) (hosts : List Host) (m : Manager) where
  -- What a round makes of the loop.
  pub data Round : Type 0 where
    ended : breaks stopping m ≡ true → start_probes stopping now (host ∷ hosts) m ≡ m → Round
    passed :
        skips now m host ≡ true
        → start_probes stopping now (host ∷ hosts) m ≡ start_probes stopping now hosts m
        → Round
    begun :
        breaks stopping m ≡ false
        → skips now m host ≡ false
        → start_probes stopping now (host ∷ hosts) m
          ≡ start_probes stopping now hosts (start_probe m now host)
        → Round

  pub round : Round
  round = elim (Bool-cases (breaks stopping m)) [
    | inl full ↦ ended full (unfold start_probes in ground arith)
    | inr free ↦ elim (Bool-cases (skips now m host)) [
      | inl skip ↦ passed skip (unfold start_probes in ground arith)
      | inr due ↦ begun free due (unfold start_probes in ground arith)
    ]
  ]
