-- ===== src/Monitor/Probe.antt =====
-- backend/internal/device/probe.go: the command that asks whether a host is online.
use wol_secure_light_switch.Prelude.{ℕ, ◌*◌, Bool, List, [], ◌∷◌, Text, codes, same, if◌then◌else◌}
use wol_secure_light_switch.Limiter.{second}

unfoldable pub ping_command : Text → Text → List Text
ping_command goos ip =
    if same goos (codes "windows")
    then codes "ping" ∷ codes "-n" ∷ codes "1" ∷ codes "-w" ∷ codes "1000" ∷ ip ∷ []
    else codes "ping" ∷ codes "-c" ∷ codes "1" ∷ codes "-W" ∷ codes "1" ∷ ip ∷ []

abbrev pub probe_timeout : ℕ
probe_timeout = 2 * second

-- The operating system: its name, and whether a command completes successfully within a time.
pub record System : Type 0 where
  pub goos : Text
  pub run : ℕ → List Text → Bool

unfoldable pub is_online : System → Text → Bool
unfolding ping_command
is_online s ip = s.run probe_timeout (ping_command s.goos ip)
