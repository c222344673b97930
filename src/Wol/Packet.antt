-- ===== src/Wol/Packet.antt =====
-- backend/internal/wol/wol.go: the magic packet.
use wol_secure_light_switch.Prelude.{ℕ, zero, suc, ◌+◌, ◌*◌, List, [], ◌∷◌}

-- `packet[i] = v`
unfoldable pub set_at : ℕ → ℕ → List ℕ → List ℕ
set_at i v [] = []
set_at zero v (x ∷ packet) = v ∷ packet
set_at (suc i) v (x ∷ packet) = x ∷ set_at i v packet

-- `copy(packet[offset:], source)`
unfoldable pub copy_at : ℕ → List ℕ → List ℕ → List ℕ
copy_at offset [] packet = packet
copy_at offset (v ∷ source) packet = copy_at (offset + 1) source (set_at offset v packet)

abbrev zeros : ℕ → List ℕ
zeros zero = []
zeros (suc n) = 0 ∷ zeros n

unfoldable pub fill_header : ℕ → List ℕ → List ℕ
fill_header zero packet = packet
fill_header (suc i) packet = set_at i 0xff (fill_header i packet)

unfoldable pub fill_body : ℕ → List ℕ → List ℕ → List ℕ
fill_body zero mac packet = packet
fill_body (suc i) mac packet = copy_at (6 + i * 6) mac (fill_body i mac packet)

unfoldable pub magic_packet : List ℕ → List ℕ
unfolding fill_header fill_body
magic_packet mac = fill_body 16 mac (fill_header 6 (zeros 102))
