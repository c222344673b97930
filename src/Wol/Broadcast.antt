-- ===== src/Wol/Broadcast.antt =====
-- backend/internal/wol/wol.go: the broadcast address and the magic packet.
use wol_secure_light_switch.Prelude.{
  ℕ, zero, suc, ◌+◌, ◌*◌, ◌-◌, ◌/◌, ◌%◌, ◌<◌, max, Bool-cases, inl, inr, ◌≡◌, refl, true, arith,
  List, [], ◌∷◌, ◌++◌, length, ◌==◌,
}
use wol_secure_light_switch.Wol.Bits.{bit_and, bit_or, bit_not}
use wol_secure_light_switch.Wol.{
  Ip, same_network, broadcast, set_at, copy_at, fill_header, fill_body, magic_packet,
}

low_bit : (b x : ℕ) → b < 2 → ((b + 2 * x) % 2 ≡ b) × ((b + 2 * x) / 2 ≡ x)
low_bit b x h = (omega arith, omega arith)

masked_bit : (a m : ℕ) → (a % 2) * (m % 2) ≡ max (a % 2) (1 - m % 2) * (m % 2)
masked_bit a m = elim (Bool-cases (m % 2 == 0)) [
  | inl clear ↦ let e : m % 2 ≡ 0 = ground arith in rw e (omega arith)
  | inr set ↦ let e : m % 2 ≡ 1 = ground arith in rw e (omega arith)
]

bit_and-broadcast : (n a m : ℕ) → bit_and n a m ≡ bit_and n (bit_or n a (bit_not n m)) m
unfolding bit_and bit_or bit_not
bit_and-broadcast zero a m = refl
bit_and-broadcast (suc n) a m =
    let inverse = low_bit (1 - m % 2) (bit_not n (m / 2)) (omega arith) in
    let both =
      low_bit (max (a % 2) (1 - m % 2)) (bit_or n (a / 2) (bit_not n (m / 2))) (omega arith) in
    rw (inverse.0, inverse.1, both.0, both.1, masked_bit a m, bit_and-broadcast n (a / 2) (m / 2))
      refl

-- Under a mask of its length, the broadcast address of an address is in the same network.
pub same_network-broadcast :
    (mask : List ℕ) (ip : Ip)
    → length ip ≡ length mask
    → same_network mask ip (broadcast ip mask) ≡ true
unfolding same_network broadcast
same_network-broadcast [] [] h = refl
same_network-broadcast [] (a ∷ ip) h = absurd (omega (arith, h))
same_network-broadcast (m ∷ mask) [] h = absurd (omega (arith, h))
same_network-broadcast (m ∷ mask) (a ∷ ip) h =
    ground (arith, bit_and-broadcast 8 a m, same_network-broadcast mask ip)

-- A sequence of bytes over and over.
abbrev pub repeat : ℕ → List ℕ → List ℕ
repeat zero bytes = []
repeat (suc n) bytes = bytes ++ repeat n bytes

-- The packet for a six-byte address is six bytes 255 and the address sixteen times.
pub magic_packet-repeat :
    (mac : List ℕ) → length mac ≡ 6 → magic_packet mac ≡ repeat 6 (255 ∷ []) ++ repeat 16 mac
unfolding magic_packet fill_header fill_body set_at copy_at
magic_packet-repeat (a ∷ b ∷ c ∷ d ∷ e ∷ f ∷ []) h = refl
magic_packet-repeat _ h = absurd (omega (arith, h))
