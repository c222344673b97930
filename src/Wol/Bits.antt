-- ===== src/Wol/Bits.antt =====
-- Go's `&`, `|` and `^` on the low bits of a number.
use wol_secure_light_switch.Prelude.{ℕ, zero, suc, ◌+◌, ◌*◌, ◌-◌, ◌/◌, ◌%◌, max}

unfoldable pub bit_and : ℕ → ℕ → ℕ → ℕ
bit_and zero a b = 0
bit_and (suc n) a b = (a % 2) * (b % 2) + 2 * bit_and n (a / 2) (b / 2)

unfoldable pub bit_or : ℕ → ℕ → ℕ → ℕ
bit_or zero a b = 0
bit_or (suc n) a b = max (a % 2) (b % 2) + 2 * bit_or n (a / 2) (b / 2)

unfoldable pub bit_not : ℕ → ℕ → ℕ
bit_not zero a = 0
bit_not (suc n) a = (1 - a % 2) + 2 * bit_not n (a / 2)
