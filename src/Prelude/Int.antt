-- ===== src/Prelude/Int.antt =====
-- Go's int, and `strconv.Atoi` at 64 bits.
use wol_secure_light_switch.Prelude.Lists.{ltb, ◌==◌, if◌then◌else◌}
use wol_secure_light_switch.Prelude.Strings.{Text}
use wol_secure_light_switch.Prelude.Decimal.{parse_uint}
use Prim.Native.Nat.{ℕ, zero, suc, ◌+◌, ◌-◌, ◌^◌}
use mathlib.Core.Option.{Option, none, some}
use mathlib.Core.List.{[], ◌∷◌}

-- `negsuc n` is -(n + 1).
pub data ℤ : Type 0 where
  pos : ℕ → ℤ
  negsuc : ℕ → ℤ

abbrev negate : ℕ → ℤ
negate zero = pos 0
negate (suc n) = negsuc n

abbrev below : ℕ → Option ℕ → Option ℕ
below limit none = none
below limit (some n) = if ltb n limit then some n else none

abbrev as_int : (ℕ → ℤ) → Option ℕ → Option ℤ
as_int f none = none
as_int f (some n) = some (f n)

-- An optional sign, then digits.
unfoldable pub atoi : Text → Option ℤ
atoi [] = none
atoi (c ∷ s) =
    if c == b'-'
    then as_int negate (below (2 ^ 63 + 1) (parse_uint s))
    else if c == b'+'
    then as_int pos (below (2 ^ 63) (parse_uint s))
    else as_int pos (below (2 ^ 63) (parse_uint (c ∷ s)))

-- `uint(n)`
unfoldable pub to_uint : ℤ → ℕ
to_uint (pos n) = n
to_uint (negsuc n) = 2 ^ 64 - (n + 1)
