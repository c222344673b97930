-- ===== src/Prelude/Decimal.antt =====
-- Package strconv: `FormatUint` and `ParseUint` in base 10, at 64 bits.
use wol_secure_light_switch.Prelude.Lists.{ltb, leb, if◌then◌else◌, Bool-cases}
use wol_secure_light_switch.Prelude.Strings.{Text}
use Prim.Native.Nat.{ℕ, zero, suc, ◌+◌, ◌-◌, ◌*◌, ◌/◌, ◌%◌, ◌^◌, ◌<◌}
use mathlib.Core.Path.{◌≡◌, refl, sym, ◌∙◌, ap}
use mathlib.Core.Logic.{inl, inr, ◌≢◌}
use mathlib.Core.Bool.{◌&&◌}
use mathlib.Core.Option.{Option, none, some}
use mathlib.Core.List.{[], ◌∷◌, ◌++◌, append_assoc, append-nil}
use native.Mathlib.Omega.{arith}

-- With fuel for each digit; the number itself is enough.
unfoldable pub digits_of : ℕ → ℕ → Text
digits_of zero n = []
digits_of (suc fuel) n =
    let front = digits_of fuel (n / 10) in
    if ltb n 10 then (48 + n) ∷ [] else front ++ (48 + n % 10) ∷ []

unfoldable pub format_uint : ℕ → Text
unfolding digits_of
format_uint n = digits_of (n + 1) n

-- The loop of `ParseUint`: a byte that is no digit, or a value past 64 bits, is an error.
unfoldable pub parse_digits : ℕ → Text → Option ℕ
parse_digits n [] = some n
parse_digits n (c ∷ s) =
    let m = n * 10 + (c - 48) in
    let rest = parse_digits m s in if leb 48 c && leb c 57 && ltb m (2 ^ 64) then rest else none

unfoldable pub parse_uint : Text → Option ℕ
parse_uint [] = none
parse_uint (c ∷ s) = parse_digits 0 (c ∷ s)

parse-digits_of :
    (fuel n : ℕ) (rest : Text)
    → n < fuel
    → n < 2 ^ 64
    → parse_digits 0 (digits_of fuel n ++ rest) ≡ parse_digits n rest
unfolding digits_of parse_digits
parse-digits_of zero n rest h k = absurd (omega arith)
parse-digits_of (suc fuel) n rest h k = elim (Bool-cases (ltb n 10)) [
  | inl one ↦ ground arith
  | inr more ↦
      rw (more, append_assoc (digits_of fuel (n / 10)) ((48 + n % 10) ∷ []) rest)
        (parse-digits_of fuel (n / 10) ((48 + n % 10) ∷ rest) (ground arith) (omega arith)
          ∙ last_digit)
]
  where
    last_digit : parse_digits (n / 10) ((48 + n % 10) ∷ rest) ≡ parse_digits n rest
    last_digit = let e : n / 10 * 10 + (48 + n % 10 - 48) ≡ n = omega arith in ground arith

append-ne : (s : Text) (c : ℕ) → s ++ c ∷ [] ≢ []
append-ne [] c = λ e. cc e
append-ne (x ∷ s) c = λ e. cc e

digits_of-ne : (fuel n : ℕ) → n < fuel → digits_of fuel n ≢ []
unfolding digits_of
digits_of-ne zero n h = absurd (omega arith)
digits_of-ne (suc fuel) n h = ground (arith, append-ne (digits_of fuel (n / 10)) (48 + n % 10))

parse_uint_of_ne : (s : Text) → s ≢ [] → parse_uint s ≡ parse_digits 0 s
unfolding parse_uint
parse_uint_of_ne [] ne = absurd (ne refl)
parse_uint_of_ne (c ∷ s) ne = refl

-- What `FormatUint` prints, `ParseUint` reads back.
pub parse_uint-format_uint : (n : ℕ) → n < 2 ^ 64 → parse_uint (format_uint n) ≡ some n
parse_uint-format_uint n h =
    unfold format_uint in
    parse_uint_of_ne (digits_of (n + 1) n) (digits_of-ne (n + 1) n (omega arith))
    ∙ ap (parse_digits 0) (sym (append-nil (digits_of (n + 1) n)))
    ∙ read
  where
    read : parse_digits 0 (digits_of (n + 1) n ++ []) ≡ some n
    read = unfold parse_digits in parse-digits_of (n + 1) n [] (omega arith) h
