-- ===== src/Prelude/Strings.antt =====
-- Go strings. A string is the list of what `range` yields over it: a code point stands for its
-- UTF-8 encoding, and `stray + b` for a byte `b` that belongs to no valid encoding.
use Prim.Native.Nat.{ℕ, ◌+◌}
use Prim.Native.Char.{code}
use Prim.Native.String.{String}
use mathlib.Core.Path.{◌≡◌}
use mathlib.Core.Bool.{Bool, true, false, ◌&&◌, ◌||◌}
use mathlib.Core.Logic.{◌≢◌}
use mathlib.Core.List.{List, [], ◌∷◌, reverse}
use native.Mathlib.Decide.{ℕ_discrete}
use native.Mathlib.Omega.{arith}
use wol_secure_light_switch.Prelude.Lists.{ltb, leb, ◌==◌, if◌then◌else◌, holds}

abbrev pub Text : Type 0
Text = List ℕ

abbrev pub codes : String → Text
codes String.[] = []
codes (String.◌∷◌ c s) = code c ∷ codes s

unfoldable pub text_dec : Discrete Text
unfolding ℕ_discrete
text_dec = hlevel ℕ_discrete

-- `a == b` of strings.
abbrev pub same : Text → Text → Bool
same a b = holds (text_dec a b)

abbrev pub stray : ℕ
stray = 0x110000

-- The bytes that a unit occupies.
abbrev pub width : ℕ → ℕ
width u =
    if ltb u 0x80
    then 1
    else if ltb u 0x800
    then 2
    else if ltb u 0x10000
    then 3
    else if ltb u stray
    then 4
    else 1

-- `len(s)`.
abbrev pub byte_len : Text → ℕ
byte_len [] = 0
byte_len (u ∷ s) = width u + byte_len s

-- `utf8.ValidString(s)`.
abbrev pub valid_string : Text → Bool
valid_string [] = true
valid_string (u ∷ s) = ltb u stray && valid_string s

-- `unicode.IsSpace`.
abbrev pub is_space : ℕ → Bool
is_space u =
    leb 9 u && leb u 13
    || u == 32
    || u == 0x85
    || u == 0xa0
    || u == 0x1680
    || leb 0x2000 u && leb u 0x200a
    || u == 0x2028
    || u == 0x2029
    || u == 0x202f
    || u == 0x205f
    || u == 0x3000

-- `strings.TrimLeftFunc` and `strings.TrimRightFunc`.
unfoldable pub trim_left : (ℕ → Bool) → Text → Text
trim_left p [] = []
trim_left p (u ∷ s) = if p u then trim_left p s else u ∷ s

unfoldable pub trim_right : (ℕ → Bool) → Text → Text
unfolding trim_left
trim_right p s = reverse (trim_left p (reverse s))

-- `strings.TrimSpace`.
unfoldable pub trim_space : Text → Text
unfolding trim_left trim_right
trim_space s = trim_right is_space (trim_left is_space s)

-- `strings.ToLower`: `unicode_lower` is the case table of package unicode beyond ASCII, and a byte
-- that is no valid encoding becomes the replacement character.
unfoldable pub to_lower : (ℕ → ℕ) → Text → Text
to_lower unicode_lower [] = []
to_lower unicode_lower (u ∷ s) =
    (if ltb u 0x80
      then (if leb b'A' u && leb u b'Z' then u + 32 else u)
      else if ltb u stray
      then unicode_lower u
      else 0xfffd)
    ∷ to_lower unicode_lower s

pub same_eq : (s t : Text) → s ≡ t → same s t ≡ true
same_eq s t h = ground arith

pub same_ne : (s t : Text) → s ≢ t → same s t ≡ false
same_ne s t h = ground arith

pub eq_of_same : (s t : Text) → same s t ≡ true → s ≡ t
eq_of_same s t h = ground arith
