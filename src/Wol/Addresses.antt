-- ===== src/Wol/Addresses.antt =====
-- Package net's IPv4 addresses, masks and networks, and `strings.Contains`, as
-- backend/internal/wol/wol.go uses them.
use wol_secure_light_switch.Prelude.{
  ℕ, ◌+◌, ◌*◌, Bool, true, false, not, ◌&&◌, ◌||◌, Option, none, some, List, [], ◌∷◌, Text, leb,
  ◌==◌, length, if◌then◌else◌,
}
use wol_secure_light_switch.Wol.Bits.{bit_and}

abbrev pub Ip : Type 0
Ip = List ℕ

pub record IpNet : Type 0 where
  pub ip : Ip
  pub mask : List ℕ

abbrev all_zero : List ℕ → Bool
all_zero [] = true
all_zero (v ∷ m) = v == 0 && all_zero m

-- `ip.To4()`: four bytes, or sixteen that embed them.
unfoldable pub to4 : Ip → Option Ip
to4 (a ∷ b ∷ c ∷ d ∷ []) = some (a ∷ b ∷ c ∷ d ∷ [])
to4 (p ∷ q ∷ r ∷ s ∷ t ∷ u ∷ v ∷ w ∷ x ∷ y ∷ e ∷ f ∷ a ∷ b ∷ c ∷ d ∷ []) =
    if all_zero (p ∷ q ∷ r ∷ s ∷ t ∷ u ∷ v ∷ w ∷ x ∷ y ∷ []) && e == 255 && f == 255
    then some (a ∷ b ∷ c ∷ d ∷ [])
    else none
to4 _ = none

-- `IsLinkLocalUnicast` and `IsGlobalUnicast` of a four-byte address.
unfoldable pub is_link_local_unicast : Ip → Bool
is_link_local_unicast (a ∷ b ∷ rest) = a == 169 && b == 254
is_link_local_unicast _ = false

unfoldable pub is_global_unicast : Ip → Bool
is_global_unicast (a ∷ b ∷ c ∷ d ∷ []) =
    not (a == 255 && b == 255 && c == 255 && d == 255)
    && not (a == 0 && b == 0 && c == 0 && d == 0)
    && not (a == 127)
    && not (leb 224 a && leb a 239)
    && not (a == 169 && b == 254)
is_global_unicast _ = false

-- `mask.Size()`: the ones and the bits, both 0 for a mask that is not ones followed by zeros.
abbrev byte_ones : ℕ → Option ℕ
byte_ones v =
    if v == 0
    then some 0
    else if v == 128
    then some 1
    else if v == 192
    then some 2
    else if v == 224
    then some 3
    else if v == 240
    then some 4
    else if v == 248
    then some 5
    else if v == 252
    then some 6
    else if v == 254
    then some 7
    else none

abbrev plus_eight : Option ℕ → Option ℕ
plus_eight none = none
plus_eight (some n) = some (8 + n)

unfoldable pub mask_ones : List ℕ → Option ℕ
mask_ones [] = some 0
mask_ones (v ∷ m) =
    let rest = plus_eight (mask_ones m) in
    if v == 255 then rest else if all_zero m then byte_ones v else none

unfoldable pub mask_size : List ℕ → ℕ × ℕ
unfolding mask_ones
mask_size mask = elim (mask_ones mask) [ none ↦ (0, 0) | some ones ↦ (ones, 8 * length mask) ]

-- Whether two addresses agree under a mask.
unfoldable pub same_network : List ℕ → Ip → Ip → Bool
same_network [] [] [] = true
same_network (m ∷ mask) (a ∷ x) (b ∷ y) = bit_and 8 a m == bit_and 8 b m && same_network mask x y
same_network _ _ _ = false

-- `ip.To4() != nil && subnet.Contains(ip)`
abbrev both_in : List ℕ → Option Ip → Option Ip → Bool
both_in mask (some x) (some y) = same_network mask x y
both_in mask _ _ = false

unfoldable pub contains : IpNet → Ip → Bool
unfolding to4 same_network
contains subnet ip = both_in subnet.mask (to4 subnet.ip) (to4 ip)

-- `strings.Contains`
abbrev has_prefix : Text → Text → Bool
has_prefix s [] = true
has_prefix [] (d ∷ sub) = false
has_prefix (c ∷ s) (d ∷ sub) = c == d && has_prefix s sub

unfoldable pub has_substring : Text → Text → Bool
has_substring [] sub = has_prefix [] sub
has_substring (c ∷ s) sub = has_prefix (c ∷ s) sub || has_substring s sub
