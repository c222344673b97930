-- ===== src/Config/Address.antt =====
-- backend/internal/config/hosts.go: what an address that is not an IP may hold. The address is an
-- argument of the ping command.
use wol_secure_light_switch.Prelude.{
  ℕ, ◌≤◌, ◌≡◌, refl, Bool, true, false, ◌&&◌, ◌||◌, none, arith, List, [], ◌∷◌, Text, byte_len,
  ◌==◌, Bool-cases, inl, inr,
}
use wol_secure_light_switch.Config.{
  Formats, valid_host_address, split_on, extend_first, valid_label, all_labels, all_chars, first_is,
  is_letter, is_digit,
}

abbrev name_character : ℕ → Bool
name_character c = is_letter c || is_digit c || c == b'-'

-- The characters of a host name with its dots.
unfoldable pub address_character : ℕ → Bool
address_character c = name_character c || c == b'.'

labels_hold : List Text → Bool
labels_hold [] = true
labels_hold (l ∷ ls) = all_chars name_character l && labels_hold ls

labels_hold_of_valid : (ls : List Text) → all_labels ls ≡ true → labels_hold ls ≡ true
unfolding labels_hold
labels_hold_of_valid [] h = refl
labels_hold_of_valid (l ∷ ls) h =
    let here : all_chars name_character l ≡ true = unfold valid_label in ground arith in
    ground (arith, here, labels_hold_of_valid ls)

extend_first-labels :
    (c : ℕ) (ls : List Text)
    → labels_hold (extend_first c ls) ≡ true
    → (name_character c ≡ true) × (labels_hold ls ≡ true)
unfolding labels_hold extend_first
extend_first-labels c [] h = ground arith
extend_first-labels c (l ∷ ls) h = ground arith

all_chars_of_split :
    (s : Text) → labels_hold (split_on b'.' s) ≡ true → all_chars address_character s ≡ true
unfolding split_on
all_chars_of_split [] h = refl
all_chars_of_split (c ∷ s) h = elim (Bool-cases (c == b'.')) [
  | inl dot ↦
      let rest : labels_hold (split_on b'.' s) ≡ true = unfold labels_hold in ground arith in
      ground (arith, all_chars_of_split s rest, dot_fits dot)
  | inr other ↦
      let (here, rest) = extend_first-labels c (split_on b'.' s) (ground arith) in
      ground (arith, all_chars_of_split s rest, name_fits here)
]
  where
    dot_fits : (c == b'.') ≡ true → address_character c ≡ true
    dot_fits dot = unfold address_character in ground arith

    name_fits : name_character c ≡ true → address_character c ≡ true
    name_fits here = unfold address_character in ground (arith, here)

no_dash_first :
    (c : ℕ) (ls : List Text) → all_labels (extend_first c ls) ≡ true → (c == b'-') ≡ false
unfolding extend_first valid_label
no_dash_first c [] h = ground arith
no_dash_first c (l ∷ ls) h = ground arith

first_of_split : (s : Text) → all_labels (split_on b'.' s) ≡ true → first_is b'-' s ≡ false
unfolding split_on
first_of_split [] h = refl
first_of_split (c ∷ s) h = elim (Bool-cases (c == b'.')) [
  | inl dot ↦ ground arith
  | inr other ↦ no_dash_first c (split_on b'.' s) (ground arith)
]

-- An accepted address that is no IP has only letters, digits, '-' and '.', does not begin with
-- '-', is not all digits and dots, and has at most 253 bytes.
pub valid_host_address-safe :
    (f : Formats) (address : Text)
    → f.parse_ip address ≡ none
    → valid_host_address f address ≡ true
    → (all_chars address_character address ≡ true)
      × (first_is b'-' address ≡ false)
      × (all_chars (λ c. is_digit c || c == b'.') address ≡ false)
      × (byte_len address ≤ 253)
valid_host_address-safe f address no_ip h =
    let labels : all_labels (split_on b'.' address) ≡ true =
      unfold valid_host_address in ground arith in
    (
      all_chars_of_split address (labels_hold_of_valid (split_on b'.' address) labels),
      first_of_split address labels,
      unfold valid_host_address in ground arith,
      unfold valid_host_address in ground arith,
    )
