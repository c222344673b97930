-- ===== src/Config/DeviceId.antt =====
-- backend/internal/config/model.go: `ValidateDeviceID` against the form that its message states.
use wol_secure_light_switch.Prelude.{
  ℕ, ◌+◌, ◌≤◌, ◌<◌, ◌≡◌, refl, ◌⊎◌, ◌↔◌, Bool, true, false, ◌||◌, none, arith, [], ◌∷◌, Text,
  byte_len, length, All, Bool-cases, inl, inr, width,
}
use wol_secure_light_switch.Config.{
  is_letter, is_digit, bad_character, scan_device_id, validate_device_id,
}

abbrev pub IsAlphanumeric : ℕ → Type 0
IsAlphanumeric c = ((b'a' ≤ c) × (c ≤ b'z')) ⊎ ((b'A' ≤ c) × (c ≤ b'Z')) ⊎ ((b'0' ≤ c) × (c ≤ b'9'))

abbrev pub IsIdCharacter : ℕ → Type 0
IsIdCharacter c = IsAlphanumeric c ⊎ (c ≡ b'.') ⊎ (c ≡ b'_') ⊎ (c ≡ b'-')

-- A letter or digit, then letters, digits, '.', '_' and '-', 64 characters at most in all.
abbrev pub IsDeviceId : Text → Type 0
IsDeviceId [] = ⊥
IsDeviceId (c ∷ s) = IsAlphanumeric c × All IsIdCharacter s × (length (c ∷ s) ≤ 64)

alphanumeric : ℕ → Bool
alphanumeric c = is_letter c || is_digit c

alphanumeric_iff : (c : ℕ) → (alphanumeric c ≡ true) ↔ IsAlphanumeric c
unfolding alphanumeric
alphanumeric_iff c = (λ h. ground arith, λ h. ground arith)

bad_first_iff : (c : ℕ) → (bad_character 0 c ≡ false) ↔ IsAlphanumeric c
bad_first_iff c = (
  λ h. (alphanumeric_iff c).0 (unfold bad_character alphanumeric in ground arith),
  λ h. unfold bad_character alphanumeric in ground (arith, (alphanumeric_iff c).1 h),
)

bad_tail_to : (index c : ℕ) → 0 < index → bad_character index c ≡ false → IsIdCharacter c
bad_tail_to index c pos h = elim (Bool-cases (alphanumeric c)) [
  | inl fine ↦ inl ((alphanumeric_iff c).0 fine)
  | inr other ↦ inr (unfold bad_character alphanumeric in ground arith)
]

bad_tail_from : (index c : ℕ) → 0 < index → IsIdCharacter c → bad_character index c ≡ false
bad_tail_from index c pos (inl fine) =
    unfold bad_character alphanumeric in ground (arith, (alphanumeric_iff c).1 fine)
bad_tail_from index c pos (inr other) = unfold bad_character in ground arith

scan_tail_to :
    (index : ℕ) (s : Text) → 0 < index → scan_device_id index s ≡ none → All IsIdCharacter s
unfolding scan_device_id
scan_tail_to index [] pos h = tt
scan_tail_to index (c ∷ s) pos h = (
  bad_tail_to index c pos (ground arith),
  scan_tail_to (index + 1) s (omega arith) (ground arith),
)

scan_tail_from :
    (index : ℕ) (s : Text) → 0 < index → All IsIdCharacter s → scan_device_id index s ≡ none
unfolding scan_device_id
scan_tail_from index [] pos h = refl
scan_tail_from index (c ∷ s) pos (here, rest) =
    rw (bad_tail_from index c pos here) (scan_tail_from (index + 1) s (omega arith) rest)

width_of_ascii : (c : ℕ) → IsIdCharacter c → width c ≡ 1
width_of_ascii c h = ground arith

byte_len_of_ascii : (s : Text) → All IsIdCharacter s → byte_len s ≡ length s
byte_len_of_ascii [] h = refl
byte_len_of_ascii (c ∷ s) (here, rest) =
    omega (arith, width_of_ascii c here, byte_len_of_ascii s rest)

validate_to : (id : Text) → validate_device_id id ≡ none → IsDeviceId id
unfolding validate_device_id
validate_to [] h = ground arith
validate_to (c ∷ s) h =
    let first : IsAlphanumeric c = (bad_first_iff c).0 (unfold scan_device_id in ground arith) in
    let rest : All IsIdCharacter s =
      scan_tail_to 1 s (omega arith) (unfold scan_device_id in ground arith) in
    (first, rest, ground (arith, byte_len_of_ascii (c ∷ s) (inl first, rest)))

validate_from : (id : Text) → IsDeviceId id → validate_device_id id ≡ none
unfolding validate_device_id
validate_from [] h = absurd h
validate_from (c ∷ s) (first, rest, short) =
    unfold scan_device_id in
    ground (
      arith,
      byte_len_of_ascii (c ∷ s) (inl first, rest),
      (bad_first_iff c).1 first,
      scan_tail_from 1 s (omega arith) rest,
    )

-- An id is accepted exactly when it is a letter or digit, then letters, digits, '.', '_' and '-',
-- with 64 characters at most in all.
pub validate_device_id_iff : (id : Text) → (validate_device_id id ≡ none) ↔ IsDeviceId id
validate_device_id_iff id = (validate_to id, validate_from id)
