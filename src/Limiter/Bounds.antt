-- ===== src/Limiter/Bounds.antt =====
-- backend/internal/auth/limiter.go: the table of tracked keys stays a map of bounded size.
use wol_secure_light_switch.Prelude.{
  ℕ, zero, suc, ◌≤◌, ◌<◌, ◌+◌, ◌≡◌, refl, ◌≢◌, none, some, arith, Text, [], ◌∷◌, text_dec, length,
  Bool-cases, inl, inr, ltb, leb, same_ne, ◌⊎◌,
}
use wol_secure_light_switch.Prelude.Map.{
  Map, lookup, erase, Distinct, lookup-erase_self, lookup-erase_ne, erase-Distinct,
  length-erase_present,
}
use wol_secure_light_switch.Limiter.{
  LoginAttempt, Limiter, attempt_expires_at, oldest_from, evict_loop, count_up,
}

-- No key occurs twice, the empty key is not tracked, and the table is within its capacity.
pub record IsValid (l : Limiter) : Type 0 where
  pub distinct : Distinct l.attempts
  pub named : lookup [] l.attempts ≡ none
  pub bounded : length l.attempts ≤ l.max_tracked_keys
  pub positive : 0 < l.max_tracked_keys

-- What the scan has found: the key that it started from, or an entry of the map. The entry found
-- expires no later than any other.
abbrev pub NotBefore : Limiter → ℕ → Map LoginAttempt → Type 0
NotBefore l t [] = Unit
NotBefore l t ((k, a) ∷ m) = (t ≤ attempt_expires_at l a) × NotBefore l t m

abbrev pub Found : Limiter → ℕ → Map LoginAttempt → Text → Type 0
Found l e m r =
    (a : LoginAttempt) × (lookup r m ≡ some a)
    × (attempt_expires_at l a ≤ e)
    × NotBefore l (attempt_expires_at l a) m

module _ (l : Limiter) where
  NotBefore-mono : {s t : ℕ} (m : Map LoginAttempt) → s ≤ t → NotBefore l t m → NotBefore l s m
  NotBefore-mono [] h n = tt
  NotBefore-mono ((k, a) ∷ m) h n = (omega arith, NotBefore-mono m h n.1)

  Found-cons :
      (e f : ℕ) (j r : Text) (a : LoginAttempt) (m : Map LoginAttempt)
      → lookup j m ≡ none
      → f ≤ e
      → f ≤ attempt_expires_at l a
      → Found l f m r
      → Found l e ((j, a) ∷ m) r
  unfolding lookup
  Found-cons e f j r a m absent low here (b, found, below, least) =
      (b, ground arith, omega arith, (omega arith, least))

  key-ne :
      (j : Text) (a : LoginAttempt) (m : Map LoginAttempt) → lookup [] ((j, a) ∷ m) ≡ none → j ≢ []
  unfolding lookup
  key-ne j a m h = ground arith

  tail-none :
      (q j : Text) (a : LoginAttempt) (m : Map LoginAttempt)
      → lookup q ((j, a) ∷ m) ≡ none
      → lookup q m ≡ none
  unfolding lookup
  tail-none q j a m h = ground arith

  -- The scan of a map keeps what it started from, or ends at an entry that expires no later than
  -- any other.
  abbrev Scanned : Text → ℕ → Map LoginAttempt → Text → Type 0
  Scanned k e m r = ((r ≡ k) × NotBefore l e m) ⊎ Found l e m r

  Scanned-better :
      (k j r : Text) (e : ℕ) (a : LoginAttempt) (m : Map LoginAttempt)
      → lookup j m ≡ none
      → attempt_expires_at l a ≤ e
      → Scanned j (attempt_expires_at l a) m r
      → Found l e ((j, a) ∷ m) r
  unfolding lookup
  Scanned-better k j r e a m absent le (inl (same_key, least)) =
      (a, ground arith, le, (omega arith, least))
  Scanned-better k j r e a m absent le (inr f) =
      Found-cons e (attempt_expires_at l a) j r a m absent le (omega arith) f

  Scanned-worse :
      (k j r : Text) (e : ℕ) (a : LoginAttempt) (m : Map LoginAttempt)
      → lookup j m ≡ none
      → e ≤ attempt_expires_at l a
      → Scanned k e m r
      → Scanned k e ((j, a) ∷ m) r
  Scanned-worse k j r e a m absent le (inl (same_key, least)) = inl (same_key, (le, least))
  Scanned-worse k j r e a m absent le (inr f) =
      inr (Found-cons e e j r a m absent (omega arith) le f)

  oldest_from-Scanned :
      (k : Text) (e : ℕ) (m : Map LoginAttempt)
      → k ≢ []
      → lookup [] m ≡ none
      → Distinct m
      → Scanned k e m (oldest_from l k e m)
  unfolding oldest_from
  oldest_from-Scanned k e [] ne named d = inl (refl, tt)
  oldest_from-Scanned k e ((j, a) ∷ m) ne named d =
      let rest = tail-none [] j a m named in
      elim (Bool-cases (ltb (attempt_expires_at l a) e)) [
        | inl lt ↦ inr (
            rw (same_ne k [] ne, lt)
              (Scanned-better k j _ e a m d.0 (ground arith)
                (oldest_from-Scanned j (attempt_expires_at l a) m (key-ne j a m named) rest d.1)))
        | inr ge ↦
            rw (same_ne k [] ne, ge)
              (Scanned-worse k j _ e a m d.0 (ground arith) (oldest_from-Scanned k e m ne rest d.1))
      ]

  -- Over a map that is not empty, has no key twice and does not have the empty key, the scan of
  -- `makeRoomLocked` ends at an entry of the map, and no entry expires earlier.
  pub oldest_from-Found :
      (m : Map LoginAttempt)
      → lookup [] m ≡ none
      → Distinct m
      → 0 < length m
      → (e : ℕ) × Found l e m (oldest_from l [] 0 m)
  unfolding oldest_from text_dec
  oldest_from-Found [] named d h = absurd (omega arith)
  oldest_from-Found ((j, a) ∷ m) named d h = (
    attempt_expires_at l a,
    Scanned-better [] j _ (attempt_expires_at l a) a m d.0 (omega arith) (
        oldest_from-Scanned j (attempt_expires_at l a) m (key-ne j a m named)
          (tail-none [] j a m named) d.1),
  )

  -- The key that one round of the eviction loop deletes.
  pub evict-shrinks :
      (m : Map LoginAttempt)
      → lookup [] m ≡ none
      → Distinct m
      → 0 < length m
      → (oldest_from l [] 0 m ≢ []) × (length (erase (oldest_from l [] 0 m) m) + 1 ≤ length m)
  evict-shrinks m named d h =
      let (e, f) = oldest_from-Found m named d h in
      (ne_of_found m named f.1, length-erase_present _ f.0 m f.1)
    where
      ne_of_found :
          {r : Text} {b : LoginAttempt} (n : Map LoginAttempt)
          → lookup [] n ≡ none
          → lookup r n ≡ some b
          → r ≢ []
      ne_of_found n absent here same_key = cc

  pub erase-named :
      (k : Text) (m : Map LoginAttempt) → lookup [] m ≡ none → lookup [] (erase k m) ≡ none
  erase-named k m h = ground (arith, lookup-erase_self k m, lookup-erase_ne k [] m)

-- With no key tracked twice, the empty key not tracked, a positive capacity and fuel for each
-- entry: the loop of `makeRoomLocked` ends with room for one more, and keeps these facts about the
-- keys.
pub evict_loop-room :
    (fuel : ℕ) (l : Limiter)
    → lookup [] l.attempts ≡ none
    → Distinct l.attempts
    → length l.attempts ≤ fuel
    → 0 < l.max_tracked_keys
    → (length (evict_loop fuel l).attempts < l.max_tracked_keys)
      × (lookup [] (evict_loop fuel l).attempts ≡ none)
      × Distinct (evict_loop fuel l).attempts
unfolding evict_loop
evict_loop-room zero l named d h pos = (omega arith, named, d)
evict_loop-room (suc fuel) l named d h pos =
    elim (Bool-cases (leb l.max_tracked_keys (length l.attempts))) [
      | inr under ↦ rw under (ground arith, named, d)
      | inl over ↦
          let (ne, shorter) = evict-shrinks l l.attempts named d (ground arith) in
          let k = oldest_from l [] 0 l.attempts in
          rw (over, same_ne k [] ne)
            (evict_loop-room fuel
              (record l {
                attempts = erase k l.attempts;
                evicted_keys_total = count_up l.evicted_keys_total;
              })
              (erase-named l k l.attempts named) (erase-Distinct k l.attempts d) (omega arith) pos)
    ]
