-- ===== src/Prelude/Map.antt =====
-- Go maps keyed by strings, as association lists. The order of the list is the order in which a
-- `range` over the map visits it.
use wol_secure_light_switch.Prelude.Lists.{if◌then◌else◌, length}
use wol_secure_light_switch.Prelude.Strings.{Text, text_dec}
use Prim.Native.Nat.{◌+◌, ◌≤◌}
use mathlib.Core.Path.{◌≡◌, refl}
use mathlib.Core.Logic.{ite, ◌≢◌}
use mathlib.Core.Bool.{Bool}
use mathlib.Core.Option.{Option, none, some}
use mathlib.Core.List.{List, [], ◌∷◌}
use native.Mathlib.Omega.{arith}

abbrev pub Map {ℓ} : Type ℓ → Type ℓ
Map V = List (Text × V)

module _ {ℓ} {V : Type ℓ} where
  -- `v, ok := m[k]`
  unfoldable pub lookup : Text → Map V → Option V
  lookup k [] = none
  lookup k ((j, v) ∷ m) = ite (text_dec j k) (some v) (lookup k m)

  -- `delete(m, k)`
  unfoldable pub erase : Text → Map V → Map V
  erase k [] = []
  erase k ((j, v) ∷ m) = ite (text_dec j k) (erase k m) ((j, v) ∷ erase k m)

  -- `m[k] = v`
  unfoldable pub put : Text → V → Map V → Map V
  unfolding erase
  put k v m = (k, v) ∷ erase k m

  -- A loop that deletes the entries that fail the test.
  unfoldable pub retain : (Text → V → Bool) → Map V → Map V
  retain p [] = []
  retain p ((j, v) ∷ m) = if p j v then (j, v) ∷ retain p m else retain p m

  -- No key occurs twice: every Go map meets this.
  abbrev pub Distinct : Map V → Type ℓ
  Distinct [] = Unit
  Distinct ((k, v) ∷ m) = (lookup k m ≡ none) × Distinct m

  pub lookup-erase_self : (k : Text) (m : Map V) → lookup k (erase k m) ≡ none
  unfolding lookup erase
  lookup-erase_self k [] = refl
  lookup-erase_self k ((j, v) ∷ m) = ground (arith, lookup-erase_self k m)

  pub lookup-erase_ne : (k q : Text) (m : Map V) → q ≢ k → lookup q (erase k m) ≡ lookup q m
  unfolding lookup erase
  lookup-erase_ne k q [] h = refl
  lookup-erase_ne k q ((j, v) ∷ m) h = ground (arith, lookup-erase_ne k q m h)

  pub lookup-erase :
      (k q : Text) (m : Map V) → lookup q (erase k m) ≡ ite (text_dec q k) none (lookup q m)
  lookup-erase k q m = ground (arith, lookup-erase_self k m, lookup-erase_ne k q m)

  pub lookup-put :
      (k q : Text) (v : V) (m : Map V)
      → lookup q (put k v m) ≡ ite (text_dec k q) (some v) (lookup q m)
  unfolding lookup put
  lookup-put k q v m = ground (arith, lookup-erase_ne k q m)

  pub erase-Distinct : (k : Text) (m : Map V) → Distinct m → Distinct (erase k m)
  unfolding erase
  erase-Distinct k [] d = tt
  erase-Distinct k ((j, v) ∷ m) d = ground (arith, erase-Distinct k m d.1, lookup-erase_ne k j m)

  pub put-Distinct : (k : Text) (v : V) (m : Map V) → Distinct m → Distinct (put k v m)
  unfolding put
  put-Distinct k v m d = (lookup-erase_self k m, erase-Distinct k m d)

  pub retain-none :
      (p : Text → V → Bool) (k : Text) (m : Map V)
      → lookup k m ≡ none
      → lookup k (retain p m) ≡ none
  unfolding lookup retain
  retain-none p k [] h = refl
  retain-none p k ((j, v) ∷ m) h = ground (arith, retain-none p k m)

  pub retain-Distinct : (p : Text → V → Bool) (m : Map V) → Distinct m → Distinct (retain p m)
  unfolding retain
  retain-Distinct p [] d = tt
  retain-Distinct p ((j, v) ∷ m) d = ground (arith, retain-Distinct p m d.1, retain-none p j m)

  -- What a reader sees of a value after the deletions.
  abbrev pub keep : (V → Bool) → Option V → Option V
  keep p none = none
  keep p (some v) = if p v then some v else none

  pub lookup-retain :
      (p : Text → V → Bool) (k : Text) (m : Map V)
      → Distinct m
      → lookup k (retain p m) ≡ keep (p k) (lookup k m)
  unfolding lookup retain
  lookup-retain p k [] d = refl
  lookup-retain p k ((j, v) ∷ m) d = ground (arith, lookup-retain p k m d.1, retain-none p j m)

  pub erase_absent : (k : Text) (m : Map V) → lookup k m ≡ none → erase k m ≡ m
  unfolding lookup erase
  erase_absent k [] h = refl
  erase_absent k ((j, v) ∷ m) h = ground (arith, erase_absent k m)

  pub length-erase-le : (k : Text) (m : Map V) → length (erase k m) ≤ length m
  unfolding erase
  length-erase-le k [] = omega arith
  length-erase-le k ((j, v) ∷ m) = ground (arith, length-erase-le k m)

  pub length-erase_present :
      (k : Text) (v : V) (m : Map V) → lookup k m ≡ some v → length (erase k m) + 1 ≤ length m
  unfolding lookup erase
  length-erase_present k w [] h = absurd (cc h)
  length-erase_present k w ((j, v) ∷ m) h =
      ground (arith, length-erase_present k w m, length-erase-le k m)

  pub length-retain-le : (p : Text → V → Bool) (m : Map V) → length (retain p m) ≤ length m
  unfolding retain
  length-retain-le p [] = omega arith
  length-retain-le p ((j, v) ∷ m) = ground (arith, length-retain-le p m)
