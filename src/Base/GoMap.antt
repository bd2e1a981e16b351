-- ===== src/Base/GoMap.antt =====
-- A Go map keyed by unsigned integers, as an association list without repeated keys.
use Prim.Native.Nat.{ℕ, ◌+◌}
use mathlib.Core.Path.{◌≡◌, refl}
use mathlib.Core.Option.{Option, none, some}
use mathlib.Core.List.{List, [], ◌∷◌}
use native.Mathlib.Omega.{arith}
use hyper_l.Base.Tests.{◌==◌, if◌then◌else◌}
use hyper_l.Base.Lists.{length}

-- The entries of a map, each a key with what it maps to.
abbrev pub GoMap {ℓ} : Type ℓ → Type ℓ
GoMap A = List (ℕ × A)

module _ {ℓ} {V : Type ℓ} where
  -- `x, ok := m[k]`
  abbrev pub lookup : ℕ → GoMap V → Option V
  lookup key [] = none
  lookup key (entry ∷ m) = if key == entry.0 then some entry.1 else lookup key m

  -- `m[k] = v`, in the place of the old entry or else at the end
  abbrev pub insert : ℕ → V → GoMap V → GoMap V
  insert key v [] = (key, v) ∷ []
  insert key v (entry ∷ m) = if key == entry.0 then (key, v) ∷ m else entry ∷ insert key v m

  -- `delete(m, k)`
  abbrev pub erase : ℕ → GoMap V → GoMap V
  erase key [] = []
  erase key (entry ∷ m) = if key == entry.0 then m else entry ∷ erase key m

  -- Every key is listed once, as in a Go map.
  abbrev pub HasUniqueKeys : GoMap V → Type ℓ
  HasUniqueKeys [] = Unit
  HasUniqueKeys (e ∷ d) = (lookup e.0 d ≡ none) × HasUniqueKeys d

  pub lookup-insert :
      (j k : ℕ) (v : V) (d : GoMap V)
      → lookup j (insert k v d) ≡ (if j == k then some v else lookup j d)
  lookup-insert j k v [] = refl
  lookup-insert j k v (e ∷ d) = ground (arith, lookup-insert j k v d)

  pub insert-HasUniqueKeys :
      (k : ℕ) (v : V) (d : GoMap V) → HasUniqueKeys d → HasUniqueKeys (insert k v d)
  insert-HasUniqueKeys k v [] h = (refl, tt)
  insert-HasUniqueKeys k v (e ∷ d) h =
      ground (arith, insert-HasUniqueKeys k v d h.1, lookup-insert e.0 k v d)

  pub lookup-erase :
      (j k : ℕ) (d : GoMap V)
      → HasUniqueKeys d
      → lookup j (erase k d) ≡ (if j == k then none else lookup j d)
  lookup-erase j k [] h = ground arith
  lookup-erase j k (e ∷ d) h = ground (arith, lookup-erase j k d h.1)

  pub erase-HasUniqueKeys : (k : ℕ) (d : GoMap V) → HasUniqueKeys d → HasUniqueKeys (erase k d)
  erase-HasUniqueKeys k [] h = tt
  erase-HasUniqueKeys k (e ∷ d) h =
      ground (arith, erase-HasUniqueKeys k d h.1, lookup-erase e.0 k d h.1)

  -- A new key makes the map one longer, a known one leaves its length.
  pub length-insert_new :
      (k : ℕ) (v : V) (d : GoMap V) → lookup k d ≡ none → length (insert k v d) ≡ length d + 1
  length-insert_new k v [] h = refl
  length-insert_new k v (e ∷ d) h = ground (arith, length-insert_new k v d)

  pub length-insert_old :
      (k : ℕ) (v w : V) (d : GoMap V) → lookup k d ≡ some w → length (insert k v d) ≡ length d
  length-insert_old k v w [] h = cc
  length-insert_old k v w (e ∷ d) h = ground (arith, length-insert_old k v w d)

  pub erase-insert : (k : ℕ) (v : V) (d : GoMap V) → erase k (insert k v d) ≡ erase k d
  erase-insert k v [] = ground arith
  erase-insert k v (e ∷ d) = ground (arith, erase-insert k v d)
