-- ===== src/Common/Assoc.antt =====
-- A map keyed by numbers (32-byte hashes, account identifiers, rounds) as an association list.
use ace_chain.Common.Tests.{◌==◌, if◌then◌else◌}
use Prim.Native.Nat.{ℕ, ◌+◌}
use mathlib.Core.Path.{◌≡◌, refl}
use mathlib.Core.Option.{Option, none, some}
use mathlib.Core.List.{List, [], ◌∷◌}
use native.Mathlib.Omega.{arith}

abbrev pub Map {ℓ} : Type ℓ → Type ℓ
Map V = List (ℕ × V)

module _ {ℓ} {V : Type ℓ} where
  unfoldable pub lookup : ℕ → Map V → Option V
  lookup key [] = none
  lookup key ((i, held) ∷ rest) = if i == key then some held else lookup key rest

  unfoldable pub insert : ℕ → V → Map V → Map V
  insert key new [] = (key, new) ∷ []
  insert key new ((i, old) ∷ rest) =
      if i == key then (key, new) ∷ rest else (i, old) ∷ insert key new rest

  unfoldable pub remove : ℕ → Map V → Map V
  remove k [] = []
  remove k ((j, w) ∷ m) = if j == k then remove k m else (j, w) ∷ remove k m

  pub lookup-insert :
      (key at : ℕ) (new : V) (entries : Map V)
      → lookup at (insert key new entries) ≡ (if key == at then some new else lookup at entries)
  unfolding lookup insert
  lookup-insert key at new [] = refl
  lookup-insert key at new ((i, old) ∷ rest) = ground (arith, lookup-insert key at new rest)

  pub lookup-remove :
      (k j : ℕ) (m : Map V) → lookup j (remove k m) ≡ (if k == j then none else lookup j m)
  unfolding lookup remove
  lookup-remove k j [] = ground arith
  lookup-remove k j ((i, w) ∷ m) = ground (arith, lookup-remove k j m)

-- The sum of a measure over the values of a map, and of a value that may be missing.
abbrev pub total_of {ℓ} : {V : Type ℓ} → (V → ℕ) → Map V → ℕ
total_of f [] = 0
total_of f ((_, held) ∷ rest) = f held + total_of f rest

abbrev pub measured {ℓ} : {V : Type ℓ} → (V → ℕ) → Option V → ℕ
measured f none = 0
measured f (some held) = f held

pub total_of-insert {ℓ} :
    {V : Type ℓ} (f : V → ℕ) (key : ℕ) (new : V) (entries : Map V)
    → total_of f (insert key new entries) + measured f (lookup key entries)
      ≡ total_of f entries + f new
unfolding insert lookup
total_of-insert f key new [] = omega arith
total_of-insert f key new ((i, old) ∷ rest) = ground (arith, total_of-insert f key new rest)

-- A slot of a number, and of a pair, that reads 0 where nothing is written.
abbrev pub or_zero : Option ℕ → ℕ
or_zero none = 0
or_zero (some n) = n

abbrev pub or_zeros : Option (ℕ × ℕ) → ℕ × ℕ
or_zeros none = (0, 0)
or_zeros (some p) = p
