-- ===== src/Prelude/Maps.antt =====
-- The `Map` of the source, with numbers for keys: an association list in insertion order.
use Prim.Native.Nat.{ℕ, ◌+◌, ◌≤◌}
use mathlib.Core.Path.{◌≡◌, refl}
use mathlib.Core.Bool.{Bool}
use mathlib.Core.Option.{Option, none, some}
use mathlib.Core.List.{List, [], ◌∷◌}
use native.Mathlib.Omega.{arith}
use nodejs_wss_tunnel.Prelude.Tests.{◌==◌, if◌then◌else◌, is_some}
use nodejs_wss_tunnel.Prelude.Lists.{length}

-- `map.get(k) || 0` and `map.get(k) || 1`, where 0 is falsy.
abbrev pub or_zero : Option ℕ → ℕ
or_zero none = 0
or_zero (some n) = n

abbrev pub or_one : Option ℕ → ℕ
or_one none = 1
or_one (some n) = if n == 0 then 1 else n

module _ {ℓ} {V : Type ℓ} where
  unfoldable pub lookup : ℕ → List (ℕ × V) → Option V
  lookup key [] = none
  lookup key ((other, val) ∷ entries) = if other == key then some val else lookup key entries

  -- `set`: a key that is there keeps its place.
  unfoldable pub insert : ℕ → V → List (ℕ × V) → List (ℕ × V)
  insert key val [] = (key, val) ∷ []
  insert key val ((other, old) ∷ entries) =
      if other == key then (key, val) ∷ entries else (other, old) ∷ insert key val entries

  -- `delete`.
  unfoldable pub remove : ℕ → List (ℕ × V) → List (ℕ × V)
  remove key [] = []
  remove key ((other, val) ∷ entries) =
      let rest = remove key entries in if other == key then rest else (other, val) ∷ rest

  unfoldable pub has : ℕ → List (ℕ × V) → Bool
  has key entries = is_some (lookup key entries)

  pub lookup-insert :
      (key other : ℕ) (val : V) (entries : List (ℕ × V))
      → lookup other (insert key val entries)
        ≡ (if key == other then some val else lookup other entries)
  unfolding lookup insert
  lookup-insert key other val [] = refl
  lookup-insert key other val ((i, old) ∷ entries) =
      ground (arith, lookup-insert key other val entries)

  pub lookup-remove :
      (key other : ℕ) (entries : List (ℕ × V))
      → lookup other (remove key entries) ≡ (if key == other then none else lookup other entries)
  unfolding lookup remove
  lookup-remove key other [] = ground arith
  lookup-remove key other ((i, old) ∷ entries) = ground (arith, lookup-remove key other entries)

  pub length-remove-le :
      (key : ℕ) (entries : List (ℕ × V)) → length (remove key entries) ≤ length entries
  unfolding remove
  length-remove-le key [] = omega arith
  length-remove-le key ((i, old) ∷ entries) = ground (arith, length-remove-le key entries)

  pub length-insert-le :
      (key : ℕ) (val : V) (entries : List (ℕ × V))
      → length (insert key val entries) ≤ length entries + 1
  unfolding insert
  length-insert-le key val [] = omega arith
  length-insert-le key val ((i, old) ∷ entries) = ground (arith, length-insert-le key val entries)
