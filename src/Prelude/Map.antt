-- ===== src/Prelude/Map.antt =====
-- A `HashMap` with integer keys as an association list. The program never depends on the order in
-- which a map is iterated.
use Prim.Native.Nat.{ℕ}
use mathlib.Core.Path.{◌≡◌, refl}
use mathlib.Core.Bool.{Bool, true, false}
use mathlib.Core.Option.{Option, none, some}
use mathlib.Core.List.{List, [], ◌∷◌}
use native.Mathlib.Omega.{arith}
use micromegas.Prelude.Tests.{◌==◌, if◌then◌else◌}

abbrev pub HashMap : Type 0 → Type 0
HashMap V = List (ℕ × V)

module _ {V : Type 0} where
  -- `map.get(&k)`
  unfoldable pub lookup : ℕ → HashMap V → Option V
  lookup k [] = none
  lookup k ((j, v) ∷ m) = if j == k then some v else lookup k m

  abbrev pub is_some : Option V → Bool
  is_some none = false
  is_some (some v) = true

  -- `map.insert(k, v)`, where what it returns is `lookup k m`
  unfoldable pub insert : ℕ → V → HashMap V → HashMap V
  insert k v m = (k, v) ∷ m

  -- `map.entry(k).or_insert_with(|| v)`
  unfoldable pub or_insert : ℕ → V → HashMap V → HashMap V
  or_insert k v m = if is_some (lookup k m) then m else (k, v) ∷ m

  pub lookup-insert :
      (k j : ℕ) (v : V) (m : HashMap V)
      → lookup j (insert k v m) ≡ (if k == j then some v else lookup j m)
  unfolding lookup insert
  lookup-insert k j v m = refl

  abbrev pub Has : HashMap V → ℕ → Type 0
  Has m k = is_some (lookup k m) ≡ true

  pub or_insert-Has_self : (k : ℕ) (v : V) (m : HashMap V) → Has (or_insert k v m) k
  unfolding or_insert lookup
  or_insert-Has_self k v m = ground arith

  pub or_insert-Has : (k j : ℕ) (v : V) (m : HashMap V) → Has m j → Has (or_insert k v m) j
  unfolding or_insert lookup
  or_insert-Has k j v m h = ground arith
