-- ===== src/Base/Table.antt =====
-- A Go map with string keys, as an association list. Go walks a map in no fixed order, so the order
-- of the list means nothing.
use mathlib.Core.Path.{◌≡◌, refl}
use mathlib.Core.Option
use mathlib.Core.Option.{Option, none, some}
use mathlib.Core.List.{List, [], ◌∷◌, map}
use native.Mathlib.Omega.{arith}
use Prim.Native.String.{String}
use gonit.Base.Tests.{if◌then◌else◌, same_text, eq_iff, is_some}
use gonit.Base.Lists.{any}

abbrev pub Table {ℓ} : Type ℓ → Type ℓ
Table V = List (String × V)

module _ {ℓ} {V : Type ℓ} where
  -- `v, ok := m[k]`
  unfoldable pub lookup : String → Table V → Option V
  lookup k [] = none
  lookup k ((j, v) ∷ m) = if same_text j k then some v else lookup k m

  -- `delete(m, k)`
  unfoldable pub erase : String → Table V → Table V
  erase k [] = []
  erase k ((j, v) ∷ m) = let rest = erase k m in if same_text j k then rest else (j, v) ∷ rest

  -- `m[k] = v`
  unfoldable pub insert : String → V → Table V → Table V
  insert k v m = (k, v) ∷ erase k m

  -- A write through the pointer `m[k]`.
  unfoldable pub adjust : String → (V → V) → Table V → Table V
  adjust k f [] = []
  adjust k f ((j, v) ∷ m) = (j, if same_text j k then f v else v) ∷ adjust k f m

  abbrev pub keys : Table V → List String
  keys = map (λ p. p.0)

  -- A key stands in the map once.
  abbrev pub IsUnique : Table V → Type ℓ
  IsUnique [] = Unit
  IsUnique ((k, v) ∷ m) = (lookup k m ≡ none) × IsUnique m

  pub lookup-erase :
      (j k : String) (m : Table V)
      → lookup j (erase k m) ≡ (if same_text k j then none else lookup j m)
  unfolding lookup erase
  lookup-erase j k [] = ground arith
  lookup-erase j k ((i, v) ∷ m) =
      ground (arith, lookup-erase j k m, eq_iff i k, eq_iff i j, eq_iff k j)

  pub lookup-insert :
      (j k : String) (v : V) (m : Table V)
      → lookup j (insert k v m) ≡ (if same_text k j then some v else lookup j m)
  unfolding lookup insert
  lookup-insert j k v m = ground (arith, lookup-erase j k m)

  pub lookup-adjust :
      (j k : String) (f : V → V) (m : Table V)
      → lookup j (adjust k f m) ≡ (if same_text k j then Option.map f (lookup j m) else lookup j m)
  unfolding lookup adjust
  lookup-adjust j k f [] = ground arith
  lookup-adjust j k f ((i, v) ∷ m) =
      ground (arith, lookup-adjust j k f m, eq_iff i k, eq_iff i j, eq_iff k j)

  pub any-keys :
      (k : String) (m : Table V) → any (λ j. same_text j k) (keys m) ≡ is_some (lookup k m)
  unfolding lookup
  any-keys k [] = refl
  any-keys k ((j, v) ∷ m) = ground (arith, any-keys k m)

  pub erase-IsUnique : (k : String) (m : Table V) → IsUnique m → IsUnique (erase k m)
  unfolding erase
  erase-IsUnique k [] h = tt
  erase-IsUnique k ((j, v) ∷ m) h = ground (arith, erase-IsUnique k m h.1, lookup-erase j k m)

  pub insert-IsUnique : (k : String) (v : V) (m : Table V) → IsUnique m → IsUnique (insert k v m)
  unfolding insert
  insert-IsUnique k v m h = (ground (arith, lookup-erase k k m, eq_iff k k), erase-IsUnique k m h)

  pub adjust-IsUnique :
      (k : String) (f : V → V) (m : Table V) → IsUnique m → IsUnique (adjust k f m)
  unfolding adjust
  adjust-IsUnique k f [] h = tt
  adjust-IsUnique k f ((j, v) ∷ m) h =
      ground (arith, adjust-IsUnique k f m h.1, lookup-adjust j k f m)

module _ {ℓ} {V : Type ℓ} where
  -- The map with `f` at each value.
  abbrev pub map_values : (V → V) → Table V → Table V
  map_values f = map (λ p. (p.0, f p.1))

  pub lookup-map_values :
      (k : String) (f : V → V) (m : Table V) → lookup k (map_values f m) ≡ Option.map f (lookup k m)
  unfolding lookup
  lookup-map_values k f [] = refl
  lookup-map_values k f ((j, v) ∷ m) = ground (arith, lookup-map_values k f m)
