-- ===== src/Common/Maps.antt =====
-- Go's maps from texts, as association lists; where the program ranges over a map, the order of the
-- list stands for the order that it happens to have.
use mathlib.Core.Path.{◌≡◌, refl}
use mathlib.Core.Bool.{Bool, true, false, not, ◌&&◌}
use mathlib.Core.Option.{Option, none, some}
use mathlib.Core.List.{List, [], ◌∷◌}
use native.Mathlib.Omega.{arith}
use Prim.Native.String.{String}
use ofelia.Common.Tests.{if◌then◌else◌}
use ofelia.Common.Text.{◌is◌, is_iff}

module _ {ℓ} {V : Type ℓ} where
  unfoldable pub lookup : String → List (String × V) → Option V
  lookup k [] = none
  lookup k ((j, v) ∷ m) = if j is k then some v else lookup k m

  -- `m[k] = v`
  unfoldable pub assign : String → V → List (String × V) → List (String × V)
  assign k v [] = (k, v) ∷ []
  assign k v ((j, w) ∷ m) = if j is k then (k, v) ∷ m else (j, w) ∷ assign k v m

  -- `delete(m, k)`
  unfoldable pub without : String → List (String × V) → List (String × V)
  without k [] = []
  without k ((j, w) ∷ m) = let rest = without k m in if j is k then rest else (j, w) ∷ rest

  unfoldable pub has_key : String → List (String × V) → Bool
  has_key k [] = false
  has_key k ((j, w) ∷ m) = if j is k then true else has_key k m

  -- No key stands twice in the list.
  unfoldable pub has_distinct : List (String × V) → Bool
  unfolding has_key
  has_distinct [] = true
  has_distinct ((j, w) ∷ m) = not (has_key j m) && has_distinct m

  pub lookup-assign :
      (k j : String) (v : V) (m : List (String × V))
      → lookup j (assign k v m) ≡ (if k is j then some v else lookup j m)
  unfolding lookup assign
  lookup-assign k j v [] = refl
  lookup-assign k j v ((i, w) ∷ m) =
      ground (arith, is_iff k j, is_iff i k, is_iff i j, lookup-assign k j v m)

  pub lookup-without :
      (k j : String) (m : List (String × V))
      → lookup j (without k m) ≡ (if k is j then none else lookup j m)
  unfolding lookup without
  lookup-without k j [] = ground arith
  lookup-without k j ((i, w) ∷ m) =
      ground (arith, is_iff k j, is_iff i k, is_iff i j, lookup-without k j m)

  pub lookup-absent : (k : String) (m : List (String × V)) → has_key k m ≡ false → lookup k m ≡ none
  unfolding lookup has_key
  lookup-absent k [] h = refl
  lookup-absent k ((j, w) ∷ m) h = ground (arith, lookup-absent k m)

  pub has_key-lookup :
      (k : String) (v : V) (m : List (String × V)) → lookup k m ≡ some v → has_key k m ≡ true
  unfolding lookup has_key
  has_key-lookup k v [] h = ground arith
  has_key-lookup k v ((j, w) ∷ m) h = ground (arith, has_key-lookup k v m)

  pub has_key-assign :
      (k j : String) (v : V) (m : List (String × V))
      → has_key j (assign k v m) ≡ (if k is j then true else has_key j m)
  unfolding has_key assign
  has_key-assign k j v [] = refl
  has_key-assign k j v ((i, w) ∷ m) =
      ground (arith, is_iff k j, is_iff i k, is_iff i j, has_key-assign k j v m)

  pub has_key-without :
      (k j : String) (m : List (String × V))
      → has_key j (without k m) ≡ (if k is j then false else has_key j m)
  unfolding has_key without
  has_key-without k j [] = ground arith
  has_key-without k j ((i, w) ∷ m) =
      ground (arith, is_iff k j, is_iff i k, is_iff i j, has_key-without k j m)

  pub has_distinct-assign :
      (k : String) (v : V) (m : List (String × V))
      → has_distinct m ≡ true
      → has_distinct (assign k v m) ≡ true
  unfolding has_key has_distinct assign
  has_distinct-assign k v [] h = refl
  has_distinct-assign k v ((i, w) ∷ m) h =
      ground (arith, has_distinct-assign k v m, has_key-assign k i v m, is_iff i k, is_iff k i)

  pub has_distinct-without :
      (k : String) (m : List (String × V))
      → has_distinct m ≡ true
      → has_distinct (without k m) ≡ true
  unfolding has_distinct without
  has_distinct-without k [] h = refl
  has_distinct-without k ((i, w) ∷ m) h =
      ground (arith, has_distinct-without k m, has_key-without k i m, is_iff k i)
