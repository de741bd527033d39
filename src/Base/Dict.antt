-- ===== src/Base/Dict.antt =====
-- Go's maps as association lists, with lookup, store and delete. A key occurs once.
use mathlib.Core.Path.{◌≡◌, refl}
use mathlib.Core.Bool.{Bool, true, false}
use mathlib.Core.Option.{Option, none, some}
use mathlib.Core.List.{List, [], ◌∷◌}
use native.Mathlib.Omega.{arith}
use fastcopier.Base.Tests.{if◌then◌else◌}
use fastcopier.Base.Equality.{Comparable, ◌==◌}

abbrev pub Dict {ℓ κ} : Type ℓ → Type κ → Type (ℓ ⊔ κ)
Dict K V = List (K × V)

abbrev pub has_value {ℓ} : {V : Type ℓ} → Option V → Bool
has_value none = false
has_value (some v) = true

module _ {ℓ κ} {K : Type ℓ} {V : Type κ} where
  unfoldable pub keys : Dict K V → List K
  keys [] = []
  keys ((k, v) ∷ d) = k ∷ keys d

module _ {ℓ κ} {K : Type ℓ} {V : Type κ} ⦃e : Comparable K⦄ where
  unfoldable pub lookup : K → Dict K V → Option V
  lookup k [] = none
  lookup k ((j, v) ∷ d) = if k == j then some v else lookup k d

  -- `m[k] = v`
  unfoldable pub insert : K → V → Dict K V → Dict K V
  insert k v [] = (k, v) ∷ []
  insert k v ((j, w) ∷ d) = if k == j then (k, v) ∷ d else (j, w) ∷ insert k v d

  -- `delete(m, k)`. Every entry of the key goes; a map has at most one.
  unfoldable pub erase : K → Dict K V → Dict K V
  erase k [] = []
  erase k ((j, w) ∷ d) = let rest = erase k d in if k == j then rest else (j, w) ∷ rest

  pub lookup-insert :
      (j k : K) (v : V) (d : Dict K V)
      → lookup j (insert k v d) ≡ (if j == k then some v else lookup j d)
  unfolding lookup insert
  lookup-insert j k v [] = refl
  lookup-insert j k v ((i, w) ∷ d) =
      ground (arith, e.equals_iff j k, e.equals_iff k i, e.equals_iff j i, lookup-insert j k v d)

  pub lookup-erase :
      (j k : K) (d : Dict K V) → lookup j (erase k d) ≡ (if j == k then none else lookup j d)
  unfolding lookup erase
  lookup-erase j k [] = ground arith
  lookup-erase j k ((i, w) ∷ d) =
      ground (arith, e.equals_iff j k, e.equals_iff k i, e.equals_iff j i, lookup-erase j k d)
