-- ===== src/Prelude/Dict.antt =====
-- `std::unordered_map` as an association list. The list's order stands for the order of iteration,
-- which the standard leaves open: theorems hold for every list. Proofs elsewhere go by the laws.
use Prim.Native.Nat.{◌≤◌}
use mathlib.Core.Path.{◌≡◌, refl}
use mathlib.Core.Bool.{Bool, true, false}
use mathlib.Core.List.{List, [], ◌∷◌}
use mathlib.Core.Option.{Option, none, some}
use native.Mathlib.Omega.{arith}
use suba_sync.Prelude.Tests.{if◌then◌else◌}
use suba_sync.Prelude.Lists.{length}
use suba_sync.Prelude.Equality.{Eq, ◌==◌}

abbrev pub Dict {ℓ κ} : Type ℓ → Type κ → Type (ℓ ⊔ κ)
Dict K V = List (K × V)

module _ {ℓ κ} {K : Type ℓ} {V : Type κ} ⦃e : Eq K⦄ where
  unfoldable pub erase : K → Dict K V → Dict K V
  erase k [] = []
  erase k ((j, v) ∷ m) = let rest = erase k m in if j == k then rest else (j, v) ∷ rest

  unfoldable pub lookup : K → Dict K V → Option V
  lookup k [] = none
  lookup k ((key, v) ∷ m) = if key == k then some v else lookup k m

  -- `m.count(k) > 0`
  abbrev pub has : K → Dict K V → Bool
  has k m = elim (lookup k m) [ none ↦ false | some v ↦ true ]

  pub lookup-nil : (k : K) → lookup k [] ≡ none
  unfolding lookup
  lookup-nil k = refl

  pub lookup-erase :
      (k j : K) (m : Dict K V) → lookup j (erase k m) ≡ (if k == j then none else lookup j m)
  unfolding lookup erase
  lookup-erase k j [] = ground arith
  lookup-erase k j ((i, w) ∷ m) =
      ground (arith, e.equal_iff k j, e.equal_iff i k, e.equal_iff i j, lookup-erase k j m)

  pub length-erase-le : (k : K) (m : Dict K V) → length (erase k m) ≤ length m
  unfolding erase
  length-erase-le k [] = omega arith
  length-erase-le k ((i, w) ∷ m) = ground (arith, length-erase-le k m)

  -- `m[k] = v`
  unfoldable pub insert : K → V → Dict K V → Dict K V
  insert k v ((key, old) ∷ m) = if key == k then (k, v) ∷ m else (key, old) ∷ insert k v m
  insert k v [] = (k, v) ∷ []

  pub lookup-insert :
      (k j : K) (v : V) (m : Dict K V)
      → lookup j (insert k v m) ≡ (if k == j then some v else lookup j m)
  unfolding lookup insert
  lookup-insert k j v ((i, w) ∷ m) =
      ground (arith, lookup-insert k j v m, e.equal_iff i j, e.equal_iff i k, e.equal_iff k j)
  lookup-insert k j v [] = refl
