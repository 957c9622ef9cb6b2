-- ===== src/Base/Assoc.antt =====
-- `std::unordered_map` with number keys, as an association list. Iteration order is not observed.
use Prim.Native.Nat.{ℕ}
use mathlib.Core.Path.{◌≡◌, refl}
use mathlib.Core.Option.{Option, none, some}
use mathlib.Core.List.{List, [], ◌∷◌}
use native.Mathlib.Omega.{arith}
use high_performance_trading.Base.Tests.{◌==◌, if◌then◌else◌}

module _ {ℓ} {V : Type ℓ} where
  unfoldable pub find : ℕ → List (ℕ × V) → Option V
  find k [] = none
  find k ((j, v) ∷ m) = if j == k then some v else find k m

  -- `m[k] = v`
  unfoldable pub assign : ℕ → V → List (ℕ × V) → List (ℕ × V)
  assign k v [] = (k, v) ∷ []
  assign k v ((j, w) ∷ m) = if j == k then (k, v) ∷ m else (j, w) ∷ assign k v m

  -- All entries of a key go, so that no earlier entry comes back.
  unfoldable pub erase_key : ℕ → List (ℕ × V) → List (ℕ × V)
  erase_key k [] = []
  erase_key k ((j, v) ∷ m) = let rest = erase_key k m in if j == k then rest else (j, v) ∷ rest

  pub find-assign :
      (k j : ℕ) (v : V) (m : List (ℕ × V))
      → find j (assign k v m) ≡ (if k == j then some v else find j m)
  unfolding find assign
  find-assign k j v [] = refl
  find-assign k j v ((i, w) ∷ m) = ground (arith, find-assign k j v m)

  pub find-erase_key :
      (k j : ℕ) (m : List (ℕ × V)) → find j (erase_key k m) ≡ (if k == j then none else find j m)
  unfolding find erase_key
  find-erase_key k j [] = ground arith
  find-erase_key k j ((i, w) ∷ m) = ground (arith, find-erase_key k j m)
