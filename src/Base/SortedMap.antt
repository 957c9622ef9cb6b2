-- ===== src/Base/SortedMap.antt =====
-- `std::map` as a list of entries in key order. Keys are compared by the map's comparator alone.
use mathlib.Core.Path.{◌≡◌}
use mathlib.Core.Bool.{Bool, true, false}
use mathlib.Core.Option.{Option, none, some}
use mathlib.Core.List.{List, [], ◌∷◌}
use high_performance_trading.Base.Tests.{if◌then◌else◌}

-- A strict total order, as a comparator must be.
pub record KeyOrder (K : Type 0) : Type 0 where
  pub before : K → K → Bool
  pub before_irrefl : (a : K) → before a a ≡ false
  pub before_trans : (a b c : K) → before a b ≡ true → before b c ≡ true → before a c ≡ true
  pub before_connected : (a b : K) → before a b ≡ false → before b a ≡ false → a ≡ b

module _ {K : Type 0} {V : Type 0} (o : KeyOrder K) where
  open o use {before}

  unfoldable pub find : K → List (K × V) → Option V
  find k [] = none
  find k ((j, v) ∷ m) = if before j k then find k m else if before k j then none else some v

  -- An entry for a new key; an old key keeps its value.
  unfoldable pub emplace : K → V → List (K × V) → List (K × V)
  emplace k v [] = (k, v) ∷ []
  emplace k v ((j, w) ∷ m) =
      if before j k
      then (j, w) ∷ emplace k v m
      else if before k j
      then (k, v) ∷ (j, w) ∷ m
      else (j, w) ∷ m

  -- A write to the value behind an iterator that `find` returned.
  unfoldable pub put : K → V → List (K × V) → List (K × V)
  put k v [] = []
  put k v ((j, w) ∷ m) =
      if before j k then (j, w) ∷ put k v m else if before k j then (j, w) ∷ m else (j, v) ∷ m

  unfoldable pub erase_at : K → List (K × V) → List (K × V)
  erase_at k [] = []
  erase_at k ((j, w) ∷ m) =
      if before j k then (j, w) ∷ erase_at k m else if before k j then (j, w) ∷ m else m

  -- Every key of the map stands behind `k`.
  abbrev pub Behind : K → List (K × V) → Type 0
  Behind k [] = Unit {0}
  Behind k ((j, v) ∷ m) = (before k j ≡ true) × Behind k m

  abbrev pub IsOrdered : List (K × V) → Type 0
  IsOrdered [] = Unit {0}
  IsOrdered ((j, v) ∷ m) = Behind j m × IsOrdered m

  pub Behind-trans : (k j : K) (m : List (K × V)) → before k j ≡ true → Behind j m → Behind k m
  Behind-trans k j [] h b = tt
  Behind-trans k j ((i, v) ∷ m) h b = (o.before_trans k j i h b.0, Behind-trans k j m h b.1)
