-- ===== src/Core/Double.antt =====
-- `double`, as any type with the operations that the code applies to it. No law is assumed.
use Prim.Native.Nat.{ℕ}
use mathlib.Core.Bool.{Bool}
use mathlib.Core.List.{List}
use mathlib.Core.Option.{Option}
use high_performance_trading.Base.Int.{ℤ}

pub record Double (D : Type 0) : Type 0 where
  -- Conversions from `int64_t` and `uint64_t`, and the truncating one to `int64_t`.
  pub of_int : ℤ → D
  pub of_nat : ℕ → D
  pub truncate : D → ℤ
  pub add : D → D → D
  pub sub : D → D → D
  pub mul : D → D → D
  pub div : D → D → D
  pub neg : D → D
  pub lt : D → D → Bool

-- The decimal notation of `double`: `std::to_string`, `std::fixed` with a number of decimals, and
-- `std::stod`, which throws (`none`).
pub record DoubleText (D : Type 0) : Type 0 where
  pub to_string : D → List ℕ
  pub fixed : ℕ → D → List ℕ
  pub stod : List ℕ → Option D
