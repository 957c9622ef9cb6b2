-- ===== src/Latency.antt =====
-- include/utils/profiler.hpp: the class LatencyStats, less the percentiles, the deviation and the
-- report.
pub mod Summary
pub mod Percentile
use high_performance_trading.Base.{ℕ, ◌+◌, ◌-◌, List, [], ◌∷◌, ◌++◌, ltb, if◌then◌else◌, length}
use high_performance_trading.Base.Word.{word, add64}
use high_performance_trading.Core.Double.{Double}

pub record LatencyStats : Type 0 where
  pub samples : List ℕ
  pub cycle_samples : List ℕ
  pub sum : ℕ
  pub cycle_sum : ℕ
  pub count_of : ℕ
  pub least : ℕ
  pub greatest : ℕ

-- `UINT64_MAX`
abbrev pub max_word : ℕ
max_word = word - 1

unfoldable pub clear : LatencyStats
clear = record {
  samples = [];
  cycle_samples = [];
  sum = 0;
  cycle_sum = 0;
  count_of = 0;
  least = max_word;
  greatest = 0;
}

unfoldable pub record_latency : ℕ → LatencyStats → LatencyStats
record_latency ns s = record s {
  samples = s.samples ++ (ns ∷ []);
  sum = add64 s.sum ns;
  count_of = add64 s.count_of 1;
  least = if ltb ns s.least then ns else s.least;
  greatest = if ltb s.greatest ns then ns else s.greatest;
}

unfoldable pub record_cycles : ℕ → LatencyStats → LatencyStats
record_cycles cycles s = record s {
  cycle_samples = s.cycle_samples ++ (cycles ∷ []);
  cycle_sum = add64 s.cycle_sum cycles;
}

module _ {D : Type 0} (d : Double D) where
  unfoldable pub get_average : LatencyStats → D
  get_average s =
      if ltb 0 s.count_of then d.div (d.of_nat s.sum) (d.of_nat s.count_of) else d.of_nat 0

  unfoldable pub get_average_cycles : LatencyStats → D
  get_average_cycles s = elim s.cycle_samples [
    | [] ↦ d.of_nat 0
    | _ ∷ _ ↦ d.div (d.of_nat s.cycle_sum) (d.of_nat (length s.cycle_samples))
  ]
