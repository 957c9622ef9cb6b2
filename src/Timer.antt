-- ===== src/Timer.antt =====
-- include/utils/timer.hpp: the classes Timer and LatencyMeasurer. Readings of the clock, in
-- nanoseconds, and of the cycle counter are arguments.
pub mod Wrapping
use high_performance_trading.Base.{ℕ, ◌+◌, ◌*◌, ◌/◌, ◌^◌}
use high_performance_trading.Base.Word.{sub64}
use high_performance_trading.Core.Double.{Double}
use high_performance_trading.Core.Types.{Timestamp}

pub record Timer : Type 0 where
  pub begun : Timestamp

unfoldable pub make_timer : Timestamp → Timer
make_timer now = record { begun = now }

unfoldable pub reset : Timestamp → Timer → Timer
reset now timer = record timer { begun = now }

-- The difference of two signed readings as `uint64_t`, which is that of their words.
unfoldable pub elapsed_nanos : Timestamp → Timer → ℕ
elapsed_nanos now timer = sub64 now timer.begun

unfoldable pub elapsed_micros : Timestamp → Timer → ℕ
unfolding elapsed_nanos
elapsed_micros now timer = elapsed_nanos now timer / 1000

unfoldable pub elapsed_millis : Timestamp → Timer → ℕ
unfolding elapsed_nanos
elapsed_millis now timer = elapsed_nanos now timer / 1000000

-- The two halves of the cycle counter.
abbrev pub rdtsc : ℕ → ℕ → ℕ
rdtsc hi lo = hi * 2 ^ 32 + lo

pub record LatencyMeasurer : Type 0 where
  pub start_cycles : ℕ

unfoldable pub start : ℕ → LatencyMeasurer → LatencyMeasurer
start cycles m = record m { start_cycles = cycles }

unfoldable pub end : ℕ → LatencyMeasurer → ℕ
end cycles m = sub64 cycles m.start_cycles

module _ {D : Type 0} (d : Double D) where
  unfoldable pub elapsed_seconds : Timestamp → Timer → D
  unfolding elapsed_nanos
  elapsed_seconds now timer = d.div (d.of_nat (elapsed_nanos now timer)) (d.of_nat 1000000000)

  abbrev pub cycles_to_nanos : ℕ → D → D
  cycles_to_nanos cycles cpu_ghz = d.div (d.of_nat cycles) cpu_ghz
