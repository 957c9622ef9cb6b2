-- ===== src/Timer/Wrapping.antt =====
-- Measured differences of the timer and the cycle counter, also where the readings wrap.
use high_performance_trading.Base.{ℕ, ◌+◌, ◌/◌, ◌%◌, ◌<◌, ◌^◌, ◌≡◌, arith}
use high_performance_trading.Base.Word.{word}
use high_performance_trading.Timer.{
  Timer, LatencyMeasurer, reset, elapsed_nanos, elapsed_micros, elapsed_millis, start, end, rdtsc,
}

-- A span below 2^64 that begins at any reading is measured exactly.
pub spans_measured :
    (timer : Timer) (m : LatencyMeasurer) (reading hi lo span : ℕ)
    → reading < word
    → hi < 2 ^ 32
    → lo < 2 ^ 32
    → span < word
    → (elapsed_nanos ((reading + span) % word) (reset reading timer) ≡ span)
      × (elapsed_micros ((reading + span) % word) (reset reading timer) ≡ span / 1000)
      × (elapsed_millis ((reading + span) % word) (reset reading timer) ≡ span / 1000000)
      × (end ((rdtsc hi lo + span) % word) (start (rdtsc hi lo) m) ≡ span)
unfolding elapsed_nanos elapsed_micros elapsed_millis reset start end
spans_measured timer m reading hi lo span h k l s =
    (omega arith, omega arith, omega arith, omega arith)
