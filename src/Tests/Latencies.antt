-- ===== src/Tests/Latencies.antt =====
-- Latency statistics at a concrete sequence of measurements.
use high_performance_trading.Base.{◌≡◌, refl, [], ◌∷◌, arith}
use high_performance_trading.Latency.{clear, record_latency}
use high_performance_trading.Latency.Summary.{IsSummary, record_all, record_all-clear}

least_of_three : (record_all (7 ∷ 3 ∷ 9 ∷ []) clear).least ≡ 3
unfolding record_all record_latency clear
least_of_three = refl

record_all-clear_example :
    ((record_all (7 ∷ 3 ∷ 9 ∷ []) clear).samples ≡ 7 ∷ 3 ∷ 9 ∷ [])
    × IsSummary (record_all (7 ∷ 3 ∷ 9 ∷ []) clear)
record_all-clear_example =
    record_all-clear (7 ∷ 3 ∷ 9 ∷ []) (omega arith, (omega arith, (omega arith, tt)))
