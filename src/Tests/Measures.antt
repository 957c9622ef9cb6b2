-- ===== src/Tests/Measures.antt =====
-- The profiler, the percentiles and the logger at concrete inputs.
use text.Mathlib.Text.{◌==◌ as str_eq}
use high_performance_trading.Base.{
  ℕ, ◌+◌, ◌%◌, ◌<◌, ◌≤◌, ◌≡◌, refl, List, [], ◌∷◌, arith, if◌then◌else◌, length,
}
use high_performance_trading.Base.Word.{word}
use high_performance_trading.Base.Bytes.{codes}
use high_performance_trading.Latency.{LatencyStats, clear, record_latency}
use high_performance_trading.Latency.Percentile.{
  percentile_index, get_percentile, below, up_to, sort, get_percentile_rank,
}
use high_performance_trading.Latency.Summary.{record_all}
use high_performance_trading.Profiler.{Profiler, section_stats, scoped_profile}
use high_performance_trading.Profiler.Sections.{section_stats-scoped_profile}
use high_performance_trading.Logger.{debug, warn, log_line, error}
use high_performance_trading.Logger.Outputs.{Call, lines_at}
use high_performance_trading.Tests.Data.{whole}
use high_performance_trading.Base.Int.{ℤ, pos, negsuc}

abbrev profiler : Profiler
profiler = record { timers = []; stats = [] }

section_stats-scoped_profile_example :
    section_stats "match" (scoped_profile "match" 100 ((100 + 40) % word) profiler) ≡ (
      if str_eq "match" "match"
      then record_latency 40 (section_stats "match" profiler)
      else section_stats "match" profiler)
section_stats-scoped_profile_example =
    section_stats-scoped_profile "match" "match" 100 40 profiler (omega arith) (omega arith)

abbrev calls : List Call
calls =
    (record { level = debug; timestamp = codes "t1"; text = codes "tick" })
    ∷ (record { level = error; timestamp = codes "t2"; text = codes "lost" })
    ∷ []

only_the_error : lines_at warn calls ≡ codes "t2 [ERROR] lost\n"
unfolding lines_at log_line
only_the_error = refl

abbrev measured : LatencyStats
unfolding record_all record_latency clear
measured = record_all (7 ∷ 3 ∷ 9 ∷ []) clear

-- Here a product is its first factor, so that the index is the percentile.
abbrev as_size : ℤ → ℕ
as_size (pos n) = n
as_size (negsuc n) = 0

get_percentile_rank_example :
    let index = percentile_index whole as_size (pos 1) (length measured.samples) in
    let result = get_percentile whole as_size (pos 1) measured in
    (below result measured.samples ≤ index) × (index < up_to result measured.samples)
unfolding record_all record_latency clear percentile_index
get_percentile_rank_example = get_percentile_rank whole as_size (pos 1) measured (omega arith)

median_of_three : get_percentile whole as_size (pos 1) measured ≡ 7
unfolding get_percentile record_all record_latency clear percentile_index sort
median_of_three = refl
