-- ===== src/Profiler.antt =====
-- include/utils/profiler.hpp: the class Profiler. A `std::map` is a list of entries that an assignment
-- keeps in the order of the keys, in which a loop meets them.
pub mod Sections
use text.Mathlib.Text.{◌==◌ as str_eq}
use high_performance_trading.Base.{
  ℕ, Bool, true, false, ltb, ◌==◌, Option, none, some, List, [], ◌∷◌, ◌++◌, String, if◌then◌else◌,
}
use high_performance_trading.Base.Bytes.{Bytes, codes}
use high_performance_trading.Core.Types.{Timestamp}
use high_performance_trading.Latency.{LatencyStats, clear, record_latency, record_cycles}
use high_performance_trading.Timer.{Timer, make_timer, reset, elapsed_nanos}

-- The `<` of `std::string`.
abbrev pub bytes_before : Bytes → Bytes → Bool
bytes_before xs [] = false
bytes_before [] (y ∷ ys) = true
bytes_before (x ∷ xs) (y ∷ ys) = if x == y then bytes_before xs ys else ltb x y

module _ {V : Type 0} where
  unfoldable pub find_named : String → List (String × V) → Option V
  find_named name [] = none
  find_named name ((key, v) ∷ m) = if str_eq key name then some v else find_named name m

  -- An assignment through `m[name]`.
  unfoldable pub put_named : String → V → List (String × V) → List (String × V)
  put_named name v [] = (name, v) ∷ []
  put_named name v ((key, w) ∷ m) =
      let rest = put_named name v m in
      if str_eq key name
      then (key, v) ∷ m
      else if bytes_before (codes name) (codes key)
      then (name, v) ∷ (key, w) ∷ m
      else (key, w) ∷ rest

  -- `m[name]`, with a new value for a name that is not there.
  abbrev pub found_or : V → Option V → V
  found_or fresh none = fresh
  found_or fresh (some v) = v

pub record Profiler : Type 0 where
  pub timers : List (String × Timer)
  pub stats : List (String × LatencyStats)

unfoldable pub start_section : String → Timestamp → Profiler → Profiler
start_section name now p =
    let timer = found_or (make_timer now) (find_named name p.timers) in
    record p { timers = put_named name (reset now timer) p.timers }

-- A new entry of `stats_` holds cleared statistics.
unfoldable pub update_stats : String → (LatencyStats → LatencyStats) → Profiler → Profiler
update_stats name f p = record p {
  stats = put_named name (f (found_or clear (find_named name p.stats))) p.stats;
}

unfoldable pub end_section : String → Timestamp → Profiler → Profiler
unfolding update_stats
end_section name now p = elim (find_named name p.timers) [
  | none ↦ p
  | some timer ↦ update_stats name (record_latency (elapsed_nanos now timer)) p
]

unfoldable pub record_section : String → ℕ → Profiler → Profiler
unfolding update_stats
record_section name ns p = update_stats name (record_latency ns) p

unfoldable pub record_section_cycles : String → ℕ → Profiler → Profiler
unfolding update_stats
record_section_cycles name cycles p = update_stats name (record_cycles cycles) p

unfoldable pub section_stats : String → Profiler → LatencyStats
section_stats name p = found_or clear (find_named name p.stats)

unfoldable pub clear_profiler : Profiler → Profiler
clear_profiler p = record p { stats = []; timers = [] }

unfoldable pub clear_section : String → Profiler → Profiler
unfolding update_stats
clear_section name p = update_stats name (λ s. clear) p

-- ScopedProfile: a section around the code of a scope.
unfoldable pub scoped_profile : String → Timestamp → Timestamp → Profiler → Profiler
scoped_profile name entered left p = end_section name left (start_section name entered p)

-- `stats_text` is LatencyStats::toString.
unfoldable pub report_lines : (LatencyStats → Bytes) → List (String × LatencyStats) → Bytes
report_lines stats_text [] = []
report_lines stats_text ((name, s) ∷ m) =
    codes "--- "
    ++ (codes name
        ++ (codes " ---\n" ++ (stats_text s ++ (codes "\n" ++ report_lines stats_text m))))

unfoldable pub get_report : (LatencyStats → Bytes) → Profiler → Bytes
get_report stats_text p =
    codes "\n========== PERFORMANCE PROFILE ==========\n\n"
    ++ (report_lines stats_text p.stats ++ codes "=========================================\n")
