-- ===== src/Profiler/Sections.antt =====
-- Profiled sections: what each operation does to the statistics of every section.
use text.Mathlib.Text.{◌==◌ as str_eq}
use text.Mathlib.TextEquality.{eq_iff}
use text.Mathlib.TextPositions.{eq_refl}
use high_performance_trading.Base.{
  ℕ, ◌+◌, ◌%◌, ◌<◌, ◌≡◌, refl, ◌∙◌, some, List, [], ◌∷◌, String, if◌then◌else◌, arith,
}
use high_performance_trading.Base.Word.{word}
use high_performance_trading.Core.Types.{Timestamp}
use high_performance_trading.Latency.{LatencyStats, clear, record_latency, record_cycles}
use high_performance_trading.Timer.{Timer, make_timer, reset, elapsed_nanos}
use high_performance_trading.Profiler.{
  Profiler, find_named, put_named, found_or, start_section, update_stats, end_section,
  record_section, record_section_cycles, section_stats, clear_section, scoped_profile,
}

module _ {V : Type 0} where
  find_named-put_named :
      (a b : String) (v : V) (m : List (String × V))
      → find_named b (put_named a v m) ≡ (if str_eq a b then some v else find_named b m)
  unfolding find_named put_named
  find_named-put_named a b v [] = refl
  find_named-put_named a b v ((key, w) ∷ m) =
      ground (arith, find_named-put_named a b v m, eq_iff key a, eq_iff key b, eq_iff a b)

section_stats-update_stats :
    (name other : String) (f : LatencyStats → LatencyStats) (p : Profiler)
    → section_stats other (update_stats name f p)
      ≡ (if str_eq name other then f (section_stats name p) else section_stats other p)
unfolding section_stats update_stats
section_stats-update_stats name other f p =
    rw (find_named-put_named name other (f (found_or clear (find_named name p.stats))) p.stats)
      (ground arith)

started_timer :
    (name : String) (now : Timestamp) (p : Profiler)
    → (timer : Timer) × (find_named name (start_section name now p).timers ≡ some (reset now timer))
unfolding start_section
started_timer name now p = (
  found_or (make_timer now) (find_named name p.timers),
  rw (
    find_named-put_named name name
        (reset now (found_or (make_timer now) (find_named name p.timers))) p.timers,
    eq_refl name,
  ),
)

end_section-timer :
    (name other : String) (now : Timestamp) (timer : Timer) (p : Profiler)
    → find_named name p.timers ≡ some timer
    → section_stats other (end_section name now p) ≡ (
        if str_eq name other
        then record_latency (elapsed_nanos now timer) (section_stats name p)
        else section_stats other p)
end_section-timer name other now timer p e =
    unfold end_section in
    rw (e, end_section)
      (section_stats-update_stats name other (record_latency (elapsed_nanos now timer)) p)

start_section_keeps :
    (name other : String) (now : Timestamp) (p : Profiler)
    → section_stats other (start_section name now p) ≡ section_stats other p
unfolding start_section section_stats
start_section_keeps name other now p = refl

-- A scope that takes less than 2^64 nanoseconds, entered at any reading of a 64-bit clock, adds
-- its duration to the statistics of its section, and no other section changes.
pub section_stats-scoped_profile :
    (name other : String) (entered span : ℕ) (p : Profiler)
    → entered < word
    → span < word
    → section_stats other (scoped_profile name entered ((entered + span) % word) p) ≡ (
        if str_eq name other
        then record_latency span (section_stats name p)
        else section_stats other p)
unfolding scoped_profile
section_stats-scoped_profile name other entered span p h k =
    let now = (entered + span) % word in
    let q = start_section name entered p in
    let (timer, e) = started_timer name entered p in
    let measured : elapsed_nanos now (reset entered timer) ≡ span =
      unfold elapsed_nanos reset in omega arith in
    end_section-timer name other now (reset entered timer) q e
    ∙ rw (
      measured,
      start_section_keeps name name entered p,
      start_section_keeps name other entered p,
    )

pub section_stats-record :
    (name other : String) (ns : ℕ) (p : Profiler)
    → (section_stats other (record_section name ns p) ≡ (
        if str_eq name other
        then record_latency ns (section_stats name p)
        else section_stats other p))
      × (section_stats other (record_section_cycles name ns p) ≡ (
          if str_eq name other
          then record_cycles ns (section_stats name p)
          else section_stats other p))
      × (section_stats other (clear_section name p)
          ≡ (if str_eq name other then clear else section_stats other p))
section_stats-record name other ns p =
    unfold record_section record_section_cycles clear_section in
    (
      section_stats-update_stats name other (record_latency ns) p,
      section_stats-update_stats name other (record_cycles ns) p,
      section_stats-update_stats name other (λ s. clear) p,
    )
