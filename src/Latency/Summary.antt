-- ===== src/Latency/Summary.antt =====
-- The running figures of LatencyStats against its samples.
use mathlib.Core.List.{append-nil, append_assoc}
use high_performance_trading.Base.{
  Bool, sym, All, ℕ, ◌+◌, ◌%◌, ◌<◌, ◌≤◌, ◌≡◌, refl, ◌∙◌, ◌⊎◌, inl, inr, true, List, [], ◌∷◌, ◌++◌,
  ltb, if◌then◌else◌, length, length-append, count, count-append, arith,
}
use high_performance_trading.Base.Word.{word}
use high_performance_trading.Latency.{LatencyStats, max_word, record_latency, clear}

unfoldable pub total : List ℕ → ℕ
total [] = 0
total (x ∷ xs) = x + total xs

total-append : (xs : List ℕ) (x : ℕ) → total (xs ++ (x ∷ [])) ≡ total xs + x
unfolding total
total-append [] x = omega arith
total-append (y ∷ xs) x = omega (arith, total-append xs x)

-- Sum and number of the samples modulo 2 ^ 64, and the least and the greatest one, which are the
-- initial values while there are none.
pub record IsSummary (s : LatencyStats) : Type 0 where
  pub sum : s.sum ≡ total s.samples % word
  pub count_of : s.count_of ≡ length s.samples % word
  pub lower : (x : ℕ) → 0 < count x s.samples → s.least ≤ x
  pub upper : (x : ℕ) → 0 < count x s.samples → x ≤ s.greatest
  pub least : ((s.samples ≡ []) × (s.least ≡ max_word)) ⊎ (0 < count s.least s.samples)
  pub greatest : ((s.samples ≡ []) × (s.greatest ≡ 0)) ⊎ (0 < count s.greatest s.samples)

clear-IsSummary : IsSummary clear
unfolding clear total
clear-IsSummary = record {
  sum = refl;
  count_of = refl;
  lower = λ x h. absurd (omega arith);
  upper = λ x h. absurd (omega arith);
  least = inl (refl, refl);
  greatest = inl (refl, refl);
}

-- A sample that is kept or replaced by the newest is a sample.
counted_last :
    (ns old : ℕ) (is_newer : Bool) (xs : List ℕ)
    → (is_newer ≡ true) ⊎ ((ns ≡ old) ⊎ (0 < count old xs))
    → 0 < count (if is_newer then ns else old) (xs ++ (ns ∷ []))
counted_last ns old is_newer xs h =
    ground (arith, count-append ns xs (ns ∷ []), count-append old xs (ns ∷ []))

record_latency-IsSummary :
    (ns : ℕ) (s : LatencyStats) → ns < word → IsSummary s → IsSummary (record_latency ns s)
unfolding record_latency
record_latency-IsSummary ns s h v = record {
  sum = omega (arith, v.sum, total-append s.samples ns);
  count_of = omega (arith, v.count_of, length-append s.samples (ns ∷ []));
  lower = λ x hx. ground (arith, v.lower x, count-append x s.samples (ns ∷ []), hx);
  upper = λ x hx. ground (arith, v.upper x, count-append x s.samples (ns ∷ []), hx);
  least = inr (counted_last ns s.least (ltb ns s.least) s.samples (ground (arith, v.least)));
  greatest =
      inr (counted_last ns s.greatest (ltb s.greatest ns) s.samples (ground (arith, v.greatest)));
}

-- The statistics after a sequence of measurements.
unfoldable pub record_all : List ℕ → LatencyStats → LatencyStats
record_all [] s = s
record_all (ns ∷ rest) s = record_all rest (record_latency ns s)

record_all-IsSummary :
    (measured : List ℕ) (s : LatencyStats)
    → All (λ ns. ns < word) measured
    → IsSummary s
    → IsSummary (record_all measured s)
unfolding record_all
record_all-IsSummary [] s fits v = v
record_all-IsSummary (ns ∷ rest) s fits v =
    record_all-IsSummary rest (record_latency ns s) fits.1 (record_latency-IsSummary ns s fits.0 v)

samples-record_all :
    (measured : List ℕ) (s : LatencyStats) → (record_all measured s).samples ≡ s.samples ++ measured
unfolding record_all record_latency
samples-record_all [] s = sym (append-nil s.samples)
samples-record_all (ns ∷ rest) s =
    samples-record_all rest (record_latency ns s) ∙ append_assoc s.samples (ns ∷ []) rest

-- After any sequence of measurements of 64 bits from cleared statistics, the samples are the
-- measurements, the sum and the number of them are right modulo 2^64, and the least and the
-- greatest are bounds of the samples that are attained, or the initial values if there are none.
pub record_all-clear :
    (measured : List ℕ)
    → All (λ ns. ns < word) measured
    → ((record_all measured clear).samples ≡ measured) × IsSummary (record_all measured clear)
unfolding clear
record_all-clear measured fits =
    (samples-record_all measured clear, record_all-IsSummary measured clear fits clear-IsSummary)
