-- ===== src/Metrics/Counting.antt =====
-- What the counters of SystemMetrics hold after any sequence of records.
use high_performance_trading.Base.{ℕ, ◌+◌, ◌%◌, ◌<◌, ◌^◌, ◌≡◌, refl, ◌∙◌, List, [], ◌∷◌, arith}
use high_performance_trading.Base.Int.{pos, sub_ℕ, ◌+ℤ◌, ◌-ℤ◌}
use high_performance_trading.Base.Word.{word, of_word-to_word}
use high_performance_trading.Core.Types.{Timestamp}
use high_performance_trading.Metrics.{SystemMetrics, make_metrics, reset}
use high_performance_trading.Metrics.Events.{
  Metric, submitted, connected, disconnected, record_metric, record_metrics, tally, submissions,
  acceptances, rejections, cancellations, trades, volumes, values, latencies, measurements,
  failures, alerts, connects, disconnects,
}

-- A counter to which each record adds its weight, in 64 bits.
abbrev Adds : (SystemMetrics → ℕ) → (Metric → ℕ) → Type 0
Adds get weight =
    (e : Metric) (m : SystemMetrics)
    → get m < word
    → get (record_metric e m) ≡ (get m + weight e) % word

record_metrics-counter :
    (get : SystemMetrics → ℕ) (weight : Metric → ℕ)
    → Adds get weight
    → (events : List Metric) (m : SystemMetrics) → get m < word
    → get (record_metrics events m) ≡ (get m + tally weight events) % word
unfolding record_metrics
record_metrics-counter get weight adds [] m h = omega arith
record_metrics-counter get weight adds (e ∷ events) m h =
    let first = adds e m h in
    omega (
      arith,
      first,
      record_metrics-counter get weight adds events (record_metric e m) (omega (arith, first)),
    )

counter_from_zero :
    (get : SystemMetrics → ℕ) (weight : Metric → ℕ)
    → Adds get weight
    → (events : List Metric) (m : SystemMetrics) → get m ≡ 0
    → get (record_metrics events m) ≡ tally weight events % word
counter_from_zero get weight adds events m h =
    let total = record_metrics-counter get weight adds events m (omega (arith, h)) in
    omega (arith, total, h)

record_metric-connections :
    (x : Metric) (m : SystemMetrics) (a b : ℕ)
    → m.connections ≡ sub_ℕ a b
    → a + connects x < 2 ^ 63
    → b + disconnects x < 2 ^ 63
    → (record_metric x m).connections ≡ sub_ℕ (a + connects x) (b + disconnects x)
unfolding record_metric
record_metric-connections connected m a b e h k =
    let next : m.connections +ℤ pos 1 ≡ sub_ℕ (a + 1) b = rw e (unfold ◌+ℤ◌ in ground arith) in
    let same = of_word-to_word (sub_ℕ (a + 1) b) (ground arith) in ground (arith, next, same)
record_metric-connections disconnected m a b e h k =
    let next : m.connections -ℤ pos 1 ≡ sub_ℕ a (b + 1) = rw e (unfold ◌-ℤ◌ in ground arith) in
    let same = of_word-to_word (sub_ℕ a (b + 1)) (ground arith) in ground (arith, next, same)
record_metric-connections _ m a b e h k = ground arith

record_metrics-connections :
    (events : List Metric) (m : SystemMetrics) (a b : ℕ)
    → m.connections ≡ sub_ℕ a b
    → a + tally connects events < 2 ^ 63
    → b + tally disconnects events < 2 ^ 63
    → (record_metrics events m).connections
      ≡ sub_ℕ (a + tally connects events) (b + tally disconnects events)
unfolding record_metrics
record_metrics-connections [] m a b e h k = ground arith
record_metrics-connections (x ∷ events) m a b e h k =
    let p : a + connects x + tally connects events ≡ a + tally connects (x ∷ events) =
      omega arith in
    let q : b + disconnects x + tally disconnects events ≡ b + tally disconnects (x ∷ events) =
      omega arith in
    record_metrics-connections events (record_metric x m) (a + connects x) (b + disconnects x)
      (record_metric-connections x m a b e (omega arith) (omega arith)) (omega arith) (omega arith)
    ∙ (λ i. sub_ℕ (p i) (q i))

submissions-Adds : Adds (λ m. m.orders_submitted) submissions
unfolding record_metric
submissions-Adds submitted m h = ground arith
submissions-Adds _ m h = ground arith

acceptances-Adds : Adds (λ m. m.orders_accepted) acceptances
unfolding record_metric
acceptances-Adds submitted m h = ground arith
acceptances-Adds _ m h = ground arith

rejections-Adds : Adds (λ m. m.orders_rejected) rejections
unfolding record_metric
rejections-Adds submitted m h = ground arith
rejections-Adds _ m h = ground arith

cancellations-Adds : Adds (λ m. m.orders_cancelled) cancellations
unfolding record_metric
cancellations-Adds submitted m h = ground arith
cancellations-Adds _ m h = ground arith

trades-Adds : Adds (λ m. m.trades_executed) trades
unfolding record_metric
trades-Adds submitted m h = ground arith
trades-Adds _ m h = ground arith

volumes-Adds : Adds (λ m. m.volume_traded) volumes
unfolding record_metric
volumes-Adds submitted m h = ground arith
volumes-Adds _ m h = ground arith

values-Adds : Adds (λ m. m.value_traded) values
unfolding record_metric
values-Adds submitted m h = ground arith
values-Adds _ m h = ground arith

latencies-Adds : Adds (λ m. m.total_latency) latencies
unfolding record_metric
latencies-Adds submitted m h = ground arith
latencies-Adds _ m h = ground arith

measurements-Adds : Adds (λ m. m.latency_measurements) measurements
unfolding record_metric
measurements-Adds submitted m h = ground arith
measurements-Adds _ m h = ground arith

failures-Adds : Adds (λ m. m.errors) failures
unfolding record_metric
failures-Adds submitted m h = ground arith
failures-Adds _ m h = ground arith

alerts-Adds : Adds (λ m. m.warnings) alerts
unfolding record_metric
alerts-Adds submitted m h = ground arith
alerts-Adds _ m h = ground arith

-- If connects and disconnects stay below 2^63, then after a reset the counters hold the totals of
-- what was recorded since, modulo 2^64, and the active connections those of the whole run.
pub totals_since_reset :
    (earlier later : List Metric) (began now : Timestamp)
    → tally connects earlier + tally connects later < 2 ^ 63
    → tally disconnects earlier + tally disconnects later < 2 ^ 63
    → let m = record_metrics later (reset now (record_metrics earlier (make_metrics began))) in
      (m.orders_submitted ≡ tally submissions later % word)
      × (m.orders_accepted ≡ tally acceptances later % word)
      × (m.orders_rejected ≡ tally rejections later % word)
      × (m.orders_cancelled ≡ tally cancellations later % word)
      × (m.trades_executed ≡ tally trades later % word)
      × (m.volume_traded ≡ tally volumes later % word)
      × (m.value_traded ≡ tally values later % word)
      × (m.total_latency ≡ tally latencies later % word)
      × (m.latency_measurements ≡ tally measurements later % word)
      × (m.errors ≡ tally failures later % word)
      × (m.warnings ≡ tally alerts later % word)
      × (m.connections
          ≡ sub_ℕ
              (tally connects earlier + tally connects later)
              (tally disconnects earlier + tally disconnects later))
unfolding reset
totals_since_reset earlier later began now h k =
    let m = reset now (record_metrics earlier (make_metrics began)) in
    let before : m.connections ≡ sub_ℕ (tally connects earlier) (tally disconnects earlier) =
      ground (
        arith,
        record_metrics-connections earlier (make_metrics began) 0 0 (unfold make_metrics in refl)
            (omega arith) (omega arith),
      ) in
    (
      counter_from_zero (λ m. m.orders_submitted) submissions submissions-Adds later m refl,
      counter_from_zero (λ m. m.orders_accepted) acceptances acceptances-Adds later m refl,
      counter_from_zero (λ m. m.orders_rejected) rejections rejections-Adds later m refl,
      counter_from_zero (λ m. m.orders_cancelled) cancellations cancellations-Adds later m refl,
      counter_from_zero (λ m. m.trades_executed) trades trades-Adds later m refl,
      counter_from_zero (λ m. m.volume_traded) volumes volumes-Adds later m refl,
      counter_from_zero (λ m. m.value_traded) values values-Adds later m refl,
      counter_from_zero (λ m. m.total_latency) latencies latencies-Adds later m refl,
      counter_from_zero (λ m. m.latency_measurements) measurements measurements-Adds later m refl,
      counter_from_zero (λ m. m.errors) failures failures-Adds later m refl,
      counter_from_zero (λ m. m.warnings) alerts alerts-Adds later m refl,
      record_metrics-connections later m (tally connects earlier) (tally disconnects earlier) before
          h k,
    )
