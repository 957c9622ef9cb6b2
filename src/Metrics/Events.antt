-- ===== src/Metrics/Events.antt =====
-- The records that callers of SystemMetrics make, as a sequence, and what each adds to a counter.
use high_performance_trading.Base.{ℕ, ◌+◌, List, [], ◌∷◌}
use high_performance_trading.Metrics.{
  SystemMetrics, record_order_submitted, record_order_accepted, record_order_rejected,
  record_order_cancelled, record_trade, record_latency, record_error, record_warning,
  record_connection_established, record_connection_closed,
}

pub data Metric : Type 0 where
  submitted accepted rejected cancelled error warning connected disconnected : Metric
  -- The volume and the cents.
  trade : ℕ → ℕ → Metric
  latency : ℕ → Metric

unfoldable pub record_metric : Metric → SystemMetrics → SystemMetrics
record_metric submitted m = record_order_submitted m
record_metric accepted m = record_order_accepted m
record_metric rejected m = record_order_rejected m
record_metric cancelled m = record_order_cancelled m
record_metric error m = record_error m
record_metric warning m = record_warning m
record_metric connected m = record_connection_established m
record_metric disconnected m = record_connection_closed m
record_metric (trade volume cents) m = record_trade volume cents m
record_metric (latency ns) m = record_latency ns m

unfoldable pub record_metrics : List Metric → SystemMetrics → SystemMetrics
record_metrics [] m = m
record_metrics (e ∷ events) m = record_metrics events (record_metric e m)

-- The sum of what the records add to a counter.
abbrev pub tally : (Metric → ℕ) → List Metric → ℕ
tally weight [] = 0
tally weight (e ∷ events) = weight e + tally weight events

abbrev pub submissions : Metric → ℕ
submissions submitted = 1
submissions _ = 0

abbrev pub acceptances : Metric → ℕ
acceptances accepted = 1
acceptances _ = 0

abbrev pub rejections : Metric → ℕ
rejections rejected = 1
rejections _ = 0

abbrev pub cancellations : Metric → ℕ
cancellations cancelled = 1
cancellations _ = 0

abbrev pub trades : Metric → ℕ
trades (trade volume cents) = 1
trades _ = 0

abbrev pub volumes : Metric → ℕ
volumes (trade volume cents) = volume
volumes _ = 0

abbrev pub values : Metric → ℕ
values (trade volume cents) = cents
values _ = 0

abbrev pub latencies : Metric → ℕ
latencies (latency ns) = ns
latencies _ = 0

abbrev pub measurements : Metric → ℕ
measurements (latency ns) = 1
measurements _ = 0

abbrev pub failures : Metric → ℕ
failures error = 1
failures _ = 0

abbrev pub alerts : Metric → ℕ
alerts warning = 1
alerts _ = 0

abbrev pub connects : Metric → ℕ
connects connected = 1
connects _ = 0

abbrev pub disconnects : Metric → ℕ
disconnects disconnected = 1
disconnects _ = 0
