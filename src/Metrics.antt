-- ===== src/Metrics.antt =====
-- include/utils/metrics.hpp: the class SystemMetrics. Every operation is one atomic access for each
-- counter that it names; here an operation is one step.
pub mod Events
pub mod Counting
pub mod Uptime
pub mod Report
use high_performance_trading.Base.{
  ℕ, ◌+◌, ◌-◌, ◌*◌, ◌/◌, ◌%◌, Bool, List, [], ◌∷◌, ◌++◌, ltb, ◌==◌, if◌then◌else◌,
}
use high_performance_trading.Base.Int.{ℤ, pos, ◌+ℤ◌, ◌-ℤ◌}
use high_performance_trading.Base.Word.{add64, to_word, of_word}
use high_performance_trading.Base.Bytes.{Bytes, codes}
use high_performance_trading.Base.Bytes.Decimal.{print_nat, print_int}
use high_performance_trading.Core.Double.{Double}
use high_performance_trading.Core.Types.{Timestamp}

-- The clock is in seconds; the code divides the difference of two readings.
pub record SystemMetrics : Type 0 where
  pub start_time : Timestamp
  pub orders_submitted : ℕ
  pub orders_accepted : ℕ
  pub orders_rejected : ℕ
  pub orders_cancelled : ℕ
  pub trades_executed : ℕ
  pub volume_traded : ℕ
  pub value_traded : ℕ
  pub total_latency : ℕ
  pub latency_measurements : ℕ
  pub errors : ℕ
  pub warnings : ℕ
  pub connections : ℤ

unfoldable pub make_metrics : Timestamp → SystemMetrics
make_metrics now = record {
  start_time = now;
  orders_submitted = 0;
  orders_accepted = 0;
  orders_rejected = 0;
  orders_cancelled = 0;
  trades_executed = 0;
  volume_traded = 0;
  value_traded = 0;
  total_latency = 0;
  latency_measurements = 0;
  errors = 0;
  warnings = 0;
  connections = pos 0;
}

abbrev pub record_order_submitted : SystemMetrics → SystemMetrics
record_order_submitted m = record m { orders_submitted = add64 m.orders_submitted 1 }

abbrev pub record_order_accepted : SystemMetrics → SystemMetrics
record_order_accepted m = record m { orders_accepted = add64 m.orders_accepted 1 }

abbrev pub record_order_rejected : SystemMetrics → SystemMetrics
record_order_rejected m = record m { orders_rejected = add64 m.orders_rejected 1 }

abbrev pub record_order_cancelled : SystemMetrics → SystemMetrics
record_order_cancelled m = record m { orders_cancelled = add64 m.orders_cancelled 1 }

-- `cents` is `static_cast<uint64_t>(value * 100)`.
abbrev pub record_trade : ℕ → ℕ → SystemMetrics → SystemMetrics
record_trade volume cents m = record m {
  trades_executed = add64 m.trades_executed 1;
  volume_traded = add64 m.volume_traded volume;
  value_traded = add64 m.value_traded cents;
}

abbrev pub record_latency : ℕ → SystemMetrics → SystemMetrics
record_latency ns m = record m {
  total_latency = add64 m.total_latency ns;
  latency_measurements = add64 m.latency_measurements 1;
}

abbrev pub record_error : SystemMetrics → SystemMetrics
record_error m = record m { errors = add64 m.errors 1 }

abbrev pub record_warning : SystemMetrics → SystemMetrics
record_warning m = record m { warnings = add64 m.warnings 1 }

-- `int64_t`, with the wrap of the atomic type.
abbrev pub record_connection_established : SystemMetrics → SystemMetrics
record_connection_established m = record m {
  connections = of_word (to_word (m.connections +ℤ pos 1));
}

abbrev pub record_connection_closed : SystemMetrics → SystemMetrics
record_connection_closed m = record m { connections = of_word (to_word (m.connections -ℤ pos 1)) }

-- The active connections stay.
unfoldable pub reset : Timestamp → SystemMetrics → SystemMetrics
reset now m = record m {
  start_time = now;
  orders_submitted = 0;
  orders_accepted = 0;
  orders_rejected = 0;
  orders_cancelled = 0;
  trades_executed = 0;
  volume_traded = 0;
  value_traded = 0;
  total_latency = 0;
  latency_measurements = 0;
  errors = 0;
  warnings = 0;
}

pub record Stats (D : Type 0) : Type 0 where
  pub orders_submitted : ℕ
  pub orders_accepted : ℕ
  pub orders_rejected : ℕ
  pub orders_cancelled : ℕ
  pub trades_executed : ℕ
  pub volume_traded : ℕ
  pub value_traded : D
  pub average_latency : D
  pub errors : ℕ
  pub warnings : ℕ
  pub active_connections : ℤ
  pub uptime_seconds : ℕ

module _ {D : Type 0} (d : Double D) where
  unfoldable pub get_value_traded : SystemMetrics → D
  get_value_traded m = d.div (d.of_nat m.value_traded) (d.of_nat 100)

  unfoldable pub get_average_latency : SystemMetrics → D
  get_average_latency m =
      if m.latency_measurements == 0
      then d.of_nat 0
      else d.div (d.of_nat m.total_latency) (d.of_nat m.latency_measurements)

  -- `now` is a steady clock, so it is not before the start.
  unfoldable pub get_stats : Timestamp → SystemMetrics → Stats D
  get_stats now m = record {
    orders_submitted = m.orders_submitted;
    orders_accepted = m.orders_accepted;
    orders_rejected = m.orders_rejected;
    orders_cancelled = m.orders_cancelled;
    trades_executed = m.trades_executed;
    volume_traded = m.volume_traded;
    value_traded = get_value_traded m;
    average_latency = get_average_latency m;
    errors = m.errors;
    warnings = m.warnings;
    active_connections = m.connections;
    uptime_seconds = now - m.start_time;
  }

abbrev pub part_text : ℕ → Bytes → Bytes
part_text n unit = if ltb 0 n then print_nat n ++ unit else []

unfoldable pub format_uptime : ℕ → Bytes
format_uptime seconds =
    let days = seconds / 86400 in
    let hours = seconds % 86400 / 3600 in
    let mins = seconds % 3600 / 60 in
    let secs = seconds % 60 in
    part_text days (codes "d ")
    ++ (part_text hours (codes "h ")
        ++ (part_text mins (codes "m ") ++ (print_nat secs ++ codes "s")))
