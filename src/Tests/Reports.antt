-- ===== src/Tests/Reports.antt =====
-- The theorems on the metrics and on the texts and rounds of the dashboard at concrete inputs.
use high_performance_trading.Base.{◌%◌, ◌≡◌, refl, true, some, List, [], ◌∷◌, arith, All}
use high_performance_trading.Base.Int.{ℤ, pos, sub_ℕ}
use high_performance_trading.Base.Word.{word}
use high_performance_trading.Base.Bytes.{codes}
use high_performance_trading.Base.Bytes.Decimal.{print_nat}
use high_performance_trading.Base.Bytes.Nesting.{IsNested, IsPlain, print_int-IsPlain}
use high_performance_trading.Core.Trade.{Trade}
use high_performance_trading.Metrics.{make_metrics, reset, get_stats, format_uptime}
use high_performance_trading.Metrics.Events.{
  Metric, submitted, accepted, trade, connected, disconnected, record_metrics,
}
use high_performance_trading.Metrics.Counting.{totals_since_reset}
use high_performance_trading.Network.MarketData.{
  format_order_book_snapshot, format_trade, format_stats,
}
use high_performance_trading.Network.MarketData.Nesting.{market_data-IsNested}
use high_performance_trading.Risk.{make_risk_manager, default_limits, get_position}
use high_performance_trading.Dashboard.{
  Dashboard, create_metrics_json, create_order_book_json, create_trade_json, create_risk_json,
}
use high_performance_trading.Dashboard.Nesting.{dashboard_texts-IsNested}
use high_performance_trading.Dashboard.Rounds.{Round, AfterRounds, run_rounds, run_rounds_total}
use high_performance_trading.Tests.Data.{ticks, whole, whole_text, shop, book, book-IsBook, engine}

abbrev deal : Trade
deal = record {
  buy_order_id = 4;
  sell_order_id = 3;
  symbol = "AAPL";
  price = pos 10100;
  quantity = 40;
  timestamp = 9;
}

whole-IsPlain : (x : ℤ) → All IsPlain (whole_text.fixed 2 x)
whole-IsPlain x = print_int-IsPlain x

market_data-IsNested_example :
    IsNested (format_order_book_snapshot whole whole_text 9 book)
    × IsNested (format_trade whole whole_text deal)
    × IsNested (format_stats 9 book)
market_data-IsNested_example =
    market_data-IsNested whole whole_text 9 book deal whole-IsPlain (omega arith)

dashboard_texts-IsNested_example :
    let m = make_metrics 0 in
    let r = make_risk_manager whole (default_limits whole) in
    IsNested (create_metrics_json whole whole_text (get_stats whole 5 m))
    × IsNested (create_order_book_json whole whole_text book)
    × IsNested (create_trade_json whole whole_text deal)
    × IsNested (create_risk_json whole whole_text m r (get_position whole "AAPL" r))
dashboard_texts-IsNested_example =
    dashboard_texts-IsNested whole whole_text whole-IsPlain (get_stats whole 5 (make_metrics 0))
      book deal (make_metrics 0) (make_risk_manager whole (default_limits whole))
      (get_position whole "AAPL" (make_risk_manager whole (default_limits whole)))

abbrev morning : List Metric
morning = connected ∷ submitted ∷ accepted ∷ connected ∷ []

abbrev noon : List Metric
noon = submitted ∷ trade 40 404000 ∷ disconnected ∷ []

totals_since_reset_example :
    let m = record_metrics noon (reset 9 (record_metrics morning (make_metrics 0))) in
    (m.orders_submitted ≡ 1 % word)
    × (m.orders_accepted ≡ 0 % word)
    × (m.orders_rejected ≡ 0 % word)
    × (m.orders_cancelled ≡ 0 % word)
    × (m.trades_executed ≡ 1 % word)
    × (m.volume_traded ≡ 40 % word)
    × (m.value_traded ≡ 404000 % word)
    × (m.total_latency ≡ 0 % word)
    × (m.latency_measurements ≡ 0 % word)
    × (m.errors ≡ 0 % word)
    × (m.warnings ≡ 0 % word)
    × (m.connections ≡ sub_ℕ 2 1)
totals_since_reset_example = totals_since_reset morning noon 0 9 (omega arith) (omega arith)

abbrev dashboard : Dashboard ℤ
dashboard = record {
  store = shop;
  engine = engine;
  risk = make_risk_manager whole (default_limits whole);
  metrics = make_metrics 0;
  server = record {
    running = true;
    server_socket = some 3;
    accepting = true;
    clients = 5 ∷ [];
    handlers = 5 ∷ [];
    closed = [];
    has_callback = true;
    delivered = [];
  };
  sent = [];
  next_order_id = 5;
}

abbrev rounds : List Round
rounds =
    (record { coin = 0; percent = 17; size = 40; now = 8; later = ticks })
    ∷ (record { coin = 1; percent = 3; size = 250; now = 10; later = ticks })
    ∷ []

run_rounds_total_example :
    (s' : Dashboard ℤ) × (run_rounds whole whole_text (λ x. 0) (pos 1) rounds dashboard ≡ some s')
    × AfterRounds whole 2 dashboard s'
run_rounds_total_example =
    run_rounds_total whole whole_text (λ x. 0) (pos 1) rounds dashboard book-IsBook

one_day : format_uptime 90061 ≡ codes "1d 1h 1m 1s"
unfolding format_uptime print_nat
one_day = refl
