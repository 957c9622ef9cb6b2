-- ===== src/Dashboard.antt =====
-- src/dashboard_server.cpp: the texts for the dashboard, the set-up from the configuration, a round of
-- the simulation thread with the trade callback, and what the update thread sends.
pub mod Rounds
pub mod Nesting
use high_performance_trading.Base.{
  ℕ, ◌+◌, ◌*◌, ◌/◌, ◌%◌, Bool, true, false, Option, none, some, List, [], ◌∷◌, ◌++◌, ltb, ◌==◌,
  if◌then◌else◌, ◌>>=◌,
}
use high_performance_trading.Base.Int.{ℤ, pos, ◌+ℤ◌, ◌-ℤ◌}
use high_performance_trading.Base.Word.{add64, to_word, of_word}
use high_performance_trading.Base.Bytes.{Bytes, codes}
use high_performance_trading.Base.Bytes.Decimal.{print_nat, print_int}
use high_performance_trading.Core.Double.{Double, DoubleText}
use high_performance_trading.Core.Types.{
  OrderId, Price, Quantity, Timestamp, Side, buy, sell, limit, is_buy, price_to_double,
  double_to_price,
}
use high_performance_trading.Core.Order.{Order, make_order}
use high_performance_trading.Core.Trade.{Trade, get_value}
use high_performance_trading.Store.{Store, Ref, alloc}
use high_performance_trading.Book.{OrderBook}
use high_performance_trading.Book.Views.{DepthLevel, get_spread, get_bid_depth, get_ask_depth}
use high_performance_trading.Engine.{Clock, Engine, Run}
use high_performance_trading.Engine.Matching.{submit_order}
use high_performance_trading.Risk.{
  Position, RiskLimits, RiskManager, ValidationResult, accepted, default_limits, make_risk_manager,
  validate_order, get_position,
}
use high_performance_trading.Risk.Update.{update_position}
use high_performance_trading.Metrics.{
  SystemMetrics, Stats, get_stats, record_order_submitted, record_order_accepted,
  record_order_rejected, record_trade,
}
use high_performance_trading.Config.{Settings, get_int}
use high_performance_trading.Network.TcpServer.{TcpServer}
use high_performance_trading.Network.TcpServer
use high_performance_trading.Network.WebSocket.{create_websocket_frame}

-- The variables of `main` that the threads share. `sent` is what went to which socket.
pub record Dashboard (D : Type 0) : Type 0 where
  pub store : Store
  pub engine : Engine D
  pub risk : RiskManager D
  pub metrics : SystemMetrics
  pub server : TcpServer
  pub sent : List (ℕ × Bytes)
  pub next_order_id : OrderId

-- `WebSocketServer::broadcast`
abbrev pub broadcast_json : {D : Type 0} → Bytes → Dashboard D → Dashboard D
broadcast_json json s = record s {
  sent = s.sent ++ TcpServer.broadcast (create_websocket_frame json) s.server;
}

module _ {D : Type 0} (d : Double D) (text : DoubleText D) where
  unfoldable pub create_metrics_json : Stats D → Bytes
  create_metrics_json stats =
      codes "{\"type\":\"metrics\",\"ordersSubmitted\":"
      ++ (print_nat stats.orders_submitted
          ++ (codes ",\"tradesExecuted\":"
              ++ (print_nat stats.trades_executed
                  ++ (codes ",\"avgLatency\":"
                      ++ (text.fixed 2 (d.div stats.average_latency (d.of_nat 1000))
                          ++ (codes ",\"throughput\":"
                              ++ (print_nat (stats.orders_submitted / add64 stats.uptime_seconds 1)
                                  ++ codes "}")))))))

  abbrev pub level_json : DepthLevel → Bytes
  level_json level =
      codes "{\"price\":"
      ++ (text.fixed 2 (price_to_double d level.price)
          ++ (codes ",\"quantity\":" ++ (print_nat level.quantity ++ codes "}")))

  -- A comma before each level but the first.
  unfoldable pub levels_json : Bool → List DepthLevel → Bytes
  levels_json first [] = []
  levels_json first (level ∷ levels) =
      (if first then [] else codes ",") ++ (level_json level ++ levels_json false levels)

  abbrev pub spread_or_zero : Option Price → D
  spread_or_zero none = d.of_nat 0
  spread_or_zero (some spread) = price_to_double d spread

  unfoldable pub create_order_book_json : OrderBook → Bytes
  create_order_book_json book =
      codes "{\"type\":\"orderbook\",\"bids\":["
      ++ (levels_json true (get_bid_depth 5 book)
          ++ (codes "],\"asks\":["
              ++ (levels_json true (get_ask_depth 5 book)
                  ++ (codes "],\"spread\":"
                      ++ (text.fixed 2 (spread_or_zero (get_spread book)) ++ codes "}")))))

  unfoldable pub create_trade_json : Trade → Bytes
  create_trade_json trade =
      codes "{\"type\":\"trade\",\"timestamp\":"
      ++ (print_nat trade.timestamp
          ++ (codes ",\"price\":"
              ++ (text.fixed 2 (price_to_double d trade.price)
                  ++ (codes ",\"quantity\":" ++ (print_nat trade.quantity ++ codes "}")))))

  unfoldable pub create_risk_json : SystemMetrics → RiskManager D → Position D → Bytes
  create_risk_json metrics risk position =
      codes "{\"type\":\"risk\",\"position\":"
      ++ (print_int position.quantity
          ++ (codes ",\"dailyPnL\":"
              ++ (text.fixed 2 risk.daily_pnl
                  ++ (codes ",\"ordersRejected\":"
                      ++ (print_nat metrics.orders_rejected ++ codes ",\"connections\":0}")))))

  -- The limits and the risk manager of `main`; an `int` becomes a `uint64_t`.
  unfoldable pub configured_risk : Settings → RiskManager D
  configured_risk config = make_risk_manager d (record (default_limits d) {
    max_order_size = to_word (get_int (codes "risk.max_order_size") (pos 10000) config);
    max_position_size = get_int (codes "risk.max_position_size") (pos 50000) config;
  })

  -- One turn of the update thread.
  unfoldable pub send_updates : Timestamp → Dashboard D → Dashboard D
  send_updates now s =
      let told = broadcast_json (create_metrics_json (get_stats d now s.metrics)) s in
      let shown = broadcast_json (create_order_book_json s.engine.order_book) told in
      broadcast_json (create_risk_json s.metrics s.risk (get_position d "AAPL" s.risk)) shown

  -- `to_uint64` is the conversion of the value in cents.
  module _ (to_uint64 : D → ℕ) where
    -- The trade callback: every trade counts as a buy.
    unfoldable pub on_trade : Trade → Dashboard D → Dashboard D
    on_trade trade s =
        let cents = to_uint64 (d.mul (get_value d trade) (d.of_nat 100)) in
        broadcast_json (create_trade_json trade) (record s {
          metrics = record_trade trade.quantity cents s.metrics;
          risk = update_position d trade buy s.risk;
        })

    unfoldable pub on_trades : List Trade → Dashboard D → Dashboard D
    on_trades [] s = s
    on_trades (trade ∷ trades) s = on_trades trades (on_trade trade s)

    -- An accepted order goes to the engine; `none` is an exception, which ends the program.
    unfoldable pub submit : Order → Clock → Dashboard D → Option (Dashboard D)
    submit order later s =
        submit_order d later s.store.next (alloc s.store order) s.engine >>= λ run.
        some (on_trades run.trades (record s { store = run.store; engine = run.engine }))

    abbrev pub decide : ValidationResult → Order → Clock → Dashboard D → Option (Dashboard D)
    decide accepted order later s =
        submit order later (record s { metrics = record_order_accepted s.metrics })
    decide _ order later s = some (record s { metrics = record_order_rejected s.metrics })

    -- The numbers that `rand` returns in a round, the readings of the clock and the literal 0.01.
    module _ (cent : D) where
      abbrev pub order_price : Side → ℕ → Price
      order_price side r =
          let base = double_to_price d (d.of_nat 150) in
          let offset = double_to_price d (d.mul (d.of_nat (r % 100)) cent) in
          of_word (to_word (if is_buy side then base -ℤ offset else base +ℤ offset))

      abbrev pub random_order : OrderId → ℕ → ℕ → ℕ → Timestamp → Order
      random_order id coin percent size now =
          let side : Side = if coin % 2 == 0 then buy else sell in
          make_order id "AAPL" side limit (order_price side percent) (size % 300 + 100) now

      -- One turn of the simulation thread.
      unfoldable pub simulation_round :
          ℕ → ℕ → ℕ → Timestamp → Clock → Dashboard D → Option (Dashboard D)
      simulation_round coin percent size now later s =
          let order = random_order s.next_order_id coin percent size now in
          let (risk', result) = validate_order d order (price_to_double d order.price) s.risk in
          decide result order later (record s {
            next_order_id = add64 s.next_order_id 1;
            metrics = record_order_submitted s.metrics;
            risk = risk';
          })
