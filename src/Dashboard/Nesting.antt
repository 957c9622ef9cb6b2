-- ===== src/Dashboard/Nesting.antt =====
-- The JSON texts of the dashboard server are nested properly.
use high_performance_trading.Base.{ℕ, refl, Bool, true, false, List, [], ◌∷◌, All, ◌/◌}
use high_performance_trading.Base.Word.{add64}
use high_performance_trading.Base.Bytes.{codes}
use high_performance_trading.Base.Bytes.Nesting.{
  Moves, Moves-append, literal, then_literal, then_number, then_plain, then_integer, IsNested,
  IsPlain, scan,
}
use high_performance_trading.Core.Double.{Double, DoubleText}
use high_performance_trading.Core.Types.{price_to_double}
use high_performance_trading.Core.Trade.{Trade}
use high_performance_trading.Book.{OrderBook}
use high_performance_trading.Book.Views.{DepthLevel, get_spread, get_bid_depth, get_ask_depth}
use high_performance_trading.Risk.{RiskManager, Position}
use high_performance_trading.Metrics.{SystemMetrics, Stats}
use high_performance_trading.Dashboard.{
  create_metrics_json, level_json, levels_json, spread_or_zero, create_order_book_json,
  create_trade_json, create_risk_json,
}

abbrev obj : List ℕ
obj = b'}' ∷ []

abbrev arr : List ℕ
arr = b']' ∷ b'}' ∷ []

module _ {D : Type 0} (d : Double D) (text : DoubleText D)
    (plain : (x : D) → All IsPlain (text.fixed 2 x)) where
  level_json-Moves : (level : DepthLevel) → Moves (level_json d text level) arr false arr false
  unfolding scan
  level_json-Moves level = then_literal (codes "{\"price\":") refl (
      then_plain (text.fixed 2 (price_to_double d level.price)) (plain _) (
        then_literal (codes ",\"quantity\":") refl
          (then_number level.quantity (literal (codes "}") refl))))

  levels_json-Moves :
      (first : Bool) (levels : List DepthLevel)
      → Moves (levels_json d text first levels) arr false arr false
  unfolding levels_json scan
  levels_json-Moves first [] = literal [] refl
  levels_json-Moves true (level ∷ levels) =
      Moves-append (level_json d text level) _ (level_json-Moves level)
        (levels_json-Moves false levels)
  levels_json-Moves false (level ∷ levels) = then_literal (codes ",") refl (
      Moves-append (level_json d text level) _ (level_json-Moves level)
        (levels_json-Moves false levels))

  metrics-IsNested : (stats : Stats D) → IsNested (create_metrics_json d text stats)
  unfolding create_metrics_json scan
  metrics-IsNested stats = then_literal (codes "{\"type\":\"metrics\",\"ordersSubmitted\":") refl (
      then_number stats.orders_submitted (
        then_literal (codes ",\"tradesExecuted\":") refl (
          then_number stats.trades_executed (
            then_literal (codes ",\"avgLatency\":") refl (
              then_plain (text.fixed 2 _) (plain _) (
                then_literal (codes ",\"throughput\":") refl (
                  then_number (stats.orders_submitted / add64 stats.uptime_seconds 1)
                    (literal (codes "}") refl))))))))

  book-IsNested : (book : OrderBook) → IsNested (create_order_book_json d text book)
  unfolding create_order_book_json scan
  book-IsNested book = then_literal (codes "{\"type\":\"orderbook\",\"bids\":[") refl (
      Moves-append (levels_json d text true (get_bid_depth 5 book)) _
        (levels_json-Moves true (get_bid_depth 5 book))
        (then_literal (codes "],\"asks\":[") refl (
          Moves-append (levels_json d text true (get_ask_depth 5 book)) _
            (levels_json-Moves true (get_ask_depth 5 book))
            (then_literal (codes "],\"spread\":") refl (
              then_plain (text.fixed 2 (spread_or_zero d text (get_spread book))) (plain _)
                (literal (codes "}") refl))))))

  trade_json-IsNested : (trade : Trade) → IsNested (create_trade_json d text trade)
  unfolding create_trade_json scan
  trade_json-IsNested trade = then_literal (codes "{\"type\":\"trade\",\"timestamp\":") refl (
      then_number trade.timestamp (
        then_literal (codes ",\"price\":") refl (
          then_plain (text.fixed 2 (price_to_double d trade.price)) (plain _) (
            then_literal (codes ",\"quantity\":") refl
              (then_number trade.quantity (literal (codes "}") refl))))))

  risk-IsNested :
      (metrics : SystemMetrics) (risk : RiskManager D) (position : Position D)
      → IsNested (create_risk_json d text metrics risk position)
  unfolding create_risk_json scan
  risk-IsNested metrics risk position =
      then_literal (codes "{\"type\":\"risk\",\"position\":") refl (
        then_integer position.quantity (
          then_literal (codes ",\"dailyPnL\":") refl (
            then_plain (text.fixed 2 risk.daily_pnl) (plain _) (
              then_literal (codes ",\"ordersRejected\":") refl (
                then_number metrics.orders_rejected
                  (literal (codes ",\"connections\":0}") refl))))))

  -- If two-decimal texts have no quote, backslash or bracket, then in the four JSON texts of the
  -- dashboard every brace, bracket and quote that opens is closed in order.
  pub dashboard_texts-IsNested :
      (stats : Stats D) (book : OrderBook) (trade : Trade) (metrics : SystemMetrics)
      (risk : RiskManager D) (position : Position D)
      → IsNested (create_metrics_json d text stats)
        × IsNested (create_order_book_json d text book)
        × IsNested (create_trade_json d text trade)
        × IsNested (create_risk_json d text metrics risk position)
  dashboard_texts-IsNested stats book trade metrics risk position = (
    metrics-IsNested stats,
    book-IsNested book,
    trade_json-IsNested trade,
    risk-IsNested metrics risk position,
  )
