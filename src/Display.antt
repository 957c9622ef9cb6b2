-- ===== src/Display.antt =====
-- The texts for display: Order::toString (include/core/order.hpp), Trade::toString and toCSV
-- (include/core/trade.hpp), PriceLevel::toString (include/engine/price_level.hpp),
-- OrderBook::displayBook (include/engine/order_book.hpp) and LatencyStats::toString
-- (include/utils/profiler.hpp).
use high_performance_trading.Base.{ℕ, List, [], ◌∷◌, ◌++◌, Option, some}
use high_performance_trading.Base.Bytes.{Bytes, codes}
use high_performance_trading.Base.Bytes.Decimal.{print_nat}
use high_performance_trading.Core.Double.{Double, DoubleText}
use high_performance_trading.Core.Types.{
  Price, price_to_double, side_to_string, order_type_to_string, order_status_to_string,
}
use high_performance_trading.Core.Order.{Order}
use high_performance_trading.Core.Trade.{Trade, get_value}
use high_performance_trading.PriceLevel.{PriceLevel, get_order_count}
use high_performance_trading.Book.{OrderBook}
use high_performance_trading.Book.Views.{
  DepthLevel, get_ask_depth, get_bid_depth, get_spread, get_mid_price,
}
use high_performance_trading.Latency.{LatencyStats, get_average, get_average_cycles}
use high_performance_trading.Latency.Percentile.{get_percentile, get_std_dev}
use high_performance_trading.Network.MarketData.{reverse_onto}

module _ {D : Type 0} (d : Double D) (text : DoubleText D) where
  unfoldable pub order_to_string : Order → Bytes
  order_to_string o =
      codes "Order[id="
      ++ print_nat o.id
      ++ codes ", symbol="
      ++ codes o.symbol
      ++ codes ", side="
      ++ codes (side_to_string o.side)
      ++ codes ", type="
      ++ codes (order_type_to_string o.order_type)
      ++ codes ", price="
      ++ text.to_string (price_to_double d o.price)
      ++ codes ", qty="
      ++ print_nat o.quantity
      ++ codes ", remaining="
      ++ print_nat o.remaining_quantity
      ++ codes ", status="
      ++ codes (order_status_to_string o.status)
      ++ codes "]"

  unfoldable pub trade_to_string : Trade → Bytes
  trade_to_string t =
      codes "Trade[buy="
      ++ print_nat t.buy_order_id
      ++ codes ", sell="
      ++ print_nat t.sell_order_id
      ++ codes ", symbol="
      ++ codes t.symbol
      ++ codes ", price="
      ++ text.to_string (price_to_double d t.price)
      ++ codes ", qty="
      ++ print_nat t.quantity
      ++ codes ", value=$"
      ++ text.to_string (get_value d t)
      ++ codes "]"

  unfoldable pub to_csv : Trade → Bytes
  to_csv t =
      print_nat t.timestamp
      ++ codes ","
      ++ print_nat t.buy_order_id
      ++ codes ","
      ++ print_nat t.sell_order_id
      ++ codes ","
      ++ codes t.symbol
      ++ codes ","
      ++ text.to_string (price_to_double d t.price)
      ++ codes ","
      ++ print_nat t.quantity
      ++ codes ","
      ++ text.to_string (get_value d t)

  unfoldable pub price_level_to_string : PriceLevel → Bytes
  price_level_to_string level =
      codes "PriceLevel[price="
      ++ text.to_string (price_to_double d level.price)
      ++ codes ", orders="
      ++ print_nat (get_order_count level)
      ++ codes ", totalQty="
      ++ print_nat level.total_quantity
      ++ codes "]"

  -- `sqrt` is `std::sqrt`, `to_index` the conversion of a `double` to `size_t` and `p999` the literal
  -- 99.9.
  unfoldable pub latency_to_string : (D → D) → (D → ℕ) → D → LatencyStats → Bytes
  latency_to_string sqrt to_index p999 s =
      let percentile = λ (p : D). print_nat (get_percentile d to_index p s) ++ codes " ns\n" in
      codes "Samples: "
      ++ print_nat s.count_of
      ++ codes "\nMin: "
      ++ print_nat s.least
      ++ codes " ns\nMax: "
      ++ print_nat s.greatest
      ++ codes " ns\nAvg: "
      ++ text.fixed 2 (get_average d s)
      ++ codes " ns\nStdDev: "
      ++ text.fixed 2 (get_std_dev d sqrt s)
      ++ codes " ns\nP50: "
      ++ percentile (d.of_nat 50)
      ++ codes "P95: "
      ++ percentile (d.of_nat 95)
      ++ codes "P99: "
      ++ percentile (d.of_nat 99)
      ++ codes "P99.9: "
      ++ percentile p999
      ++ (elim s.cycle_samples [
        | [] ↦ []
        | _ ∷ _ ↦ codes "Avg Cycles: " ++ text.fixed 2 (get_average_cycles d s) ++ codes "\n"
      ])

-- `shown` is the format of a stream that has not been told how to write a `double`.
module _ {D : Type 0} (d : Double D) (shown : D → Bytes) where
  abbrev pub display_level : DepthLevel → Bytes
  display_level level =
      codes "  "
      ++ shown (price_to_double d level.price)
      ++ codes " | "
      ++ print_nat level.quantity
      ++ codes " ("
      ++ print_nat level.order_count
      ++ codes " orders)\n"

  abbrev pub display_levels : List DepthLevel → Bytes
  display_levels [] = []
  display_levels (level ∷ levels) = display_level level ++ display_levels levels

  abbrev pub display_spread : Option Price → Option D → Bytes
  display_spread (some spread) (some mid) =
      codes "\n--- SPREAD: "
      ++ shown (price_to_double d spread)
      ++ codes " | MID: "
      ++ shown mid
      ++ codes " ---\n"
  display_spread _ _ = []

  unfoldable pub display_book : ℕ → OrderBook → Bytes
  display_book depth b =
      codes "\n========== ORDER BOOK: "
      ++ codes b.symbol
      ++ codes " ==========\n\n--- ASKS ---\n"
      ++ display_levels (reverse_onto (get_ask_depth depth b) [])
      ++ display_spread (get_spread b) (get_mid_price d b)
      ++ codes "\n--- BIDS ---\n"
      ++ display_levels (get_bid_depth depth b)
      ++ codes "\n==========================================\n"
