-- ===== src/Network/MarketData.antt =====
-- include/network/market_data.hpp: the texts of the class MarketDataPublisher. A clock reading is an
-- argument, as is the decimal notation of `double`.
pub mod Csv
pub mod Nesting
use high_performance_trading.Base.{ℕ, Bool, true, false, Option, none, some, List, [], ◌∷◌, ◌++◌}
use high_performance_trading.Base.Int.{◌-ℤ◌}
use high_performance_trading.Base.Word.{of_word, to_word}
use high_performance_trading.Base.Bytes.{Bytes, codes}
use high_performance_trading.Base.Bytes.Decimal.{print_nat}
use high_performance_trading.Base.Bytes.Nesting.{text_if_some}
use high_performance_trading.Core.Double.{Double, DoubleText}
use high_performance_trading.Core.Types.{Price, Timestamp, price_to_double}
use high_performance_trading.Core.Trade.{Trade, get_value}
use high_performance_trading.Book.{OrderBook}
use high_performance_trading.Book.Views.{
  DepthLevel, BookStats, get_best_bid, get_best_ask, get_spread, get_mid_price, get_bid_depth,
  get_ask_depth, get_stats,
}

abbrev pub reverse_onto {ℓ} : {A : Type ℓ} → List A → List A → List A
reverse_onto [] ys = ys
reverse_onto (x ∷ xs) ys = reverse_onto xs (x ∷ ys)

abbrev pub spread_line : (Price → Bytes) → Option Price → Option Price → Bytes
spread_line price (some bid) (some ask) =
    codes "\nSPREAD: $" ++ (price (of_word (to_word (ask -ℤ bid))) ++ codes "\n")
spread_line price _ _ = []

module _ {D : Type 0} (d : Double D) (text : DoubleText D) where
  abbrev pub two_decimals : D → Bytes
  two_decimals x = text.fixed 2 x

  abbrev pub price_text : Price → Bytes
  price_text price = two_decimals (price_to_double d price)

  -- A field with a number, as a line of a JSON object.
  abbrev pub json_level : DepthLevel → Bytes
  json_level level =
      codes "    {\"price\": "
      ++ (price_text level.price
          ++ (codes ", \"quantity\": "
              ++ (print_nat level.quantity
                  ++ (codes ", \"orders\": " ++ (print_nat level.order_count ++ codes "}")))))

  -- A comma after each level but the last one.
  unfoldable pub json_levels : List DepthLevel → Bytes
  json_levels [] = []
  json_levels (level ∷ []) = json_level level ++ codes "\n"
  json_levels (level ∷ next ∷ levels) =
      json_level level ++ (codes ",\n" ++ json_levels (next ∷ levels))

  unfoldable pub format_order_book_snapshot : Timestamp → OrderBook → Bytes
  format_order_book_snapshot now book =
      codes "{\n  \"type\": \"orderbook_snapshot\",\n  \"timestamp\": "
      ++ (print_nat now
          ++ (codes ",\n"
              ++ (text_if_some (get_best_bid book)
                    (λ p. codes "  \"best_bid\": " ++ (price_text p ++ codes ",\n"))
                  ++ (text_if_some (get_best_ask book)
                        (λ p. codes "  \"best_ask\": " ++ (price_text p ++ codes ",\n"))
                      ++ (text_if_some (get_spread book)
                            (λ p. codes "  \"spread\": " ++ (price_text p ++ codes ",\n"))
                          ++ (text_if_some (get_mid_price d book)
                                (λ x. codes "  \"mid_price\": " ++ (two_decimals x ++ codes ",\n"))
                              ++ (codes "  \"bids\": [\n"
                                  ++ (json_levels (get_bid_depth 10 book)
                                      ++ (codes "  ],\n  \"asks\": [\n"
                                          ++ (json_levels (get_ask_depth 10 book)
                                              ++ codes "  ]\n}\n"))))))))))

  unfoldable pub format_trade : Trade → Bytes
  format_trade trade =
      codes "{\n  \"type\": \"trade\",\n  \"timestamp\": "
      ++ (print_nat trade.timestamp
          ++ (codes ",\n  \"symbol\": \""
              ++ (codes trade.symbol
                  ++ (codes "\",\n  \"buy_order_id\": "
                      ++ (print_nat trade.buy_order_id
                          ++ (codes ",\n  \"sell_order_id\": "
                              ++ (print_nat trade.sell_order_id
                                  ++ (codes ",\n  \"price\": "
                                      ++ (price_text trade.price
                                          ++ (codes ",\n  \"quantity\": "
                                              ++ (print_nat trade.quantity
                                                  ++ (codes ",\n  \"value\": "
                                                      ++ (two_decimals (get_value d trade)
                                                          ++ codes "\n}\n")))))))))))))

  unfoldable pub format_trade_csv : Trade → Bytes
  format_trade_csv trade =
      print_nat trade.timestamp
      ++ b','
        ∷ (codes trade.symbol
            ++ b','
              ∷ (print_nat trade.buy_order_id
                  ++ b','
                    ∷ (print_nat trade.sell_order_id
                        ++ b','
                          ∷ (price_text trade.price
                              ++ b','
                                ∷ (print_nat trade.quantity
                                    ++ b',' ∷ (two_decimals (get_value d trade) ++ codes "\n"))))))

  abbrev pub level_line : DepthLevel → Bytes
  level_line level =
      codes "  $"
      ++ (price_text level.price
          ++ (codes " | "
              ++ (print_nat level.quantity
                  ++ (codes " (" ++ (print_nat level.order_count ++ codes " orders)\n")))))

  unfoldable pub level_lines : List DepthLevel → Bytes
  level_lines [] = []
  level_lines (level ∷ levels) = level_line level ++ level_lines levels

  -- The asks from the highest of the five levels down.
  unfoldable pub format_order_book_text : OrderBook → Bytes
  format_order_book_text book =
      codes "\n===== ORDER BOOK =====\n\nASKS:\n"
      ++ (level_lines (reverse_onto (get_ask_depth 5 book) [])
          ++ (spread_line price_text (get_best_bid book) (get_best_ask book)
              ++ (codes "\nBIDS:\n"
                  ++ (level_lines (get_bid_depth 5 book) ++ codes "=====================\n"))))

unfoldable pub format_stats : Timestamp → OrderBook → Bytes
format_stats now book =
    let stats = get_stats book in
    codes "{\n  \"type\": \"statistics\",\n  \"timestamp\": "
    ++ (print_nat now
        ++ (codes ",\n  \"total_orders\": "
            ++ (print_nat stats.total_orders
                ++ (codes ",\n  \"bid_levels\": "
                    ++ (print_nat stats.bid_levels
                        ++ (codes ",\n  \"ask_levels\": "
                            ++ (print_nat stats.ask_levels
                                ++ (codes ",\n  \"total_bid_quantity\": "
                                    ++ (print_nat stats.total_bid_qty
                                        ++ (codes ",\n  \"total_ask_quantity\": "
                                            ++ (print_nat stats.total_ask_qty
                                                ++ codes "\n}\n")))))))))))
