-- ===== src/Network/MarketData/Nesting.antt =====
-- The JSON texts of MarketDataPublisher are nested properly.
use high_performance_trading.Base.{ℕ, ◌≡◌, refl, false, some, List, [], ◌∷◌, ◌++◌, All}
use high_performance_trading.Base.Bytes.{Bytes, codes}
use high_performance_trading.Base.Bytes.Nesting.{
  Moves, Moves-append, literal, then_literal, then_number, then_plain, then_optional, IsNested,
  IsPlain, scan,
}
use high_performance_trading.Core.Double.{Double, DoubleText}
use high_performance_trading.Core.Types.{Price, Timestamp}
use high_performance_trading.Core.Trade.{Trade, get_value}
use high_performance_trading.Book.{OrderBook}
use high_performance_trading.Book.Views.{
  DepthLevel, get_best_bid, get_best_ask, get_spread, get_mid_price, get_bid_depth, get_ask_depth,
  get_stats,
}
use high_performance_trading.Network.MarketData.{
  price_text, json_level, json_levels, format_order_book_snapshot, format_trade, format_stats,
}

abbrev obj : List ℕ
obj = b'}' ∷ []

abbrev arr : List ℕ
arr = b']' ∷ b'}' ∷ []

module _ {D : Type 0} (d : Double D) (text : DoubleText D)
    (plain : (x : D) → All IsPlain (text.fixed 2 x)) where
  json_level-Moves : (level : DepthLevel) → Moves (json_level d text level) arr false arr false
  unfolding scan
  json_level-Moves level = then_literal (codes "    {\"price\": ") refl (
      then_plain (price_text d text level.price) (plain _) (
        then_literal (codes ", \"quantity\": ") refl (
          then_number level.quantity (
            then_literal (codes ", \"orders\": ") refl
              (then_number level.order_count (literal (codes "}") refl))))))

  json_levels-Moves :
      (levels : List DepthLevel) → Moves (json_levels d text levels) arr false arr false
  unfolding json_levels scan
  json_levels-Moves [] = literal [] refl
  json_levels-Moves (level ∷ []) =
      Moves-append (json_level d text level) (codes "\n") (json_level-Moves level)
        (literal (codes "\n") refl)
  json_levels-Moves (level ∷ next ∷ levels) =
      Moves-append (json_level d text level) _ (json_level-Moves level)
        (then_literal (codes ",\n") refl (json_levels-Moves (next ∷ levels)))

  price_line :
      (s : Bytes) (p : Price)
      → scan s obj false ≡ some (record { awaited = obj; quoted = false })
      → Moves (s ++ (price_text d text p ++ codes ",\n")) obj false obj false
  unfolding scan
  price_line s p h =
      then_literal s h (then_plain (price_text d text p) (plain _) (literal (codes ",\n") refl))

  -- The snapshot of every order book.
  pub snapshot-IsNested :
      (now : Timestamp) (book : OrderBook) → IsNested (format_order_book_snapshot d text now book)
  unfolding format_order_book_snapshot scan
  snapshot-IsNested now book =
      then_literal (codes "{\n  \"type\": \"orderbook_snapshot\",\n  \"timestamp\": ") refl (
        then_number now (
          then_literal (codes ",\n") refl (
            then_optional (get_best_bid book) _ (λ p. price_line (codes "  \"best_bid\": ") p refl)
              (then_optional (get_best_ask book) _
                (λ p. price_line (codes "  \"best_ask\": ") p refl)
                (then_optional (get_spread book) _ (λ p. price_line (codes "  \"spread\": ") p refl)
                  (then_optional (get_mid_price d book) _
                    (λ x.
                      then_literal (codes "  \"mid_price\": ") refl
                        (then_plain (text.fixed 2 x) (plain x) (literal (codes ",\n") refl)))
                    (then_literal (codes "  \"bids\": [\n") refl (
                      Moves-append (json_levels d text (get_bid_depth 10 book)) _
                        (json_levels-Moves (get_bid_depth 10 book))
                        (then_literal (codes "  ],\n  \"asks\": [\n") refl (
                          Moves-append (json_levels d text (get_ask_depth 10 book)) _
                            (json_levels-Moves (get_ask_depth 10 book))
                            (literal (codes "  ]\n}\n") refl)))))))))))

  -- The text of every trade whose symbol is plain.
  pub trade-IsNested :
      (trade : Trade) → All IsPlain (codes trade.symbol) → IsNested (format_trade d text trade)
  unfolding format_trade scan
  trade-IsNested trade clean =
      then_literal (codes "{\n  \"type\": \"trade\",\n  \"timestamp\": ") refl (
        then_number trade.timestamp (
          then_literal (codes ",\n  \"symbol\": \"") refl (
            then_plain (codes trade.symbol) clean (
              then_literal (codes "\",\n  \"buy_order_id\": ") refl (
                then_number trade.buy_order_id (
                  then_literal (codes ",\n  \"sell_order_id\": ") refl (
                    then_number trade.sell_order_id (
                      then_literal (codes ",\n  \"price\": ") refl (
                        then_plain (price_text d text trade.price) (plain _) (
                          then_literal (codes ",\n  \"quantity\": ") refl (
                            then_number trade.quantity (
                              then_literal (codes ",\n  \"value\": ") refl (
                                then_plain (text.fixed 2 (get_value d trade)) (plain _)
                                  (literal (codes "\n}\n") refl))))))))))))))

pub stats-IsNested : (now : Timestamp) (book : OrderBook) → IsNested (format_stats now book)
unfolding format_stats scan
stats-IsNested now book =
    let stats = get_stats book in
    then_literal (codes "{\n  \"type\": \"statistics\",\n  \"timestamp\": ") refl (
      then_number now (
        then_literal (codes ",\n  \"total_orders\": ") refl (
          then_number stats.total_orders (
            then_literal (codes ",\n  \"bid_levels\": ") refl (
              then_number stats.bid_levels (
                then_literal (codes ",\n  \"ask_levels\": ") refl (
                  then_number stats.ask_levels (
                    then_literal (codes ",\n  \"total_bid_quantity\": ") refl (
                      then_number stats.total_bid_qty (
                        then_literal (codes ",\n  \"total_ask_quantity\": ") refl
                          (then_number stats.total_ask_qty (literal (codes "\n}\n") refl))))))))))))

-- If two-decimal texts and the symbol of the trade have no quote, backslash or bracket, then in
-- the JSON texts of the publisher every brace, bracket and quote that opens is closed in order.
pub market_data-IsNested :
    {D : Type 0} (d : Double D) (text : DoubleText D) (now : Timestamp) (book : OrderBook)
    (trade : Trade)
    → ((x : D) → All IsPlain (text.fixed 2 x))
    → All IsPlain (codes trade.symbol)
    → IsNested (format_order_book_snapshot d text now book)
      × IsNested (format_trade d text trade)
      × IsNested (format_stats now book)
market_data-IsNested d text now book trade plain clean = (
  snapshot-IsNested d text plain now book,
  trade-IsNested d text plain trade clean,
  stats-IsNested now book,
)
